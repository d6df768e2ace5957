-- ===== src/Omemo/Text.antt =====
-- split, join and parse_uint32 of src/omemo/internal_prelude.inl.
use mathlib.Core.List.{cons-ne-nil}
use mathlib.Core.Path.{subst}
use weechat_xmpp_improved.Prelude.{
  ℕ, ◌<◌, ◌≡◌, ◌≢◌, refl, sym, ap, ◌∙◌, Bool, true, false, not, ◌&&◌, Option, none, some, List, [],
  ◌∷◌, ◌++◌, Bytes, ◌==◌, ltb, leb, if◌then◌else◌, All, arith, append_assoc, append-nil, is_digit,
  read_digits, u32_mod, to_string, ==_refl, Bool-cases, inl, inr, All-append, DigitHead,
  to_string-DigitHead, read_digits-to_string,
}

push : List Bytes → Bytes → List Bytes
push parts [] = parts
push parts (c ∷ s) = parts ++ ((c ∷ s) ∷ [])

-- The loop over the characters, with the parts and the current part so far.
split_from : ℕ → List Bytes → Bytes → Bytes → List Bytes
split_from sep parts current [] = push parts current
split_from sep parts current (ch ∷ s) = elim (ch == sep) [
  | true ↦ split_from sep (push parts current) [] s
  | false ↦ split_from sep parts (current ++ (ch ∷ [])) s
]

unfoldable pub split : Bytes → ℕ → List Bytes
unfolding split_from push
split input separator = split_from separator [] [] input

-- The values behind the first, each after a separator.
joined : Bytes → List Bytes → Bytes
joined separator [] = []
joined separator (v ∷ vs) = separator ++ (v ++ joined separator vs)

unfoldable pub join : List Bytes → Bytes → Bytes
unfolding joined
join [] separator = []
join (v ∷ vs) separator = v ++ joined separator vs

-- from_chars takes digits alone, and the whole text has to be read.
unfoldable pub parse_uint32 : Bytes → Option ℕ
parse_uint32 [] = none
parse_uint32 (c ∷ s) =
    if is_digit c
    then (let (n, rest) = read_digits 0 (c ∷ s) in
        elim rest [ [] ↦ if ltb n u32_mod then some n else none | d ∷ t ↦ none ])
    else none

unfoldable pub is_valid_omemo_device_id : ℕ → Bool
is_valid_omemo_device_id device_id = not (device_id == 0) && leb device_id 0x7fffffff

abbrev pub Lacks : ℕ → Bytes → Type 0
Lacks sep = All (λ c. (c == sep) ≡ false)

-- A part that split can return: not empty, and without the separator.
abbrev pub IsPart : ℕ → Bytes → Type 0
IsPart sep p = (p ≢ []) × Lacks sep p

module _ (sep : ℕ) where
  split_from_other :
      (parts : List Bytes) (current : Bytes) (c : ℕ) (s : Bytes)
      → (c == sep) ≡ false
      → split_from sep parts current (c ∷ s) ≡ split_from sep parts (current ++ (c ∷ [])) s
  unfolding split_from
  split_from_other parts current c s e = rw (e, split_from)

  split_from_sep :
      (parts : List Bytes) (current : Bytes) (c : ℕ) (s : Bytes)
      → (c == sep) ≡ true
      → split_from sep parts current (c ∷ s) ≡ split_from sep (push parts current) [] s
  unfolding split_from
  split_from_sep parts current c s e = rw (e, split_from)

  split_from_part :
      (parts : List Bytes) (current p s : Bytes)
      → Lacks sep p
      → split_from sep parts current (p ++ s) ≡ split_from sep parts (current ++ p) s
  split_from_part parts current [] s h = rw append-nil
  split_from_part parts current (c ∷ p) s (e, h) =
      split_from_other parts current c (p ++ s) e
      ∙ split_from_part parts (current ++ (c ∷ [])) p s h
      ∙ ap (λ t. split_from sep parts t s) (append_assoc current (c ∷ []) p)

  push_part : (parts : List Bytes) (p : Bytes) → p ≢ [] → push parts p ≡ parts ++ (p ∷ [])
  unfolding push
  push_part parts [] h = absurd (h refl)
  push_part parts (c ∷ p) h = refl

  split_from-joined :
      (parts : List Bytes) (p : Bytes) (ps : List Bytes)
      → IsPart sep p
      → All (IsPart sep) ps
      → split_from sep parts p (joined (sep ∷ []) ps) ≡ parts ++ (p ∷ ps)
  unfolding split_from joined
  split_from-joined parts p [] (ne, l) hs = push_part parts p ne
  split_from-joined parts p (q ∷ ps) (ne, l) (hq, hs) =
      split_from_sep parts p sep (q ++ joined (sep ∷ []) ps) (==_refl sep)
      ∙ (split_from_part (push parts p) [] q (joined (sep ∷ []) ps) hq.1
          ∙ split_from-joined (push parts p) q ps hq hs
          ∙ ap (λ t. t ++ (q ∷ ps)) (push_part parts p ne)
          ∙ append_assoc parts (p ∷ []) (q ∷ ps))

  push-IsPart :
      (parts : List Bytes) (current : Bytes)
      → All (IsPart sep) parts
      → Lacks sep current
      → All (IsPart sep) (push parts current)
  unfolding push
  push-IsPart parts [] h l = h
  push-IsPart parts (c ∷ s) h l =
      All-append (IsPart sep) parts ((c ∷ s) ∷ []) h ((cons-ne-nil c s, l), tt)

  split_from-IsPart :
      (parts : List Bytes) (current s : Bytes)
      → All (IsPart sep) parts
      → Lacks sep current
      → All (IsPart sep) (split_from sep parts current s)
  unfolding split_from
  split_from-IsPart parts current [] h l = push-IsPart parts current h l
  split_from-IsPart parts current (c ∷ s) h l = elim (Bool-cases (c == sep)) [
    | inl e ↦
        subst (All (IsPart sep)) (sym (split_from_sep parts current c s e))
          (split_from-IsPart (push parts current) [] s (push-IsPart parts current h l) tt)
    | inr e ↦ subst (All (IsPart sep)) (sym (split_from_other parts current c s e)) (
        split_from-IsPart parts (current ++ (c ∷ [])) s h
          (All-append (λ d. (d == sep) ≡ false) current (c ∷ []) l (e, tt)))
  ]

-- No part of a split is empty or holds the separator, whatever the text is.
pub split-IsPart : (sep : ℕ) (s : Bytes) → All (IsPart sep) (split s sep)
unfolding split
split-IsPart sep s = split_from-IsPart sep [] [] s tt tt

-- Parts that are not empty and hold no separator come back from split after join, in order.
pub split-join :
    (sep : ℕ) (ps : List Bytes) → All (IsPart sep) ps → split (join ps (sep ∷ [])) sep ≡ ps
unfolding split join
split-join sep [] h = refl
split-join sep (p ∷ ps) (hp, hs) =
    split_from_part sep [] [] p (joined (sep ∷ []) ps) hp.1 ∙ split_from-joined sep [] p ps hp hs

parse_uint32_digits :
    (s : Bytes) (n : ℕ)
    → DigitHead s
    → read_digits 0 s ≡ (n, [])
    → n < u32_mod
    → parse_uint32 s ≡ some n
unfolding parse_uint32
parse_uint32_digits [] n h e lt = absurd h
parse_uint32_digits (c ∷ s) n h e lt = rw (h, e, parse_uint32) (ground arith)

-- What std::to_string or fmt print of a uint32_t, parse_uint32 reads back.
pub parse_uint32-to_string : (n : ℕ) → n < u32_mod → parse_uint32 (to_string n) ≡ some n
parse_uint32-to_string n lt =
    parse_uint32_digits (to_string n) n (to_string-DigitHead n)
      (read_digits-to_string n (omega arith)) lt
