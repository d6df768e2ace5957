-- ===== src/Picker/Search.antt =====
-- The searches of the picker: what find returns, and what highlight_match marks.
use weechat_xmpp_improved.Prelude.{
  find, ℕ, zero, suc, ◌+◌, ◌≤◌, ◌<◌, ◌≡◌, ◌↔◌, inl, inr, refl, sym, ap, ◌∙◌, Bool, true, false,
  Option, none, some, [], ◌∷◌, ◌++◌, String, Bytes, lower, to_lower, starts_with, if◌then◌else◌,
  ◌==◌, length, take, drop, drop-drop, drop-nil, take-append-drop, length-take, drop-map, take-map,
  length-map, arith, Option-cases, Bool-cases,
}
use mathlib.Core.Path.{subst}
use weechat_xmpp_improved.Picker.{highlight_match, when_selected}

-- The first place where the needle stands.
pub record IsFirst (needle s : Bytes) (i : ℕ) : Type 0 where
  pub fits : i ≤ length s
  pub there : starts_with needle (drop i s) ≡ true
  pub none_before : (j : ℕ) → j < i → starts_with needle (drop j s) ≡ false

IsFirst-here : (needle s : Bytes) → starts_with needle s ≡ true → IsFirst needle s 0
IsFirst-here needle s h = record {
  fits = omega arith;
  there = h;
  none_before = λ j lt. absurd (omega arith);
}

IsFirst-later :
    (needle : Bytes) (c : ℕ) (s : Bytes) (i : ℕ)
    → starts_with needle (c ∷ s) ≡ false
    → IsFirst needle s i
    → IsFirst needle (c ∷ s) (suc i)
IsFirst-later needle c s i other h = record {
  fits = omega (arith, h.fits);
  there = h.there;
  none_before = before;
}
  where
    before : (j : ℕ) → j < suc i → starts_with needle (drop j (c ∷ s)) ≡ false
    before zero lt = other
    before (suc j) lt = h.none_before j (omega arith)

find_found : (needle s : Bytes) (i : ℕ) → find needle s ≡ some i → IsFirst needle s i
unfolding find starts_with
find_found [] [] i e =
    subst (IsFirst [] []) (ground arith) (IsFirst-here [] [] (unfold starts_with in refl))
find_found (c ∷ needle) [] i e = absurd (ground arith)
find_found needle (c ∷ s) i e = elim (Bool-cases (starts_with needle (c ∷ s))) [
  | inl here ↦ subst (IsFirst needle (c ∷ s)) (ground arith) (IsFirst-here needle (c ∷ s) here)
  | inr other ↦ elim (Option-cases (find needle s)) [
    | inl q ↦ absurd (ground arith)
    | inr (k, q) ↦
        subst (IsFirst needle (c ∷ s)) (ground arith)
          (IsFirst-later needle c s k other (find_found needle s k q))
  ]
]

find_missing :
    (needle s : Bytes) (j : ℕ) → find needle s ≡ none → starts_with needle (drop j s) ≡ false
unfolding find starts_with
find_missing [] [] j e = absurd (ground arith)
find_missing (c ∷ needle) [] j e = ap (starts_with (c ∷ needle)) (drop-nil j)
find_missing needle (c ∷ s) zero e = ground arith
find_missing needle (c ∷ s) (suc j) e = find_missing needle s j (ground arith)

first_unique : (needle s : Bytes) (i k : ℕ) → IsFirst needle s i → IsFirst needle s k → i ≡ k
first_unique needle s i k h g = elim (Bool-cases (i == k)) [
  | inl e ↦ ground arith
  | inr e ↦ ground (arith, h.none_before k, g.none_before i, h.there, g.there)
]

-- std::string::find returns a place exactly if it is the first one where the needle stands.
pub find_iff : (needle s : Bytes) (i : ℕ) → (find needle s ≡ some i) ↔ IsFirst needle s i
find_iff needle s i = (find_found needle s i, back)
  where
    back : IsFirst needle s i → find needle s ≡ some i
    back h = elim (Option-cases (find needle s)) [
      | inl e ↦ absurd (ground (arith, find_missing needle s i e, h.there))
      | inr (k, e) ↦ e ∙ ap some (first_unique needle s k i (find_found needle s k e) h)
    ]

starts_with-take : (p s : Bytes) → starts_with p s ≡ true → take (length p) s ≡ p
unfolding starts_with
starts_with-take [] s h = refl
starts_with-take (c ∷ p) [] h = cc
starts_with-take (c ∷ p) (d ∷ s) h = ground (arith, starts_with-take p s)

-- The part of the text that find points at is the needle, up to case.
lower_part :
    (text needle : Bytes) (i : ℕ)
    → starts_with (lower needle) (drop i (lower text)) ≡ true
    → lower (take (length needle) (drop i text)) ≡ lower needle
lower_part text needle i h =
    sym (take-map to_lower (length needle) (drop i text))
    ∙ ap (take (length needle)) (sym (drop-map to_lower i text))
    ∙ ap (λ n. take n (drop i (lower text))) (sym (length-map to_lower needle))
    ∙ starts_with-take (lower needle) (drop i (lower text)) h

three_parts : (i n : ℕ) (s : Bytes) → s ≡ take i s ++ (take n (drop i s) ++ drop (i + n) s)
three_parts i n s = sym (
    ap (λ z. take i s ++ (take n (drop i s) ++ z)) (sym (drop-drop n i s))
    ∙ ap (λ z. take i s ++ z) (take-append-drop n (drop i s))
    ∙ take-append-drop i s)

-- The text with its first part that is the needle, up to case, between colour codes; the text
-- itself if no part is, or if the needle is empty.
pub data Highlights (color : String → Bytes) (text needle : Bytes) (is_selected : Bool)
    : Bytes → Type 0 where
  no_needle : needle ≡ [] → Highlights color text needle is_selected text
  missing :
      ((j : ℕ) → starts_with (lower needle) (drop j (lower text)) ≡ false)
      → Highlights color text needle is_selected text
  marked :
      (before part after : Bytes)
      → text ≡ before ++ (part ++ after)
      → lower part ≡ lower needle
      → ((j : ℕ) → j < length before → starts_with (lower needle) (drop j (lower text)) ≡ false)
      → Highlights color text needle is_selected (
          before
          ++ ((if is_selected then color "reset" else [])
              ++ (color "yellow"
                  ++ (color "bold"
                      ++ (part
                          ++ (color "reset"
                              ++ ((if is_selected then color "reverse" else []) ++ after)))))))

-- For every text, needle and choice of colour codes, highlight_match keeps the text and puts the
-- codes around the first part of it that is the needle, up to case, or around nothing if there is
-- no such part or no needle.
pub highlight_match-Highlights :
    (color : String → Bytes) (text needle : Bytes) (is_selected : Bool)
    → Highlights color text needle is_selected (highlight_match color text needle is_selected)
unfolding highlight_match when_selected
highlight_match-Highlights color text [] is_selected = no_needle refl
highlight_match-Highlights color text (c ∷ needle) is_selected =
    go (find (lower (c ∷ needle)) (lower text)) refl
  where
    go :
        (o : Option ℕ)
        → find (lower (c ∷ needle)) (lower text) ≡ o
        → Highlights color text
            (c ∷ needle)
            is_selected
            (highlight_match color text (c ∷ needle) is_selected)
    go none e =
        rw (e, highlight_match) (missing (λ j. find_missing (lower (c ∷ needle)) (lower text) j e))
    go (some i) e =
        let h = find_found (lower (c ∷ needle)) (lower text) i e in
        let size = length-take i text (omega (arith, h.fits, length-map to_lower text)) in
        rw (e, highlight_match)
          (marked (take i text) (take (length (c ∷ needle)) (drop i text))
            (drop (i + length (c ∷ needle)) text) (three_parts i (length (c ∷ needle)) text)
            (lower_part text (c ∷ needle) i h.there)
            (λ j lt. h.none_before j (omega (arith, size))))
