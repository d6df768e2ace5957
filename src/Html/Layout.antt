-- ===== src/Html/Layout.antt =====
-- The end of html_strip_to_plain: runs of newlines cut to two, and white space trimmed at both ends.
use mathlib.Core.Path.{subst}
use weechat_xmpp_improved.Prelude.{
  min, ◌≢◌, ◌⊎◌, inl, inr, if-cases, leb→le, sym, ℕ, suc, ◌≤◌, ◌≡◌, refl, Bool, true, false, ◌||◌,
  [], ◌∷◌, Bytes, leb, ◌==◌, if◌then◌else◌, arith,
}

-- `nl_count` newlines stand in front.
unfoldable pub collapse : ℕ → Bytes → Bytes
collapse nl_count [] = []
collapse nl_count (c ∷ s) =
    let next = collapse (suc nl_count) s in
    let other = collapse 0 s in
    if c == b'\n' then (if leb (suc nl_count) 2 then c ∷ next else next) else c ∷ other

unfoldable pub is_blank : ℕ → Bool
is_blank c = c == b' ' || c == b'\t' || c == b'\n' || c == b'\r'

-- find_first_not_of: the text from there.
unfoldable pub trim_front : Bytes → Bytes
trim_front [] = []
trim_front (c ∷ s) = let rest = trim_front s in if is_blank c then rest else c ∷ s

-- find_last_not_of: the text up to there.
unfoldable pub trim_back : Bytes → Bytes
trim_back [] = []
trim_back (c ∷ s) = elim (trim_back s) [
  | [] ↦ if is_blank c then [] else c ∷ []
  | d ∷ rest ↦ c ∷ d ∷ rest
]

unfoldable pub tidy : Bytes → Bytes
tidy out = trim_back (trim_front (collapse 0 out))

-- After `k` newlines no run of newlines becomes longer than two.
abbrev pub Calm : ℕ → Bytes → Type 0
Calm k [] = Unit {0}
Calm k (c ∷ s) = ((c ≡ b'\n') × (suc k ≤ 2) × Calm (suc k) s) ⊎ ((c ≢ b'\n') × Calm 0 s)

abbrev pub StartsInk : Bytes → Type 0
StartsInk [] = Unit {0}
StartsInk (c ∷ s) = is_blank c ≡ false

abbrev pub EndsInk : Bytes → Type 0
EndsInk [] = Unit {0}
EndsInk (c ∷ []) = is_blank c ≡ false
EndsInk (c ∷ d ∷ s) = EndsInk (d ∷ s)

-- No white space at the ends, and at most one empty line in a row.
pub record IsTidy (s : Bytes) : Type 0 where
  pub starts : StartsInk s
  pub ends : EndsInk s
  pub calm : Calm 0 s

Calm-shorter : (j k : ℕ) (s : Bytes) → j ≤ k → Calm k s → Calm j s
Calm-shorter j k [] h p = tt
Calm-shorter j k (c ∷ s) h (inl (e, le, p)) =
    inl (e, omega arith, Calm-shorter (suc j) (suc k) s (omega arith) p)
Calm-shorter j k (c ∷ s) h (inr p) = inr p

collapse-Calm : (n : ℕ) (s : Bytes) → Calm (min n 2) (collapse n s)
unfolding collapse
collapse-Calm n [] = tt
collapse-Calm n (c ∷ s) =
    if-cases (Calm (min n 2)) (c == b'\n') _ _
      (λ newline.
        if-cases (Calm (min n 2)) (leb (suc n) 2) _ _
          (λ few. inl (
            ground arith,
            omega (arith, leb→le (suc n) 2 few),
            Calm-shorter (suc (min n 2)) (min (suc n) 2) (collapse (suc n) s)
                (omega (arith, leb→le (suc n) 2 few)) (collapse-Calm (suc n) s),
          ))
          (λ many.
            Calm-shorter (min n 2) (min (suc n) 2) (collapse (suc n) s) (omega arith)
              (collapse-Calm (suc n) s)))
      (λ other. inr (ground arith, collapse-Calm 0 s))

Calm-rest : (k c : ℕ) (s : Bytes) → Calm k (c ∷ s) → Calm 0 s
Calm-rest k c s (inl (e, le, p)) = Calm-shorter 0 (suc k) s (omega arith) p
Calm-rest k c s (inr p) = p.1

trim_front-Calm : (k : ℕ) (s : Bytes) → Calm k s → Calm 0 (trim_front s)
unfolding trim_front
trim_front-Calm k [] p = tt
trim_front-Calm k (c ∷ s) p =
    if-cases (Calm 0) (is_blank c) _ _ (λ blank. trim_front-Calm 0 s (Calm-rest k c s p))
      (λ ink. Calm-shorter 0 k (c ∷ s) (omega arith) p)

trim_front-StartsInk : (s : Bytes) → StartsInk (trim_front s)
unfolding trim_front
trim_front-StartsInk [] = tt
trim_front-StartsInk (c ∷ s) =
    if-cases StartsInk (is_blank c) _ _ (λ blank. trim_front-StartsInk s) (λ ink. ink)

-- What trimming at the end leaves of a text.
trim_back-cons :
    (c : ℕ) (s : Bytes)
    → (trim_back (c ∷ s) ≡ c ∷ trim_back s) ⊎ ((trim_back (c ∷ s) ≡ []) × (is_blank c ≡ true))
unfolding trim_back
trim_back-cons c s = go (trim_back s) refl
  where
    go :
        (t : Bytes)
        → trim_back s ≡ t
        → (trim_back (c ∷ s) ≡ c ∷ trim_back s) ⊎ ((trim_back (c ∷ s) ≡ []) × (is_blank c ≡ true))
    go [] e = ground arith
    go (d ∷ rest) e = inl (ground arith)

Calm-cons :
    (k c : ℕ) (s t : Bytes) → ((j : ℕ) → Calm j s → Calm j t) → Calm k (c ∷ s) → Calm k (c ∷ t)
Calm-cons k c s t h (inl (e, le, q)) = inl (e, le, h (suc k) q)
Calm-cons k c s t h (inr (e, q)) = inr (e, h 0 q)

trim_back-Calm : (k : ℕ) (s : Bytes) → Calm k s → Calm k (trim_back s)
trim_back-Calm k [] p = unfold trim_back in tt
trim_back-Calm k (c ∷ s) p = elim (trim_back-cons c s) [
  | inl e ↦ subst (Calm k) (sym e) (Calm-cons k c s (trim_back s) (λ j q. trim_back-Calm j s q) p)
  | inr (e, blank) ↦ subst (Calm k) (sym e) tt
]

trim_back-StartsInk : (s : Bytes) → StartsInk s → StartsInk (trim_back s)
trim_back-StartsInk [] p = unfold trim_back in tt
trim_back-StartsInk (c ∷ s) p = elim (trim_back-cons c s) [
  | inl e ↦ subst StartsInk (sym e) p
  | inr (e, blank) ↦ subst StartsInk (sym e) tt
]

trim_back-EndsInk : (s : Bytes) → EndsInk (trim_back s)
unfolding trim_back
trim_back-EndsInk [] = tt
trim_back-EndsInk (c ∷ s) = go (trim_back s) (trim_back-EndsInk s)
  where
    go :
        (t : Bytes)
        → EndsInk t
        → EndsInk (elim t [ [] ↦ if is_blank c then [] else c ∷ [] | d ∷ rest ↦ c ∷ d ∷ rest ])
    go [] p = if-cases EndsInk (is_blank c) [] (c ∷ []) (λ blank. tt) (λ ink. ink)
    go (d ∷ rest) p = p

pub tidy-IsTidy : (s : Bytes) → IsTidy (tidy s)
unfolding tidy
tidy-IsTidy s =
    let front = trim_front (collapse 0 s) in
    record {
      starts = trim_back-StartsInk front (trim_front-StartsInk (collapse 0 s));
      ends = trim_back-EndsInk front;
      calm = trim_back-Calm 0 front (trim_front-Calm 0 (collapse 0 s) (collapse-Calm 0 s));
    }
