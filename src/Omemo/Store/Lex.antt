-- ===== src/Omemo/Store/Lex.antt =====
-- The order of keys by their bytes, sorted entries, and the keys with a prefix among them.
use weechat_xmpp_improved.Prelude.{
  starts_with, ◌≡◌, refl, Bool, true, false, not, ◌&&◌, ◌||◌, Option, none, some, List, [], ◌∷◌,
  Bytes, bytes_eq, bytes_eq_iff, ◌==◌, ltb, if◌then◌else◌, All, arith, Bool-cases, inl, inr,
}

unfoldable pub lt_lex : Bytes → Bytes → Bool
lt_lex [] [] = false
lt_lex [] (b ∷ y) = true
lt_lex (a ∷ x) [] = false
lt_lex (a ∷ x) (b ∷ y) = ltb a b || a == b && lt_lex x y

abbrev pub Sorted : List (Bytes × Bytes) → Type 0
Sorted [] = Unit
Sorted (e ∷ es) = All (λ f. lt_lex e.0 f.0 ≡ true) es × Sorted es

unfoldable pub lookup : Bytes → List (Bytes × Bytes) → Option Bytes
lookup k [] = none
lookup k ((j, v) ∷ es) = if bytes_eq j k then some v else lookup k es

unfoldable pub skip_below : Bytes → List (Bytes × Bytes) → List (Bytes × Bytes)
skip_below k [] = []
skip_below k ((j, v) ∷ es) = let rest = skip_below k es in if lt_lex j k then rest else (j, v) ∷ es

pub lt_lex_irrefl : (x : Bytes) → lt_lex x x ≡ false
unfolding lt_lex
lt_lex_irrefl [] = refl
lt_lex_irrefl (a ∷ x) = ground (arith, lt_lex_irrefl x)

pub lt_lex_trans : (x y z : Bytes) → lt_lex x y ≡ true → lt_lex y z ≡ true → lt_lex x z ≡ true
unfolding lt_lex
lt_lex_trans (a ∷ x) (b ∷ y) (c ∷ z) h k = ground (arith, lt_lex_trans x y z)
lt_lex_trans _ _ _ h k = ground arith

pub lt_lex_total : (x y : Bytes) → lt_lex x y ≡ false → lt_lex y x ≡ false → bytes_eq x y ≡ true
unfolding lt_lex
lt_lex_total (a ∷ x) (b ∷ y) h k = ground (arith, lt_lex_total x y)
lt_lex_total _ _ h k = ground arith

pub starts_with-lt_lex : (p k : Bytes) → starts_with p k ≡ true → lt_lex k p ≡ false
unfolding lt_lex starts_with
starts_with-lt_lex (a ∷ p) (c ∷ k) h = ground (arith, starts_with-lt_lex p k)
starts_with-lt_lex [] [] h = refl
starts_with-lt_lex [] (c ∷ k) h = refl
starts_with-lt_lex (a ∷ p) [] h = cc

-- Behind a key that is past the prefix no key has it.
pub starts_with_past :
    (p x y : Bytes)
    → lt_lex x p ≡ false
    → starts_with p x ≡ false
    → lt_lex x y ≡ true
    → starts_with p y ≡ false
unfolding lt_lex starts_with
starts_with_past (a ∷ p) (b ∷ x) (c ∷ y) h k l = ground (arith, starts_with_past p x y)
starts_with_past (a ∷ p) (b ∷ x) [] h k l = refl
starts_with_past (a ∷ p) [] y h k l = cc
starts_with_past [] x y h k l = cc

-- A value that some entry with the prefix has.
unfoldable pub any_with : (Bytes → Bool) → Bytes → List (Bytes × Bytes) → Bool
any_with test p [] = false
any_with test p ((k, v) ∷ es) = starts_with p k && test v || any_with test p es

-- The loop over a cursor that stops at the first key without the prefix.
unfoldable pub scan : (Bytes → Bool) → Bytes → List (Bytes × Bytes) → Bool
scan test p [] = false
scan test p ((k, v) ∷ es) =
    let rest = scan test p es in
    if not (starts_with p k) then false else if test v then true else rest

any_with_past :
    (test : Bytes → Bool) (p x : Bytes) (es : List (Bytes × Bytes))
    → lt_lex x p ≡ false
    → starts_with p x ≡ false
    → All (λ f. lt_lex x f.0 ≡ true) es
    → any_with test p es ≡ false
unfolding any_with
any_with_past test p x [] h k l = refl
any_with_past test p x ((j, v) ∷ es) h k (lj, l) =
    ground (arith, starts_with_past p x j h k lj, any_with_past test p x es h k l)

scan-any_with :
    (test : Bytes → Bool) (p : Bytes) (es : List (Bytes × Bytes))
    → All (λ f. lt_lex f.0 p ≡ false) es
    → Sorted es
    → scan test p es ≡ any_with test p es
unfolding scan any_with
scan-any_with test p [] h s = refl
scan-any_with test p ((k, v) ∷ es) (hk, h) (lk, s) = elim (Bool-cases (starts_with p k)) [
  | inl e ↦ ground (arith, scan-any_with test p es h s)
  | inr e ↦ ground (arith, any_with_past test p k es hk e lk)
]

not_below :
    (p k : Bytes) (es : List (Bytes × Bytes))
    → lt_lex k p ≡ false
    → All (λ f. lt_lex k f.0 ≡ true) es
    → All (λ f. lt_lex f.0 p ≡ false) es
not_below p k [] h l = tt
not_below p k ((j, v) ∷ es) h (lj, l) = (below j lj, not_below p k es h l)
  where
    below : (j : Bytes) → lt_lex k j ≡ true → lt_lex j p ≡ false
    below j lj = elim (Bool-cases (lt_lex j p)) [
      | inl e ↦ ground (arith, lt_lex_trans k j p lj e)
      | inr e ↦ e
    ]

-- On sorted entries the loop from the first key not below the prefix finds what any entry with
-- the prefix has.
pub scan-skip_below :
    (test : Bytes → Bool) (p : Bytes) (es : List (Bytes × Bytes))
    → Sorted es
    → scan test p (skip_below p es) ≡ any_with test p es
unfolding skip_below any_with
scan-skip_below test p [] s = unfold scan in refl
scan-skip_below test p ((k, v) ∷ es) (lk, s) = elim (Bool-cases (lt_lex k p)) [
  | inl e ↦ ground (arith, scan-skip_below test p es s, starts_with-lt_lex p k)
  | inr e ↦
      ground
        (arith, scan-any_with test p ((k, v) ∷ es) (e, not_below p k es e lk) (lk, s), any_with)
]

pub any_with-lookup :
    (test : Bytes → Bool) (p k v : Bytes) (es : List (Bytes × Bytes))
    → lookup k es ≡ some v
    → starts_with p k ≡ true
    → test v ≡ true
    → any_with test p es ≡ true
unfolding any_with lookup
any_with-lookup test p k v [] e h t = cc
any_with-lookup test p k v ((j, w) ∷ es) e h t =
    ground (arith, bytes_eq_iff j k, any_with-lookup test p k v es)

pub lookup_above :
    (x k v : Bytes) (es : List (Bytes × Bytes))
    → All (λ f. lt_lex x f.0 ≡ true) es
    → lookup k es ≡ some v
    → bytes_eq x k ≡ false
unfolding lookup
lookup_above x k v [] l e = cc
lookup_above x k v ((j, w) ∷ es) (lj, l) e =
    ground (arith, bytes_eq_iff j k, bytes_eq_iff x k, lt_lex_irrefl x, lookup_above x k v es l)

-- An entry with the prefix and the value is there to look up.
pub lookup-any_with :
    (test : Bytes → Bool) (p : Bytes) (es : List (Bytes × Bytes))
    → Sorted es
    → any_with test p es ≡ true
    → (k : Bytes) × (v : Bytes) × (lookup k es ≡ some v)
      × (starts_with p k ≡ true)
      × (test v ≡ true)
unfolding any_with lookup
lookup-any_with test p [] s h = cc
lookup-any_with test p ((j, w) ∷ es) (lj, s) h = elim (Bool-cases (starts_with p j && test w)) [
  | inl e ↦ (j, w, ground (arith, bytes_eq_iff j j), ground arith, ground arith)
  | inr e ↦
      let (k, v, found, pre, t) = lookup-any_with test p es s (ground arith) in
      (k, v, ground (arith, lookup_above j k v es lj found), pre, t)
]
