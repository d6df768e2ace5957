-- ===== src/Markdown/OneLine.antt =====
-- Texts without a line end, and their parts.
use weechat_xmpp_improved.Prelude.{
  ℕ, ◌≡◌, Bool, true, false, not, ◌&&◌, Option, none, some, [], ◌∷◌, ◌++◌, Bytes, is_space, cut_at,
  ◌==◌, if-cases, All, All-append, arith,
}
use weechat_xmpp_improved.Markdown.Spans.{
  cut_at_two, target, bracket, is_edge, head?, last_or, italic_end,
}

abbrev pub IsOneLine : Bytes → Type 0
IsOneLine = All (λ c. (c == b'\n') ≡ false)

pub one-append : (a b : Bytes) → IsOneLine a → IsOneLine b → IsOneLine (a ++ b)
one-append = All-append (λ c. (c == b'\n') ≡ false)

abbrev pub is_one_line : Bytes → Bool
is_one_line [] = true
is_one_line (c ∷ s) = not (c == b'\n') && is_one_line s

-- By evaluation, for a literal.
pub one_line : (s : Bytes) → is_one_line s ≡ true → IsOneLine s
one_line [] h = tt
one_line (c ∷ s) h = (ground arith, one_line s (ground arith))

-- Both parts of a cut.
abbrev pub Parts : Option (Bytes × Bytes) → Type 0
Parts none = Unit {0}
Parts (some (a, b)) = IsOneLine a × IsOneLine b

pub cut_at-Parts : (m : ℕ) (s : Bytes) → IsOneLine s → Parts (cut_at m s)
unfolding cut_at
cut_at-Parts m [] h = tt
cut_at-Parts m (c ∷ s) (hc, h) =
    elim (c == m)
      as (λ b. Parts (elim b [
        | true ↦ some ([], s)
        | false ↦ elim (cut_at m s) [
          | none ↦ none
          | some (before, behind) ↦ some (c ∷ before, behind)
        ]
      ])) [ true ↦ (tt, h) | false ↦ cons (cut_at m s) (cut_at-Parts m s h) ]
  where
    cons :
        (o : Option (Bytes × Bytes))
        → Parts o
        → Parts (elim o [ none ↦ none | some (before, behind) ↦ some (c ∷ before, behind) ])
    cons none p = tt
    cons (some (a, b)) (pa, pb) = ((hc, pa), pb)

pub cut_at_two-Parts : (m : ℕ) (s : Bytes) → IsOneLine s → Parts (cut_at_two m s)
unfolding cut_at_two
cut_at_two-Parts m [] h = tt
cut_at_two-Parts m (a ∷ []) h = tt
cut_at_two-Parts m (a ∷ b ∷ s) (ha, (hb, h)) =
    if-cases Parts (a == m && b == m) (some ([], s)) _ (λ e. (tt, h))
      (λ e. cons (cut_at_two m (b ∷ s)) (cut_at_two-Parts m (b ∷ s) (hb, h)))
  where
    cons :
        (o : Option (Bytes × Bytes))
        → Parts o
        → Parts (elim o [ none ↦ none | some (before, behind) ↦ some (a ∷ before, behind) ])
    cons none p = tt
    cons (some (x, y)) (px, py) = ((ha, px), py)

target-Parts : (s : Bytes) → IsOneLine s → Parts (target s)
unfolding target
target-Parts [] h = tt
target-Parts (c ∷ s) (hc, h) =
    if-cases Parts (c == b'(') (cut_at b')' s) none (λ e. cut_at-Parts b')' s h) (λ e. tt)

abbrev pub Brackets : Option (Bytes × Bytes × Bytes) → Type 0
Brackets none = Unit {0}
Brackets (some (label, url, rest)) = IsOneLine label × IsOneLine url

pub bracket-Brackets : (s : Bytes) → IsOneLine s → Brackets (bracket s)
unfolding bracket
bracket-Brackets s h = go (cut_at b']' s) (cut_at-Parts b']' s h)
  where
    inner :
        (label : Bytes) (o : Option (Bytes × Bytes))
        → IsOneLine label
        → Parts o
        → Brackets (elim o [ none ↦ none | some (url, rest) ↦ some (label, url, rest) ])
    inner label none hl p = tt
    inner label (some (url, rest)) hl (pu, pr) = (hl, pu)

    go :
        (o : Option (Bytes × Bytes))
        → Parts o
        → Brackets (elim o [
          | none ↦ none
          | some (label, t) ↦ elim (target t) [
            | none ↦ none
            | some (url, rest) ↦ some (label, url, rest)
          ]
        ])
    go none p = tt
    go (some (label, t)) (pl, pt) = inner label (target t) pl (target-Parts t pt)

pub italic_end-Parts : (c : ℕ) (o : Option (Bytes × Bytes)) → Parts o → Parts (italic_end c o)
unfolding italic_end
italic_end-Parts c none p = tt
italic_end-Parts c (some (inner, rest)) p =
    if-cases Parts (not (is_space (last_or c inner)) && is_edge (head? rest)) (some (inner, rest))
      none (λ e. p) (λ e. tt)
