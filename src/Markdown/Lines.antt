-- ===== src/Markdown/Lines.antt =====
-- The parts of a line that apply_markdown_to_weechat (src/util.cpp) looks for, and line ends.
use weechat_xmpp_improved.Prelude.{
  ℕ, suc, true, false, ◌&&◌, ◌||◌, Option, none, some, [], ◌∷◌, Bytes, is_digit, ltb, leb, ◌==◌,
  if◌then◌else◌, if-cases, length,
}
use weechat_xmpp_improved.Markdown.Blocks.{
  hashes, after_blank, heading, quoted, bulleted, digits, after_dot, numbered,
}
use weechat_xmpp_improved.Markdown.OneLine.{IsOneLine}

abbrev pub Text? : Option Bytes → Type 0
Text? none = Unit {0}
Text? (some s) = IsOneLine s

after_blank-Text? : (s : Bytes) → IsOneLine s → Text? (after_blank s)
unfolding after_blank
after_blank-Text? [] h = tt
after_blank-Text? (c ∷ s) (hc, h) = if-cases Text? (c == b' ') (some s) none (λ e. h) (λ e. tt)

hashes-IsOneLine : (s : Bytes) → IsOneLine s → IsOneLine (hashes s).1
unfolding hashes
hashes-IsOneLine [] h = tt
hashes-IsOneLine (c ∷ s) (hc, h) =
    elim (c == b'#')
      as (λ b.
        IsOneLine
          (elim b as (λ _. ℕ × Bytes) [
            | true ↦ (suc (hashes s).0, (hashes s).1)
            | false ↦ (0, c ∷ s)
          ]).1) [ true ↦ hashes-IsOneLine s h | false ↦ (hc, h) ]

pub heading-Text? : (s : Bytes) → IsOneLine s → Text? (heading s)
unfolding heading
heading-Text? s h =
    if-cases Text? (leb 1 (hashes s).0 && leb (hashes s).0 6) (after_blank (hashes s).1) none
      (λ e. after_blank-Text? (hashes s).1 (hashes-IsOneLine s h)) (λ e. tt)

pub quoted-Text? : (s : Bytes) → IsOneLine s → Text? (quoted s)
unfolding quoted
quoted-Text? [] h = tt
quoted-Text? (c ∷ []) h = if-cases Text? (c == b'>') (some []) none (λ e. tt) (λ e. tt)
quoted-Text? (c ∷ d ∷ s) (hc, (hd, h)) =
    if-cases Text? (c == b'>' && (d == b' ' || d == b'>'))
      (some (if d == b' ' && ltb 0 (length s) then s else d ∷ s)) none
      (λ e. if-cases IsOneLine (d == b' ' && ltb 0 (length s)) s (d ∷ s) (λ q. h) (λ q. (hd, h)))
      (λ e. tt)

pub bulleted-Text? : (s : Bytes) → IsOneLine s → Text? (bulleted s)
unfolding bulleted
bulleted-Text? [] h = tt
bulleted-Text? (c ∷ s) (hc, h) =
    if-cases Text? (c == b'-' || c == b'*') (after_blank s) none (λ e. after_blank-Text? s h)
      (λ e. tt)

digits-IsOneLine : (s : Bytes) → IsOneLine s → IsOneLine (digits s).0 × IsOneLine (digits s).1
unfolding digits
digits-IsOneLine [] h = (tt, tt)
digits-IsOneLine (c ∷ s) (hc, h) =
    let (a, b) = digits-IsOneLine s h in
    elim (is_digit c)
      as (λ t.
        IsOneLine
          (elim t as (λ _. Bytes × Bytes) [
            | true ↦ (c ∷ (digits s).0, (digits s).1)
            | false ↦ ([], c ∷ s)
          ]).0
        × IsOneLine
            (elim t as (λ _. Bytes × Bytes) [
              | true ↦ (c ∷ (digits s).0, (digits s).1)
              | false ↦ ([], c ∷ s)
            ]).1) [ true ↦ ((hc, a), b) | false ↦ (tt, (hc, h)) ]

after_dot-Text? : (s : Bytes) → IsOneLine s → Text? (after_dot s)
unfolding after_dot
after_dot-Text? [] h = tt
after_dot-Text? (c ∷ s) (hc, h) =
    if-cases Text? (c == b'.') (after_blank s) none (λ e. after_blank-Text? s h) (λ e. tt)

abbrev pub Item? : Option (Bytes × Bytes) → Type 0
Item? none = Unit {0}
Item? (some (number, text)) = IsOneLine number × IsOneLine text

pub numbered-Item? : (s : Bytes) → IsOneLine s → Item? (numbered s)
unfolding numbered
numbered-Item? s h =
    let (a, b) = digits-IsOneLine s h in
    go (digits s).0 (after_dot (digits s).1) a (after_dot-Text? (digits s).1 b)
  where
    go :
        (ds : Bytes) (o : Option Bytes)
        → IsOneLine ds
        → Text? o
        → Item? (elim ds [
          | [] ↦ none
          | d ∷ more ↦ elim o [ none ↦ none | some text ↦ some (d ∷ more, text) ]
        ])
    go [] o a p = tt
    go (d ∷ more) none a p = tt
    go (d ∷ more) (some text) a p = (a, p)
