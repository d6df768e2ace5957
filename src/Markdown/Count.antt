-- ===== src/Markdown/Count.antt =====
-- The line ends of a text and of what apply_markdown_to_weechat (src/util.cpp) makes of it.
use weechat_xmpp_improved.Prelude.{
  ℕ, suc, ◌+◌, ◌<◌, ◌≡◌, ◌⊎◌, refl, ap, ◌∙◌, Bool, true, false, not, List, [], ◌∷◌, ◌++◌, String,
  Bytes, ◌==◌, if◌then◌else◌, if-cases, length, All, Bool-cases, inl, inr, arith,
}
use weechat_xmpp_improved.Markdown.Blocks.{
  lines, is_fence, show_fence, show_line, show_lines, ends_line, pop_back, trim_end,
  apply_markdown_to_weechat,
}
use weechat_xmpp_improved.Markdown.OneLine.{IsOneLine}
use weechat_xmpp_improved.Markdown.Shown.{show_fence-IsOneLine, show_line-IsOneLine}

-- The number of line ends.
pub line_ends : Bytes → ℕ
line_ends [] = 0
line_ends (c ∷ s) = let later = line_ends s in if c == b'\n' then later + 1 else later

pub line_ends_one : (s : Bytes) → IsOneLine s → line_ends s ≡ 0
unfolding line_ends
line_ends_one [] h = refl
line_ends_one (c ∷ s) (hc, h) = rw hc (line_ends_one s h)

pub line_ends-append : (a b : Bytes) → line_ends (a ++ b) ≡ line_ends a + line_ends b
unfolding line_ends
line_ends-append [] b = omega arith
line_ends-append (c ∷ a) b = ground (arith, line_ends-append a b)

lines-IsOneLine : (s : Bytes) → All IsOneLine (lines s)
unfolding lines
lines-IsOneLine [] = tt
lines-IsOneLine (c ∷ s) = elim (Bool-cases (c == b'\n')) [
  | inl e ↦ rw e ((tt, lines-IsOneLine s))
  | inr e ↦ rw e (go (lines s) (lines-IsOneLine s) e)
]
  where
    go :
        (more : List Bytes)
        → All IsOneLine more
        → (c == b'\n') ≡ false
        → All IsOneLine (elim more [ [] ↦ (c ∷ []) ∷ [] | line ∷ rest ↦ (c ∷ line) ∷ rest ])
    go [] h e = ((e, tt), tt)
    go (line ∷ rest) (hl, h) e = ((e, hl), h)

lines_pos : (c : ℕ) (s : Bytes) → 0 < length (lines (c ∷ s))
unfolding lines
lines_pos c s =
    if-cases (λ l. 0 < length l) (c == b'\n') ([] ∷ lines s) _ (λ e. omega arith)
      (λ e. go (lines s))
  where
    go :
        (more : List Bytes)
        → 0
          < length (elim more as (λ _. List Bytes) [
            | [] ↦ (c ∷ []) ∷ []
            | line ∷ rest ↦ (c ∷ line) ∷ rest
          ])
    go [] = omega arith
    go (line ∷ rest) = omega arith

-- 1 for a text whose last line has no end.
open_line : Bytes → ℕ
open_line s = if ends_line s then 0 else 1

lines_end : (c : ℕ) (s : Bytes) → (c == b'\n') ≡ true → lines (c ∷ s) ≡ [] ∷ lines s
unfolding lines
lines_end c s e = rw e refl

length-lines_other :
    (c : ℕ) (s : Bytes)
    → (c == b'\n') ≡ false
    → 0 < length (lines s)
    → length (lines (c ∷ s)) ≡ length (lines s)
unfolding lines
length-lines_other c s e pos = rw e (go (lines s) pos)
  where
    go :
        (more : List Bytes)
        → 0 < length more
        → length (elim more as (λ _. List Bytes) [
          | [] ↦ (c ∷ []) ∷ []
          | line ∷ rest ↦ (c ∷ line) ∷ rest
        ])
          ≡ length more
    go [] h = absurd (omega arith)
    go (line ∷ rest) h = refl

line_ends_end : (c : ℕ) (s : Bytes) → (c == b'\n') ≡ true → line_ends (c ∷ s) ≡ line_ends s + 1
unfolding line_ends
line_ends_end c s e = rw e refl

line_ends_other : (c : ℕ) (s : Bytes) → (c == b'\n') ≡ false → line_ends (c ∷ s) ≡ line_ends s
unfolding line_ends
line_ends_other c s e = rw e refl

open_line_cons : (c d : ℕ) (s : Bytes) → open_line (c ∷ d ∷ s) ≡ open_line (d ∷ s)
unfolding open_line ends_line
open_line_cons c d s = refl

length-lines : (c : ℕ) (s : Bytes) → length (lines (c ∷ s)) ≡ line_ends (c ∷ s) + open_line (c ∷ s)
length-lines c [] = unfold lines line_ends open_line ends_line in ground arith
length-lines c (d ∷ s) = elim (Bool-cases (c == b'\n')) [
  | inl e ↦ omega (
    arith,
    ap length (lines_end c (d ∷ s) e),
    line_ends_end c (d ∷ s) e,
    open_line_cons c d s,
    length-lines d s,
  )
  | inr e ↦ omega (
    arith,
    length-lines_other c (d ∷ s) e (lines_pos d s),
    line_ends_other c (d ∷ s) e,
    open_line_cons c d s,
    length-lines d s,
  )
]

pop_back_ends : (s : Bytes) → ends_line s ≡ true → line_ends (pop_back s) + 1 ≡ line_ends s
unfolding ends_line pop_back line_ends
pop_back_ends [] h = cc
pop_back_ends (c ∷ []) h = rw h refl
pop_back_ends (c ∷ d ∷ s) h = ground (arith, pop_back_ends (d ∷ s) h)

ends_line-append : (a b : Bytes) (c : ℕ) → ends_line (a ++ (c ∷ b)) ≡ ends_line (c ∷ b)
unfolding ends_line
ends_line-append [] b c = refl
ends_line-append (x ∷ []) b c = refl
ends_line-append (x ∷ y ∷ a) b c = ends_line-append (y ∷ a) b c

module _ (color : String → Bytes) (plain : (name : String) → IsOneLine (color name)) where
  -- What one line adds: itself and a line end.
  one_more :
      (shown rest : Bytes) (n : ℕ)
      → IsOneLine shown
      → line_ends rest ≡ n
      → line_ends (shown ++ (b'\n' ∷ rest)) ≡ suc n
  one_more shown rest n one e = omega (
    arith,
    line_ends-append shown (b'\n' ∷ rest),
    line_ends_one shown one,
    line_ends_end b'\n' rest refl,
    e,
  )

  show_lines-length :
      (b : Bool) (ls : List Bytes)
      → All IsOneLine ls
      → line_ends (show_lines color b ls) ≡ length ls
  unfolding show_lines
  show_lines-length b [] h = unfold line_ends in refl
  show_lines-length b (l ∷ ls) (hl, h) = elim (Bool-cases (is_fence l)) [
    | inl e ↦
        rw (e, show_lines)
          (one_more (show_fence color b l) (show_lines color (not b) ls) (length ls)
            (show_fence-IsOneLine color plain b l hl) (show_lines-length (not b) ls h))
    | inr e ↦
        rw (e, show_lines)
          (one_more (if b then l else show_line color l) (show_lines color b ls) (length ls)
            (if-cases IsOneLine b l (show_line color l) (λ q. hl)
              (λ q. show_line-IsOneLine color plain l hl))
            (show_lines-length b ls h))
  ]

  ends_line-cons :
      (rest : Bytes) → (rest ≡ []) ⊎ (ends_line rest ≡ true) → ends_line (b'\n' ∷ rest) ≡ true
  unfolding ends_line
  ends_line-cons [] h = refl
  ends_line-cons (c ∷ rest) (inl e) = cc
  ends_line-cons (c ∷ rest) (inr e) = e

  ends_or_none :
      (b : Bool) (ls : List Bytes)
      → (show_lines color b ls ≡ []) ⊎ (ends_line (show_lines color b ls) ≡ true)
  unfolding show_lines
  ends_or_none b [] = inl refl
  ends_or_none b (l ∷ ls) = elim (Bool-cases (is_fence l)) [
    | inl e ↦ inr (
        rw (e, show_lines)
          (ends_line-append (show_fence color b l) (show_lines color (not b) ls) b'\n'
            ∙ ends_line-cons (show_lines color (not b) ls) (ends_or_none (not b) ls)))
    | inr e ↦ inr (
        rw (e, show_lines)
          (ends_line-append (if b then l else show_line color l) (show_lines color b ls) b'\n'
            ∙ ends_line-cons (show_lines color b ls) (ends_or_none b ls)))
  ]

  trim_end-count :
      (text result : Bytes) (n : ℕ)
      → (result ≡ []) ⊎ (ends_line result ≡ true)
      → line_ends result ≡ n + open_line text
      → line_ends (trim_end text result) ≡ n
  unfolding trim_end open_line ends_line line_ends
  trim_end-count text result n (inl e) count = rw e (omega (arith, rw e at count))
  trim_end-count text result n (inr e) count = elim (Bool-cases (ends_line text)) [
    | inl q ↦ rw (e, q) (omega (arith, rw q at count))
    | inr q ↦ rw (e, q) (omega (arith, pop_back_ends result e, rw q at count))
  ]

  -- If no colour code holds a line end, what is shown of a text has as many line ends as the text:
  -- each line of the text is one line of the output, and a line end at the end is kept or left out
  -- as it was.
  pub line_ends-apply_markdown_to_weechat :
      (text : Bytes) → line_ends (apply_markdown_to_weechat color text) ≡ line_ends text
  unfolding apply_markdown_to_weechat
  line_ends-apply_markdown_to_weechat [] = refl
  line_ends-apply_markdown_to_weechat (c ∷ s) =
      trim_end-count (c ∷ s) (show_lines color false (lines (c ∷ s))) (line_ends (c ∷ s))
        (ends_or_none false (lines (c ∷ s)))
        (show_lines-length false (lines (c ∷ s)) (lines-IsOneLine (c ∷ s)) ∙ length-lines c s)
