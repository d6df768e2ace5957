-- ===== src/Markdown/Spans.antt =====
-- apply_inline of apply_markdown_to_weechat (src/util.cpp): the spans within a line.
use weechat_xmpp_improved.Prelude.{
  ℕ, zero, suc, ◌-◌, Bool, true, false, not, ◌&&◌, ◌||◌, Option, none, some, [], ◌∷◌, ◌++◌, String,
  Bytes, codes, is_space, is_punct, cut_at, ◌==◌, if◌then◌else◌, length,
}

-- The text in front of two markers in a row, and the text behind them.
unfoldable pub cut_at_two : ℕ → Bytes → Option (Bytes × Bytes)
cut_at_two m [] = none
cut_at_two m (a ∷ []) = none
cut_at_two m (a ∷ b ∷ s) =
    let later = cut_at_two m (b ∷ s) in
    if a == m && b == m
    then some ([], s)
    else elim later [ none ↦ none | some (before, behind) ↦ some (a ∷ before, behind) ]

-- "](", the text up to the ")" and what is behind it, from the end of a bracket on.
unfoldable pub target : Bytes → Option (Bytes × Bytes)
target [] = none
target (c ∷ s) = if c == b'(' then cut_at b')' s else none

-- The text in the bracket, the target and what is behind it.
unfoldable pub bracket : Bytes → Option (Bytes × Bytes × Bytes)
unfolding target
bracket s = elim (cut_at b']' s) [
  | none ↦ none
  | some (label, t) ↦ elim (target t) [ none ↦ none | some (url, rest) ↦ some (label, url, rest) ]
]

abbrev pub is_marker : ℕ → Bool
is_marker c = c == b'*' || c == b'_'

-- A place where italic text may start or end: the edge of the line, white space or punctuation.
unfoldable pub is_edge : Option ℕ → Bool
is_edge none = true
is_edge (some c) = is_space c || is_punct c

abbrev pub head? : Bytes → Option ℕ
head? [] = none
head? (c ∷ s) = some c

abbrev pub last_or : ℕ → Bytes → ℕ
last_or c [] = c
last_or c (d ∷ s) = last_or d s

unfoldable pub or_else {ℓ} : {A : Type ℓ} → Option A → Option A → Option A
or_else none b = b
or_else (some a) b = some a

pub starts_tick : Bytes → Bool
starts_tick [] = false
starts_tick (d ∷ s) = d == b'`'

-- The end of italic text: no space in front of the marker, and an edge behind it.
unfoldable pub italic_end : ℕ → Option (Bytes × Bytes) → Option (Bytes × Bytes)
italic_end c none = none
italic_end c (some (inner, rest)) =
    if not (is_space (last_or c inner)) && is_edge (head? rest) then some (inner, rest) else none

module _ (color : String → Bytes) where
  -- A span at a character: what is put out for it, and what is behind it.
  unfoldable pub image_at : ℕ → Bytes → Option (Bytes × Bytes)
  image_at c [] = none
  image_at c (d ∷ s) =
      if c == b'!' && d == b'['
      then elim (bracket s) [
        | none ↦ none
        | some ([], url, rest) ↦
            some (color "darkgray" ++ (codes "[Image]" ++ color "resetcolor"), rest)
        | some (a ∷ alt, url, rest) ↦ some (
          color "darkgray"
              ++ (codes "[Image: " ++ ((a ∷ alt) ++ (codes "]" ++ color "resetcolor"))),
          rest,
        )
      ]
      else none

  unfoldable pub link_at : ℕ → Bytes → Option (Bytes × Bytes)
  link_at c s =
      if c == b'['
      then elim (bracket s) [
        | none ↦ none
        | some (label, url, rest) ↦ some (
          label ++ (codes " (" ++ (color "blue" ++ (url ++ (color "resetcolor" ++ codes ")")))),
          rest,
        )
      ]
      else none

  unfoldable pub enclosed : String → String → Option (Bytes × Bytes) → Option (Bytes × Bytes)
  enclosed on off none = none
  enclosed on off (some (inner, rest)) = some (color on ++ (inner ++ color off), rest)

  unfoldable pub bold_at : ℕ → Bytes → Option (Bytes × Bytes)
  bold_at c [] = none
  bold_at c (d ∷ s) =
      if is_marker c && d == c then enclosed "bold" "-bold" (cut_at_two c s) else none

  unfoldable pub strike_at : ℕ → Bytes → Option (Bytes × Bytes)
  strike_at c [] = none
  strike_at c (d ∷ s) =
      if c == b'~' && d == b'~' then enclosed "darkgray" "resetcolor" (cut_at_two b'~' s) else none

  unfoldable pub code_at : ℕ → Bytes → Option (Bytes × Bytes)
  unfolding starts_tick
  code_at c s =
      if c == b'`' && not (starts_tick s)
      then enclosed "gray" "resetcolor" (cut_at b'`' s)
      else none

  unfoldable pub italic_at : Option ℕ → ℕ → Bytes → Option (Bytes × Bytes)
  unfolding italic_end
  italic_at prev c [] = none
  italic_at prev c (d ∷ s) =
      if is_marker c && is_edge prev && not (is_space d)
      then enclosed "italic" "-italic" (italic_end c (cut_at c (d ∷ s)))
      else none

  unfoldable pub span_at : Option ℕ → ℕ → Bytes → Option (Bytes × Bytes)
  unfolding or_else image_at link_at bold_at strike_at code_at italic_at
  span_at prev c s = or_else (image_at c s) (
      or_else (link_at c s) (
        or_else (bold_at c s)
          (or_else (strike_at c s) (or_else (code_at c s) (italic_at prev c s)))))

  -- The loop of apply_inline: the character in front, and how many are still of the last span.
  unfoldable pub inline : Option ℕ → ℕ → Bytes → Bytes
  inline prev skip [] = []
  inline prev (suc skip) (c ∷ s) = inline (some c) skip s
  inline prev zero (c ∷ s) = elim (span_at prev c s) [
    | none ↦ c ∷ inline (some c) 0 s
    | some (shown, rest) ↦ shown ++ inline (some c) (length s - length rest) s
  ]

  unfoldable pub apply_inline : Bytes → Bytes
  apply_inline s = inline none 0 s
