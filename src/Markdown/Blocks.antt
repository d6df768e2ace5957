-- ===== src/Markdown/Blocks.antt =====
-- apply_markdown_to_weechat (src/util.cpp), line by line. std::getline ends a line at '\n' and makes
-- no line of nothing behind the last one.
use weechat_xmpp_improved.Prelude.{
  ℕ, zero, suc, Bool, true, false, not, ◌&&◌, ◌||◌, Option, none, some, List, [], ◌∷◌, ◌++◌, String,
  Bytes, codes, is_digit, starts_with, ltb, leb, ◌==◌, if◌then◌else◌, length, drop,
}
use weechat_xmpp_improved.Markdown.Spans.{apply_inline}

unfoldable pub lines : Bytes → List Bytes
lines [] = []
lines (c ∷ s) =
    let more = lines s in
    if c == b'\n'
    then [] ∷ more
    else elim more [ [] ↦ (c ∷ []) ∷ [] | line ∷ rest ↦ (c ∷ line) ∷ rest ]

unfoldable pub is_blank : ℕ → Bool
is_blank c = c == b' ' || c == 9

unfoldable pub skip_blank : Bytes → Bytes
unfolding is_blank
skip_blank [] = []
skip_blank (c ∷ s) = let rest = skip_blank s in if is_blank c then rest else c ∷ s

unfoldable pub is_fence : Bytes → Bool
is_fence line = starts_with (codes "```") line

all_or_blank : ℕ → Bytes → Bool
all_or_blank c [] = true
all_or_blank c (d ∷ s) = (d == c || d == b' ') && all_or_blank c s

unfoldable pub is_rule : Bytes → Bool
unfolding all_or_blank
is_rule [] = false
is_rule (c ∷ s) =
    leb 2 (length s) && (c == b'-' || c == b'*' || c == b'_') && all_or_blank c (c ∷ s)

-- The number of '#' in front, and what is behind them.
unfoldable pub hashes : Bytes → ℕ × Bytes
hashes [] = (0, [])
hashes (c ∷ s) =
    let (n, rest) = hashes s in elim (c == b'#') [ true ↦ (suc n, rest) | false ↦ (0, c ∷ s) ]

unfoldable pub after_blank : Bytes → Option Bytes
after_blank [] = none
after_blank (c ∷ s) = if c == b' ' then some s else none

unfoldable pub heading : Bytes → Option Bytes
unfolding after_blank
heading line = let (n, rest) = hashes line in if leb 1 n && leb n 6 then after_blank rest else none

-- The text behind a '>', without one space if more follows it.
unfoldable pub quoted : Bytes → Option Bytes
quoted [] = none
quoted (c ∷ []) = if c == b'>' then some [] else none
quoted (c ∷ d ∷ s) =
    if c == b'>' && (d == b' ' || d == b'>')
    then some (if d == b' ' && ltb 0 (length s) then s else d ∷ s)
    else none

unfoldable pub bulleted : Bytes → Option Bytes
unfolding after_blank
bulleted [] = none
bulleted (c ∷ s) = if c == b'-' || c == b'*' then after_blank s else none

-- The digits in front, and what is behind them.
unfoldable pub digits : Bytes → Bytes × Bytes
digits [] = ([], [])
digits (c ∷ s) =
    let (ds, rest) = digits s in elim (is_digit c) [ true ↦ (c ∷ ds, rest) | false ↦ ([], c ∷ s) ]

unfoldable pub after_dot : Bytes → Option Bytes
unfolding after_blank
after_dot [] = none
after_dot (c ∷ s) = if c == b'.' then after_blank s else none

-- The number of an item and its text.
unfoldable pub numbered : Bytes → Option (Bytes × Bytes)
unfolding after_dot
numbered line =
    let (ds, rest) = digits line in
    elim ds [
      | [] ↦ none
      | d ∷ more ↦ elim (after_dot rest) [ none ↦ none | some text ↦ some (d ∷ more, text) ]
    ]

unfoldable pub repeated : ℕ → Bytes → Bytes
repeated zero s = []
repeated (suc n) s = s ++ repeated n s

module _ (color : String → Bytes) where
  -- The name of the language behind a fence.
  unfoldable pub language : String → Bytes → Bytes
  language after [] = []
  language after (c ∷ lang) =
      color "darkgray" ++ (codes "[" ++ ((c ∷ lang) ++ (codes "]" ++ color after)))

  -- A fence that opens a block or closes it.
  unfoldable pub show_fence : Bool → Bytes → Bytes
  unfolding language
  show_fence in_code_block line =
      let now = if in_code_block then "resetcolor" else "gray" in
      color now ++ language now (skip_blank (drop 3 line))

  unfoldable pub show_numbered : Bytes → Option (Bytes × Bytes) → Bytes
  show_numbered line none = apply_inline color line
  show_numbered line (some (number, text)) = number ++ (codes ". " ++ apply_inline color text)

  unfoldable pub show_bulleted : Bytes → Option Bytes → Bytes
  show_bulleted line none = show_numbered line (numbered line)
  show_bulleted line (some text) = (226 ∷ 128 ∷ 162 ∷ 32 ∷ []) ++ apply_inline color text

  unfoldable pub show_quoted : Bytes → Option Bytes → Bytes
  show_quoted line none = show_bulleted line (bulleted line)
  show_quoted line (some inner) =
      color "green" ++ (codes "> " ++ (color "resetcolor" ++ apply_inline color inner))

  unfoldable pub show_heading : Bytes → Option Bytes → Bytes
  show_heading line none = show_quoted line (quoted line)
  show_heading line (some text) = color "bold" ++ (apply_inline color text ++ color "-bold")

  -- A line outside of code blocks.
  unfoldable pub show_line : Bytes → Bytes
  unfolding repeated
  show_line line =
      if is_rule line
      then color "darkgray" ++ (repeated 40 (226 ∷ 148 ∷ 128 ∷ []) ++ color "resetcolor")
      else show_heading line (heading line)

  -- The loop over the lines, each with a line end behind it.
  unfoldable pub show_lines : Bool → List Bytes → Bytes
  show_lines in_code_block [] = []
  show_lines in_code_block (line ∷ rest) = elim (is_fence line) [
    | true ↦ show_fence in_code_block line ++ (b'\n' ∷ show_lines (not in_code_block) rest)
    | false ↦
        (if in_code_block then line else show_line line) ++ (b'\n' ∷ show_lines in_code_block rest)
  ]

-- Whether the last character is a line end.
unfoldable pub ends_line : Bytes → Bool
ends_line [] = false
ends_line (c ∷ []) = c == b'\n'
ends_line (c ∷ d ∷ s) = ends_line (d ∷ s)

unfoldable pub pop_back : Bytes → Bytes
pop_back [] = []
pop_back (c ∷ []) = []
pop_back (c ∷ d ∷ s) = c ∷ pop_back (d ∷ s)

unfoldable pub trim_end : Bytes → Bytes → Bytes
trim_end text result = if ends_line result && not (ends_line text) then pop_back result else result

unfoldable pub apply_markdown_to_weechat : (String → Bytes) → Bytes → Bytes
unfolding trim_end
apply_markdown_to_weechat color [] = []
apply_markdown_to_weechat color (c ∷ s) = trim_end (c ∷ s) (show_lines color false (lines (c ∷ s)))
