-- ===== src/Styling.antt =====
-- apply_xep393_styling (src/util.cpp): XEP-0393 message styling as WeeChat colour codes. The index
-- `i` into the text is the rest of the text from there and the character before it.
pub mod Relation
pub mod Sound
pub mod Plain
mod Tests
use weechat_xmpp_improved.Prelude.{
  ℕ, zero, suc, Bool, true, false, not, ◌&&◌, ◌||◌, Option, none, some, List, [], ◌∷◌, ◌++◌, String,
  Bytes, is_space, is_punct, length, ◌==◌, if◌then◌else◌,
}

-- "```" at the front: what follows it.
unfoldable pub fence : Bytes → Option Bytes
fence (a ∷ b ∷ c ∷ rest) = if a == b'`' && b == b'`' && c == b'`' then some rest else none
fence _ = none

-- The loops `while (i < length && text[i] != '\n')` and, with a marker, `text[end] != marker` too.
unfoldable pub until : (ℕ → Bool) → Bytes → Bytes × Bytes
until stop [] = ([], [])
until stop (c ∷ s) =
    let (read, rest) = until stop s in if stop c then ([], c ∷ s) else (c ∷ read, rest)

abbrev pub is_newline : ℕ → Bool
is_newline c = c == b'\n'

abbrev pub ends_span : ℕ → ℕ → Bool
ends_span marker c = c == marker || c == b'\n'

-- The end of the text, or a character that passes.
abbrev pub end_or : (ℕ → Bool) → Bytes → Bool
end_or p [] = true
end_or p (c ∷ _) = p c

abbrev pub start_or : (ℕ → Bool) → Option ℕ → Bool
start_or p none = true
start_or p (some c) = p c

abbrev pub is_boundary : ℕ → Bool
is_boundary c = is_space c || is_punct c

-- `text[i] == '>'` at the start of a line, before a space or the end of the text.
unfoldable pub starts_quote : Option ℕ → ℕ → Bytes → Bool
starts_quote prev c rest = start_or is_newline prev && c == b'>' && end_or (λ d. d == b' ') rest

-- The codes that open and close a span of this marker, and whether it must hold a character.
pub record Style : Type 0 where
  pub opening : String
  pub closing : String
  pub needs_inner : Bool

unfoldable pub style_of : ℕ → Option Style
style_of ch =
    if ch == b'*'
    then some (record { opening = "bold"; closing = "-bold"; needs_inner = false })
    else if ch == b'_'
    then some (record { opening = "underline"; closing = "-underline"; needs_inner = false })
    else if ch == b'`'
    then some (record { opening = "gray"; closing = "resetcolor"; needs_inner = false })
    else if ch == b'~'
    then some (record { opening = "red"; closing = "resetcolor"; needs_inner = true })
    else none

-- The character at `end - 1`: the last one of the span, or its opening marker.
abbrev pub last_of : ℕ → Bytes → ℕ
last_of c [] = c
last_of c (d ∷ s) = last_of d s

abbrev pub is_empty : Bytes → Bool
is_empty [] = true
is_empty (c ∷ s) = false

-- `tail` is the text from `end` on: what follows the closing marker, if the span may close there.
unfoldable pub closes : ℕ → Style → Bytes → Bytes → Option Bytes
closes marker st inner [] = none
closes marker st inner (m ∷ after) =
    if m == marker
      && not (st.needs_inner && is_empty inner)
      && not (is_space (last_of marker inner))
      && end_or is_boundary after
    then some after
    else none

pub record Span : Type 0 where
  pub style : Style
  pub inner : Bytes
  pub after : Bytes

found : Style → Bytes → Option Bytes → Option Span
found st inner none = none
found st inner (some after) = some (record { style = st; inner = inner; after = after })

-- A span that starts with `ch`, in front of `rest`.
unfoldable pub span_at : ℕ → Bytes → Option Span
unfolding found
span_at ch rest = elim (style_of ch) [
  | none ↦ none
  | some st ↦
      let (inner, tail) = until (ends_span ch) rest in found st inner (closes ch st inner tail)
]

unfoldable pub inline_span : Option ℕ → ℕ → Bytes → Option Span
inline_span prev ch [] = none
inline_span prev ch (d ∷ rest) =
    if start_or is_boundary prev && not (is_space d) then span_at ch (d ∷ rest) else none

abbrev pub prepend : Bytes → Option Bytes → Option Bytes
prepend out none = none
prepend out (some r) = some (out ++ r)

-- What one round does at a character, with the loop from there on as `next in_preblock prev rest`.
module _ (color : String → Bytes) (next : Bool → Option ℕ → Bytes → Option Bytes) where
  pub copy : ℕ → Bytes → Option Bytes
  copy ch rest = prepend (ch ∷ []) (next false (some ch) rest)

  pub after_quote : Bytes → Option Bytes
  after_quote [] = next false none []
  after_quote (c ∷ s) = copy c s

  pub quote : Bytes → Option Bytes
  quote rest =
      let (line, tail) = until is_newline rest in
      prepend (color "green" ++ (b'>' ∷ (line ++ color "resetcolor"))) (after_quote tail)

  pub inline : Option ℕ → ℕ → Bytes → Option Bytes
  inline prev ch rest = elim (inline_span prev ch rest) [
    | none ↦ copy ch rest
    | some sp ↦
        prepend (color sp.style.opening ++ (sp.inner ++ color sp.style.closing))
          (next false (some ch) sp.after)
  ]

  pub round : Bool → Option ℕ → ℕ → Bytes → Option Bytes
  round in_preblock prev ch rest = elim (fence (ch ∷ rest)) [
    | some after ↦
        prepend (color (if in_preblock then "resetcolor" else "gray"))
          (next (not in_preblock) (some b'`') after)
    | none ↦
        if in_preblock
        then prepend (ch ∷ []) (next true (some ch) rest)
        else if starts_quote prev ch rest
        then quote rest
        else inline prev ch rest
  ]

-- `none` means that the fuel ran out.
unfoldable pub style_loop : (String → Bytes) → ℕ → Bool → Option ℕ → Bytes → Option Bytes
unfolding round inline quote after_quote copy
style_loop color fuel in_preblock prev [] = some []
style_loop color zero in_preblock prev (ch ∷ rest) = none
style_loop color (suc fuel) in_preblock prev (ch ∷ rest) =
    round color (style_loop color fuel) in_preblock prev ch rest

-- Every round reads a character, so the length is fuel enough. `color` is weechat_color.
unfoldable pub apply_xep393_styling : (String → Bytes) → Bytes → Option Bytes
apply_xep393_styling color text = style_loop color (length text) false none text
