-- ===== src/Html.antt =====
-- html_strip_to_plain (src/xmpp/xhtml.cpp): the plain text of an HTML fragment. The index `i` is the
-- rest of the text from there.
pub mod Entity
pub mod Layout
pub mod Loop
pub mod Escape
pub mod Script
mod Tests
use weechat_xmpp_improved.Prelude.{
  ℕ, zero, suc, ◌+◌, Bool, true, false, not, ◌&&◌, ◌||◌, Option, none, some, List, [], ◌∷◌, ◌++◌,
  Bytes, codes, to_lower, cut_at, leb, ◌==◌, if◌then◌else◌, length,
}
use weechat_xmpp_improved.Html.Entity.{decode_entity}
use weechat_xmpp_improved.Html.Layout.{tidy}

pub record Mode : Type 0 where
  pub in_tag : Bool
  pub in_script : Bool
  pub in_style : Bool

-- What a round starts with: the mode, the text put out and the text to read.
pub record State : Type 0 where
  pub mode : Mode
  pub out : Bytes
  pub rest : Bytes

-- A prefix in any case.
unfoldable pub istartsw : Bytes → Bytes → Bool
istartsw s [] = true
istartsw [] (p ∷ ps) = false
istartsw (c ∷ s) (p ∷ ps) = to_lower c == to_lower p && istartsw s ps

-- The text after the next '>'.
unfoldable pub past_tag : Bytes → Bytes
past_tag [] = []
past_tag (c ∷ s) = if c == b'>' then s else past_tag s

-- `name_start`: behind the '/' of a closing tag.
unfoldable pub tag_name : Bytes → Bytes
tag_name [] = []
tag_name (c ∷ s) = if c == b'/' then s else c ∷ s

abbrev block_tags : List Bytes
block_tags =
    codes "p"
    ∷ codes "div"
    ∷ codes "br"
    ∷ codes "li"
    ∷ codes "h1"
    ∷ codes "h2"
    ∷ codes "h3"
    ∷ codes "h4"
    ∷ codes "h5"
    ∷ codes "h6"
    ∷ codes "tr"
    ∷ codes "blockquote"
    ∷ codes "pre"
    ∷ codes "/p"
    ∷ codes "/div"
    ∷ codes "/li"
    ∷ codes "/h1"
    ∷ codes "/h2"
    ∷ codes "/h3"
    ∷ codes "/h4"
    ∷ codes "/h5"
    ∷ codes "/h6"
    ∷ codes "/tr"
    ∷ []

starts_any : Bytes → List Bytes → Bool
starts_any name [] = false
starts_any name (t ∷ ts) = istartsw name t || starts_any name ts

unfoldable pub is_block_tag : Bytes → Bool
unfolding starts_any
is_block_tag name = starts_any name block_tags

-- A newline, unless the text is empty or ends with one.
unfoldable pub break_line : Bytes → Bytes
break_line [] = []
break_line (c ∷ []) = if c == b'\n' then c ∷ [] else c ∷ b'\n' ∷ []
break_line (c ∷ d ∷ s) = c ∷ break_line (d ∷ s)

-- The end of a script or style element, as the code looks for it.
skip_end : Mode → Bytes → Bytes → State
skip_end mode out rest = record { mode = mode; out = out; rest = past_tag rest }

enter_tag : Bool → Bool → Bytes → Bytes → Bytes → State
enter_tag script style out name rest = record {
  mode = record { in_tag = true; in_script = script; in_style = style };
  out = if not script && not style && is_block_tag name then break_line out else out;
  rest = rest;
}

-- The character '<' in front of `rest`.
unfoldable pub open_tag : Mode → Bytes → Bytes → State
unfolding skip_end enter_tag
open_tag m out rest =
    let name = tag_name rest in
    let script = m.in_script || istartsw name (codes "script") in
    let style = m.in_style || istartsw name (codes "style") in
    if istartsw name (codes "/script")
    then skip_end (record { in_tag = false; in_script = false; in_style = m.in_style }) out rest
    else if istartsw name (codes "/style")
    then skip_end (record { in_tag = false; in_script = script; in_style = false }) out rest
    else enter_tag script style out name rest

-- The entity that starts in front of `rest`, and what follows its ';'.
unfoldable pub entity_at : Bytes → Option (Bytes × Bytes)
entity_at rest = elim (cut_at b';' rest) [
  | none ↦ none
  | some (entity, behind) ↦
      if leb (length entity + 1) 10
      then elim (decode_entity entity) [ none ↦ none | some t ↦ some (t, behind) ]
      else none
]

unfoldable pub put : Mode → Bytes → ℕ → Bytes → State
put m out c rest = record { mode = m; out = out ++ (c ∷ []); rest = rest }

unfoldable pub put_entity : Mode → Bytes → Bytes → State
put_entity m out rest = elim (entity_at rest) [
  | none ↦ put m out b'&' rest
  | some (t, behind) ↦ record { mode = m; out = out ++ t; rest = behind }
]

-- A round of the loop at the character `c`.
unfoldable pub round : Mode → Bytes → ℕ → Bytes → State
round m out c rest =
    if m.in_tag
    then record {
      mode = if c == b'>' then record m { in_tag = false } else m;
      out = out;
      rest = rest;
    }
    else if c == b'<'
    then open_tag m out rest
    else if m.in_script || m.in_style
    then record { mode = m; out = out; rest = rest }
    else if c == b'&'
    then put_entity m out rest
    else put m out c rest

-- `none` means that the fuel ran out.
unfoldable pub strip_loop : ℕ → Mode → Bytes → Bytes → Option Bytes
strip_loop fuel m out [] = some out
strip_loop zero m out (c ∷ rest) = none
strip_loop (suc fuel) m out (c ∷ rest) =
    let st = round m out c rest in strip_loop fuel st.mode st.out st.rest

abbrev pub text_mode : Mode
text_mode = record { in_tag = false; in_script = false; in_style = false }

-- Every round reads a character, so the length is fuel enough.
unfoldable pub html_strip_to_plain : Bytes → Option Bytes
html_strip_to_plain html = elim (strip_loop (length html) text_mode [] html) [
  | none ↦ none
  | some out ↦ some (tidy out)
]
