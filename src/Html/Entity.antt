-- ===== src/Html/Entity.antt =====
-- The entities that html_strip_to_plain decodes, and the UTF-8 form of a code point.
use weechat_xmpp_improved.Prelude.{
  ℕ, ◌+◌, ◌-◌, ◌*◌, ◌/◌, ◌%◌, ◌<◌, ◌≡◌, ◌||◌, Option, none, some, List, [], ◌∷◌, Bytes, codes,
  lower, bytes_eq, ltb, ◌==◌, if◌then◌else◌, stoul, stoul_hex, arith,
}

-- The bits put together by `|` do not overlap, so it is `+`.
unfoldable pub utf8 : ℕ → Bytes
utf8 cp =
    if ltb cp 128
    then cp ∷ []
    else if ltb cp 2048
    then (192 + cp / 64) ∷ (128 + cp % 64) ∷ []
    else if ltb cp 65536
    then (224 + cp / 4096) ∷ (128 + cp / 64 % 64) ∷ (128 + cp % 64) ∷ []
    else if ltb cp 1114112
    then (240 + cp / 262144) ∷ (128 + cp / 4096 % 64) ∷ (128 + cp / 64 % 64) ∷ (128 + cp % 64) ∷ []
    else []

abbrev Names : Type 0
Names = List (Bytes × Bytes)

abbrev named : Names
named =
    (codes "amp", b'&' ∷ [])
    ∷ (codes "lt", b'<' ∷ [])
    ∷ (codes "gt", b'>' ∷ [])
    ∷ (codes "quot", b'"' ∷ [])
    ∷ (codes "apos", b'\'' ∷ [])
    ∷ (codes "nbsp", b' ' ∷ [])
    ∷ (codes "mdash", 226 ∷ 128 ∷ 148 ∷ [])
    ∷ (codes "#8212", 226 ∷ 128 ∷ 148 ∷ [])
    ∷ (codes "ndash", 226 ∷ 128 ∷ 147 ∷ [])
    ∷ (codes "#8211", 226 ∷ 128 ∷ 147 ∷ [])
    ∷ (codes "hellip", 226 ∷ 128 ∷ 166 ∷ [])
    ∷ (codes "#8230", 226 ∷ 128 ∷ 166 ∷ [])
    ∷ (codes "rsquo", b'\'' ∷ [])
    ∷ (codes "#8217", b'\'' ∷ [])
    ∷ (codes "lsquo", b'\'' ∷ [])
    ∷ (codes "#8216", b'\'' ∷ [])
    ∷ (codes "rdquo", b'"' ∷ [])
    ∷ (codes "#8221", b'"' ∷ [])
    ∷ (codes "ldquo", b'"' ∷ [])
    ∷ (codes "#8220", b'"' ∷ [])
    ∷ []

unfoldable pub by_name : Bytes → Names → Option Bytes
by_name name [] = none
by_name name ((n, t) ∷ names) = if bytes_eq name n then some t else by_name name names

-- `none` is the exception of stoul.
unfoldable pub code_point : Bytes → Option ℕ
code_point [] = stoul []
code_point (c ∷ s) = if c == b'x' || c == b'X' then stoul_hex s else stoul (c ∷ s)

unfoldable pub numeric : Bytes → Option Bytes
numeric [] = none
numeric (c ∷ s) =
    if c == b'#' then elim (code_point s) [ none ↦ none | some cp ↦ some (utf8 cp) ] else none

-- The text of an entity, without its '&' and ';'; `none` if it stays as it is.
unfoldable pub decode_entity : Bytes → Option Bytes
decode_entity entity = elim (by_name (lower entity) named) [
  | none ↦ numeric entity
  | some t ↦ some t
]

-- The code point that a UTF-8 sequence stands for.
abbrev pub from_utf8 : Bytes → ℕ
from_utf8 (a ∷ []) = a
from_utf8 (a ∷ b ∷ []) = (a - 192) * 64 + (b - 128)
from_utf8 (a ∷ b ∷ c ∷ []) = ((a - 224) * 64 + (b - 128)) * 64 + (c - 128)
from_utf8 (a ∷ b ∷ c ∷ d ∷ []) = (((a - 240) * 64 + (b - 128)) * 64 + (c - 128)) * 64 + (d - 128)
from_utf8 _ = 0

-- Every code point that Unicode has comes back from its UTF-8 form.
pub from_utf8-utf8 : (cp : ℕ) → cp < 1114112 → from_utf8 (utf8 cp) ≡ cp
unfolding utf8
from_utf8-utf8 cp h = ground arith
