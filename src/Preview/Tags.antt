-- ===== src/Preview/Tags.antt =====
-- ifinds, attr_value and decode_html_entities (src/connection/helpers.cpp).
use weechat_xmpp_improved.Prelude.{
  ℕ, zero, suc, ◌+◌, ◌/◌, ◌%◌, Bool, ◌||◌, Option, none, some, [], ◌∷◌, ◌++◌, Bytes, codes, lower,
  bytes_eq, is_space, starts_with, cut_at, ltb, ◌==◌, if◌then◌else◌, length, drop, stoul, stoul_hex,
}

unfoldable pub istarts : Bytes → Bytes → Bool
istarts needle s = starts_with (lower needle) (lower s)

-- ifinds, as the text from the place found on; no needle of the callers is empty.
unfoldable pub ifinds : Bytes → Bytes → Option Bytes
ifinds needle [] = none
ifinds needle (c ∷ s) =
    let later = ifinds needle s in if istarts needle (c ∷ s) then some (c ∷ s) else later

-- The text in front of the first white space or '>'.
unquoted : Bytes → Bytes
unquoted [] = []
unquoted (c ∷ s) = let rest = unquoted s in if c == b'>' || is_space c then [] else c ∷ rest

unfoldable pub until : ℕ → Bytes → Bytes
until q s = elim (cut_at q s) [ none ↦ s | some (before, behind) ↦ before ]

pub value_at : Bytes → Bytes
unfolding until
value_at [] = []
value_at (q ∷ s) = if q == b'"' || q == b'\'' then until q s else unquoted (q ∷ s)

unfoldable pub attr_value : Bytes → Bytes → Bytes
attr_value tag attr = elim (ifinds (attr ++ codes "=") tag) [
  | none ↦ []
  | some found ↦ value_at (drop (length attr + 1) found)
]

-- strtoul gives 0 without digits; an entity is too short for a number past ULONG_MAX.
number : Option ℕ → ℕ
number none = 0
number (some n) = n

code_point : Bytes → ℕ
code_point [] = 0
code_point (c ∷ s) = number (if c == b'x' || c == b'X' then stoul_hex s else stoul (c ∷ s))

utf8 : ℕ → Bytes
utf8 cp =
    if ltb cp 128
    then cp ∷ []
    else if ltb cp 2048
    then (192 + cp / 64) ∷ (128 + cp % 64) ∷ []
    else if ltb cp 65536
    then (224 + cp / 4096) ∷ (128 + cp / 64 % 64) ∷ (128 + cp % 64) ∷ []
    else b'?' ∷ []

unknown : Bytes → Bytes
unknown ent = b'&' ∷ (ent ++ codes ";")

pub numeric : Bytes → Bytes
numeric [] = unknown []
numeric (c ∷ s) = if c == b'#' then utf8 (code_point s) else unknown (c ∷ s)

unfoldable pub entity : Bytes → Bytes
entity ent =
    if bytes_eq ent (codes "amp")
    then b'&' ∷ []
    else if bytes_eq ent (codes "lt")
    then b'<' ∷ []
    else if bytes_eq ent (codes "gt")
    then b'>' ∷ []
    else if bytes_eq ent (codes "quot")
    then b'"' ∷ []
    else if bytes_eq ent (codes "apos")
    then b'\'' ∷ []
    else numeric ent

-- What an entity behind a '&' gives, and how many characters it takes there.
unfoldable pub entity_at : Bytes → Option (Bytes × ℕ)
entity_at s = elim (cut_at b';' s) [
  | none ↦ none
  | some (ent, rest) ↦ if ltb 9 (length ent) then none else some (entity ent, length ent + 1)
]

-- The loop; the number is how many characters are still of the last entity.
unfoldable pub decode_from : ℕ → Bytes → Bytes
decode_from skip [] = []
decode_from (suc skip) (c ∷ s) = decode_from skip s
decode_from zero (c ∷ s) = elim (if c == b'&' then entity_at s else none) [
  | none ↦ c ∷ decode_from 0 s
  | some (out, taken) ↦ out ++ decode_from taken s
]

unfoldable pub decode_html_entities : Bytes → Bytes
decode_html_entities s = decode_from 0 s
