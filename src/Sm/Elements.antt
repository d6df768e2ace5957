-- ===== src/Sm/Elements.antt =====
-- The elements of stream management (src/xmpp/xep-0198.inl).
use weechat_xmpp_improved.Prelude.{
  ℕ, Bool, Option, some, List, [], ◌∷◌, ◌++◌, String, Bytes, codes, leb, if◌then◌else◌, to_string,
}

-- A stanza as it is handed to libstrophe: its name, its attributes and its text.
pub record Stanza : Type 0 where
  pub name : Option String
  pub attributes : List (String × Bytes)
  pub text : Bytes

abbrev pub sm_ns : String
sm_ns = "urn:xmpp:sm:3"

abbrev plain : String → List (String × Bytes) → Stanza
plain tag attrs = record { name = some tag; attributes = ("xmlns", codes sm_ns) ∷ attrs; text = [] }

unfoldable pub enable : Bool → ℕ → Stanza
enable resume max_seconds = plain "enable" (
    (if resume then ("resume", codes "true") ∷ [] else [])
    ++ (if leb 1 max_seconds then ("max", to_string max_seconds) ∷ [] else []))

unfoldable pub resume : ℕ → Bytes → Stanza
resume h previd = plain "resume" (("h", to_string h) ∷ ("previd", previd) ∷ [])

unfoldable pub request : Stanza
request = plain "r" []

unfoldable pub answer : ℕ → Stanza
answer h = plain "a" (("h", to_string h) ∷ [])
