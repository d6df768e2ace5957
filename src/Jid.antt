-- ===== src/Jid.antt =====
-- jid (src/xmpp/node.cpp): the parts of an address, which the program reads by the expression
-- ^((?:([^@/<>'"]+)@)?([^@/<>'"]+))(?:/([^<>'"]*))?$
-- The first '/' can only be the one in front of the resource, and before it at most one '@' stands.
mod Tests
use weechat_xmpp_improved.Prelude.{
  All-append, ℕ, ◌≡◌, ◌≢◌, refl, ap, ◌∙◌, Bool, true, false, not, ◌&&◌, ◌||◌, Option, none, some,
  List, [], ◌∷◌, ◌++◌, append_assoc, Bytes, cut_at, ◌==◌, if◌then◌else◌, All, arith, Bool-cases,
  Option-cases, inl, inr,
}

-- What no match takes in is empty.
pub record Jid : Type 0 where
  pub full : Bytes
  pub bare : Bytes
  pub local : Bytes
  pub domain : Bytes
  pub resource : Bytes

-- A character that no part holds.
unfoldable pub is_quoting : ℕ → Bool
is_quoting c = c == b'<' || c == b'>' || c == b'\'' || c == b'"'

unfoldable pub is_resource : Bytes → Bool
is_resource [] = true
is_resource (c ∷ s) = not (is_quoting c) && is_resource s

unfoldable pub all_plain : Bytes → Bool
all_plain [] = true
all_plain (c ∷ s) = not (c == b'@' || c == b'/' || is_quoting c) && all_plain s

-- [^@/<>'"]+
unfoldable pub is_part : Bytes → Bool
is_part [] = false
is_part (c ∷ s) = all_plain (c ∷ s)

-- The local part, if there is one, and the domain.
unfoldable pub match_bare : Bytes → Option (Bytes × Bytes)
match_bare bare = elim (cut_at b'@' bare) [
  | none ↦ if is_part bare then some ([], bare) else none
  | some (local, domain) ↦ if is_part local && is_part domain then some (local, domain) else none
]

-- The text before the first '/', and the resource behind it.
unfoldable pub split_resource : Bytes → Bytes × Bytes
split_resource s = elim (cut_at b'/' s) [ none ↦ (s, []) | some parts ↦ parts ]

matched : Bytes → Bytes → Bytes → Option (Bytes × Bytes) → Jid
matched full bare resource none = record {
  full = full;
  bare = full;
  local = [];
  domain = full;
  resource = [];
}
matched full bare resource (some (local, domain)) = record {
  full = full;
  bare = bare;
  local = local;
  domain = domain;
  resource = resource;
}

-- The constructor; without a match the whole text is the bare address and the domain.
unfoldable pub jid : Bytes → Jid
unfolding matched
jid s =
    let (bare, resource) = split_resource s in
    matched s bare resource (if is_resource resource then match_bare bare else none)

unfoldable pub is_bare : Jid → Bool
is_bare j = elim j.resource [ [] ↦ true | c ∷ s ↦ false ]

-- An address as it is written.
abbrev pub write_bare : Bytes → Bytes → Bytes
write_bare [] domain = domain
write_bare (c ∷ local) domain = (c ∷ local) ++ (b'@' ∷ domain)

abbrev pub write : Bytes → Bytes → Bytes → Bytes
write local domain [] = write_bare local domain
write local domain (c ∷ resource) = write_bare local domain ++ (b'/' ∷ c ∷ resource)

-- A local part may be left out.
abbrev pub IsLocal : Bytes → Type 0
IsLocal s = all_plain s ≡ true

cut_at-plain : (sep : ℕ) (s : Bytes) → All (λ c. (c == sep) ≡ false) s → cut_at sep s ≡ none
unfolding cut_at
cut_at-plain sep [] h = refl
cut_at-plain sep (c ∷ s) (p, h) = ground (arith, cut_at-plain sep s h)

cut_at-append :
    (sep : ℕ) (s t : Bytes)
    → All (λ c. (c == sep) ≡ false) s
    → cut_at sep (s ++ (sep ∷ t)) ≡ some (s, t)
unfolding cut_at
cut_at-append sep [] t h = ground arith
cut_at-append sep (c ∷ s) t (p, h) = ground (arith, cut_at-append sep s t h)

plain_at : (s : Bytes) → all_plain s ≡ true → All (λ c. (c == b'@') ≡ false) s
unfolding all_plain
plain_at [] h = tt
plain_at (c ∷ s) h = (ground arith, plain_at s (ground arith))

plain_slash : (s : Bytes) → all_plain s ≡ true → All (λ c. (c == b'/') ≡ false) s
unfolding all_plain
plain_slash [] h = tt
plain_slash (c ∷ s) h = (ground arith, plain_slash s (ground arith))

part_plain : (s : Bytes) → is_part s ≡ true → all_plain s ≡ true
unfolding is_part
part_plain [] h = absurd (ground arith)
part_plain (c ∷ s) h = h

match_bare-write_bare :
    (local domain : Bytes)
    → IsLocal local
    → is_part domain ≡ true
    → match_bare (write_bare local domain) ≡ some (local, domain)
unfolding match_bare is_part
match_bare-write_bare [] domain h k =
    ground (arith, cut_at-plain b'@' domain (plain_at domain (part_plain domain k)))
match_bare-write_bare (c ∷ local) domain h k =
    ground (arith, cut_at-append b'@' (c ∷ local) domain (plain_at (c ∷ local) h))

write_bare-slash :
    (local domain : Bytes)
    → IsLocal local
    → is_part domain ≡ true
    → All (λ c. (c == b'/') ≡ false) (write_bare local domain)
write_bare-slash [] domain h k = plain_slash domain (part_plain domain k)
write_bare-slash (c ∷ local) domain h k =
    All-append (λ d. (d == b'/') ≡ false) (c ∷ local) (b'@' ∷ domain) (plain_slash (c ∷ local) h)
      (refl, plain_slash domain (part_plain domain k))

split_resource-write :
    (local domain resource : Bytes)
    → IsLocal local
    → is_part domain ≡ true
    → split_resource (write local domain resource) ≡ (write_bare local domain, resource)
unfolding split_resource
split_resource-write local domain [] h k =
    ground (arith, cut_at-plain b'/' (write_bare local domain) (write_bare-slash local domain h k))
split_resource-write local domain (c ∷ resource) h k = ground (
  arith,
  cut_at-append b'/' (write_bare local domain) (c ∷ resource) (write_bare-slash local domain h k),
)

-- An address with a domain and, if they are there, a local part and a resource, all of characters
-- that are allowed in them, is read as these parts.
pub jid-write :
    (local domain resource : Bytes)
    → all_plain local ≡ true
    → is_part domain ≡ true
    → is_resource resource ≡ true
    → jid (write local domain resource) ≡ record {
      full = write local domain resource;
      bare = write_bare local domain;
      local = local;
      domain = domain;
      resource = resource;
    }
unfolding jid matched
jid-write local domain resource h k r =
    rw
      (
        split_resource-write local domain resource h k,
        r,
        match_bare-write_bare local domain h k,
        jid,
      )
      refl
