-- ===== src/Preview/Page.antt =====
-- parse_og_from_html (src/connection/helpers.cpp): the preview of a page.
use weechat_xmpp_improved.Prelude.{
  ℕ, zero, suc, ◌-◌, Bool, true, false, not, ◌&&◌, ◌||◌, none, some, List, [], ◌∷◌, ◌++◌, Bytes,
  codes, bytes_eq, starts_with, cut_at, ◌==◌, if◌then◌else◌, length,
}
use weechat_xmpp_improved.Preview.Tags.{istarts, ifinds, attr_value, decode_html_entities}

pub record Preview : Type 0 where
  pub title : Bytes
  pub description : Bytes
  pub url : Bytes
  pub image : Bytes

abbrev pub no_preview : Preview
no_preview = record { title = []; description = []; url = []; image = [] }

-- The text in front of "</head>" and of "<body".
unfoldable pub head_of : Bytes → Bytes
head_of [] = []
head_of (c ∷ s) =
    let rest = head_of s in
    if istarts (codes "</head>") (c ∷ s) || istarts (codes "<body") (c ∷ s) then [] else c ∷ rest

-- The meta tags, each up to its '>'; the number is how many characters are still of the last one.
unfoldable pub metas : ℕ → Bytes → List Bytes
metas skip [] = []
metas (suc skip) (c ∷ s) = metas skip s
metas zero (c ∷ s) = elim (istarts (codes "<meta") (c ∷ s)) [
  | false ↦ metas 0 s
  | true ↦ elim (cut_at b'>' (c ∷ s)) [
    | none ↦ []
    | some (tag, rest) ↦ (tag ++ codes ">") ∷ metas (length s - length rest) s
  ]
]

unfoldable pub is_empty : Bytes → Bool
is_empty [] = true
is_empty (c ∷ s) = false

unfoldable pub is_http : Bytes → Bool
is_http s = starts_with (codes "http") s

unfoldable pub open_graph : Bytes → Bytes → Preview → Preview
open_graph prop content p =
    if bytes_eq prop (codes "og:title") && is_empty p.title
    then record { title = content; description = p.description; url = p.url; image = p.image }
    else if bytes_eq prop (codes "og:description") && is_empty p.description
    then record { title = p.title; description = content; url = p.url; image = p.image }
    else if bytes_eq prop (codes "og:url") && is_empty p.url
    then record { title = p.title; description = p.description; url = content; image = p.image }
    else if bytes_eq prop (codes "og:image") && is_empty p.image && is_http content
    then record { title = p.title; description = p.description; url = p.url; image = content }
    else p

unfoldable pub twitter_card : Bytes → Bytes → Preview → Preview
twitter_card name content p =
    if bytes_eq name (codes "twitter:title") && is_empty p.title
    then record { title = content; description = p.description; url = p.url; image = p.image }
    else if bytes_eq name (codes "twitter:description") && is_empty p.description
    then record { title = p.title; description = content; url = p.url; image = p.image }
    else if bytes_eq name (codes "twitter:image") && is_empty p.image && is_http content
    then record { title = p.title; description = p.description; url = p.url; image = content }
    else if bytes_eq name (codes "description") && is_empty p.description
    then record { title = p.title; description = content; url = p.url; image = p.image }
    else p

-- A round of the loop over the meta tags.
unfoldable pub read_meta : Bytes → Preview → Preview
read_meta tag p =
    let prop = attr_value tag (codes "property") in
    let name = attr_value tag (codes "name") in
    let content = decode_html_entities (attr_value tag (codes "content")) in
    if not (is_empty prop)
    then open_graph prop content p
    else if not (is_empty name)
    then twitter_card name content p
    else p

unfoldable pub read_metas : List Bytes → Preview → Preview
read_metas [] p = p
read_metas (tag ∷ tags) p = read_metas tags (read_meta tag p)

is_gap : ℕ → Bool
is_gap c = c == b' ' || c == 9 || c == 13 || c == 10

pub trim_front : Bytes → Bytes
trim_front [] = []
trim_front (c ∷ s) = let rest = trim_front s in if is_gap c then rest else c ∷ s

pub trim_back : Bytes → Bytes
trim_back [] = []
trim_back (c ∷ s) = let rest = trim_back s in if is_empty rest && is_gap c then [] else c ∷ rest

-- The text in front of "</title>".
pub title_text : Bytes → Bytes
title_text [] = []
title_text (c ∷ s) =
    let rest = title_text s in if istarts (codes "</title>") (c ∷ s) then [] else c ∷ rest

-- The text of the title element.
unfoldable pub title_element : Bytes → Bytes
title_element head = elim (ifinds (codes "<title") head) [
  | none ↦ []
  | some found ↦ elim (cut_at b'>' found) [
    | none ↦ []
    | some (tag, rest) ↦ trim_back (trim_front (title_text rest))
  ]
]

unfoldable pub with_title : Bytes → Preview → Preview
with_title head p =
    if is_empty p.title
    then record {
      title = decode_html_entities (title_element head);
      description = p.description;
      url = p.url;
      image = p.image;
    }
    else p

unfoldable pub parse_og_from_html : Bytes → Preview
parse_og_from_html html = with_title (head_of html) (read_metas (metas 0 (head_of html)) no_preview)
