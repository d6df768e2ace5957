-- ===== src/Preview/Tests.antt =====
-- A page with tags, entities and a title.
use weechat_xmpp_improved.Prelude.{◌≡◌, [], ◌∷◌, ◌++◌, map, Bytes, codes}
use weechat_xmpp_improved.Preview.Tags.{decode_html_entities}
use weechat_xmpp_improved.Preview.Page.{head_of, metas, title_element, parse_og_from_html}
use weechat_xmpp_improved.Preview.Offers.{first_offer}
use weechat_xmpp_improved.Preview.Escaped.{escape, decode_html_entities-escape}
use weechat_xmpp_improved.Preview.First.{offer, parse_og_from_html-first}
use weechat_xmpp_improved.Preview.Image.{IsWeb, parse_og_from_html-IsWeb}

abbrev page : Bytes
page =
    codes
      "<head><meta property='og:image' content='ftp:x'><meta name='twitter:image' content='http:y'>"
    ++ codes "<title> a &lt; b </title></head>"

decode_html_entities-escape_example :
    decode_html_entities (escape (codes "a<b & 'c'")) ≡ codes "a<b & 'c'"
decode_html_entities-escape_example = decode_html_entities-escape (codes "a<b & 'c'")

parse_og_from_html-IsWeb_example : IsWeb (parse_og_from_html page).image
parse_og_from_html-IsWeb_example = parse_og_from_html-IsWeb page

parse_og_from_html-first_example :
    let tags = metas 0 (head_of page) in
    let p = parse_og_from_html page in
    (p.title
      ≡ first_offer (
          map (λ tag. (offer tag).title) tags
          ++ (decode_html_entities (title_element (head_of page)) ∷ [])))
    × (p.description ≡ first_offer (map (λ tag. (offer tag).description) tags))
    × (p.url ≡ first_offer (map (λ tag. (offer tag).url) tags))
    × (p.image ≡ first_offer (map (λ tag. (offer tag).image) tags))
parse_og_from_html-first_example = parse_og_from_html-first page
