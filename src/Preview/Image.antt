-- ===== src/Preview/Image.antt =====
-- The image of a preview.
use weechat_xmpp_improved.Prelude.{
  ◌≡◌, refl, ap, ◌∙◌, Bool, true, not, ◌&&◌, ◌||◌, List, [], ◌∷◌, map, Bytes, codes, bytes_eq,
  if◌then◌else◌, if-cases, arith,
}
use weechat_xmpp_improved.Preview.Tags.{attr_value, decode_html_entities}
use weechat_xmpp_improved.Preview.Page.{
  no_preview, head_of, metas, is_empty, is_http, parse_og_from_html,
}
use weechat_xmpp_improved.Preview.Offers.{first_offer, keep, when, graph_offer, card_offer}
use weechat_xmpp_improved.Preview.First.{offer, parse_og_from_html-first}

-- No address, or one of the web.
abbrev pub IsWeb : Bytes → Type 0
IsWeb s = (is_empty s || is_http s) ≡ true

when-IsWeb : (b : Bool) (s : Bytes) → IsWeb (when (b && is_http s) s)
unfolding is_empty
when-IsWeb b s = if-cases IsWeb (b && is_http s) s [] (λ e. ground arith) (λ e. refl)

offer-IsWeb : (tag : Bytes) → IsWeb (offer tag).image
unfolding is_empty
offer-IsWeb tag =
    go (attr_value tag (codes "property")) (attr_value tag (codes "name"))
      (decode_html_entities (attr_value tag (codes "content")))
  where
    go :
        (prop name content : Bytes)
        → IsWeb
            (if not (is_empty prop)
              then graph_offer prop content
              else if not (is_empty name)
              then card_offer name content
              else no_preview).image
    go (c ∷ prop) name content = when-IsWeb (bytes_eq (c ∷ prop) (codes "og:image")) content
    go [] (c ∷ name) content = when-IsWeb (bytes_eq (c ∷ name) (codes "twitter:image")) content
    go [] [] content = refl

keep-IsWeb : (a b : Bytes) → IsWeb a → IsWeb b → IsWeb (keep a b)
keep-IsWeb [] b ha hb = hb
keep-IsWeb (c ∷ a) b ha hb = ha

first-IsWeb : (tags : List Bytes) → IsWeb (first_offer (map (λ tag. (offer tag).image) tags))
unfolding is_empty
first-IsWeb [] = refl
first-IsWeb (tag ∷ tags) = keep-IsWeb (offer tag).image _ (offer-IsWeb tag) (first-IsWeb tags)

-- Whatever the page says, the image of its preview is missing or its address starts with "http".
pub parse_og_from_html-IsWeb : (html : Bytes) → IsWeb (parse_og_from_html html).image
parse_og_from_html-IsWeb html =
    let (t, d, u, i) = parse_og_from_html-first html in
    ap (λ s. is_empty s || is_http s) i ∙ first-IsWeb (metas 0 (head_of html))
