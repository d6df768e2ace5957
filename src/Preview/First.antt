-- ===== src/Preview/First.antt =====
-- parse_og_from_html (src/connection/helpers.cpp) and the offers of the meta tags.
use weechat_xmpp_improved.Prelude.{
  ◌≡◌, refl, sym, ap, ◌∙◌, not, List, [], ◌∷◌, ◌++◌, map, Bytes, codes, if◌then◌else◌,
}
use weechat_xmpp_improved.Preview.Tags.{attr_value, decode_html_entities}
use weechat_xmpp_improved.Preview.Page.{
  Preview, no_preview, head_of, metas, is_empty, open_graph, twitter_card, read_meta, read_metas,
  with_title, title_element, parse_og_from_html,
}
use weechat_xmpp_improved.Preview.Offers.{
  keep, first_offer, keep_all, keep-nil, keep_assoc, graph_offer, card_offer,
}
use weechat_xmpp_improved.Preview.Graph.{open_graph-keep_all}
use weechat_xmpp_improved.Preview.Card.{twitter_card-keep_all}

-- What a meta tag offers, by its property if it has one and else by its name.
abbrev pub offer : Bytes → Preview
offer tag =
    let prop = attr_value tag (codes "property") in
    let name = attr_value tag (codes "name") in
    let content = decode_html_entities (attr_value tag (codes "content")) in
    if not (is_empty prop)
    then graph_offer prop content
    else if not (is_empty name)
    then card_offer name content
    else no_preview

keep_all-no_preview : (p : Preview) → keep_all p no_preview ≡ p
keep_all-no_preview p =
    rw (keep-nil p.title, keep-nil p.description, keep-nil p.url, keep-nil p.image) refl

read_meta-offer : (tag : Bytes) (p : Preview) → read_meta tag p ≡ keep_all p (offer tag)
unfolding read_meta is_empty
read_meta-offer tag p =
    go (attr_value tag (codes "property")) (attr_value tag (codes "name"))
      (decode_html_entities (attr_value tag (codes "content")))
  where
    go :
        (prop name content : Bytes)
        → (if not (is_empty prop)
            then open_graph prop content p
            else if not (is_empty name)
            then twitter_card name content p
            else p)
          ≡ keep_all p (
              if not (is_empty prop)
              then graph_offer prop content
              else if not (is_empty name)
              then card_offer name content
              else no_preview)
    go (c ∷ prop) name content = open_graph-keep_all (c ∷ prop) content p
    go [] (c ∷ name) content = twitter_card-keep_all (c ∷ name) content p
    go [] [] content = sym (keep_all-no_preview p)

-- One part of a preview, read from the tags.
module _ (part : Preview → Bytes)
    (keeps : (p q : Preview) → part (keep_all p q) ≡ keep (part p) (part q)) where
  read_metas-part :
      (tags : List Bytes) (p : Preview)
      → part (read_metas tags p) ≡ keep (part p) (first_offer (map (λ tag. part (offer tag)) tags))
  unfolding read_metas
  read_metas-part [] p = sym (keep-nil (part p))
  read_metas-part (tag ∷ tags) p =
      let later = first_offer (map (λ t. part (offer t)) tags) in
      read_metas-part tags (read_meta tag p)
      ∙ ap (λ q. keep (part q) later) (read_meta-offer tag p)
      ∙ ap (λ s. keep s later) (keeps p (offer tag))
      ∙ keep_assoc (part p) (part (offer tag)) later

first_offer-append :
    (l : List Bytes) (s : Bytes) → first_offer (l ++ (s ∷ [])) ≡ keep (first_offer l) s
first_offer-append [] s = keep-nil s
first_offer-append (a ∷ l) s =
    ap (keep a) (first_offer-append l s) ∙ sym (keep_assoc a (first_offer l) s)

with_title_parts :
    (head t d u i : Bytes)
    → let p = with_title head (record { title = t; description = d; url = u; image = i }) in
      (p.title ≡ keep t (decode_html_entities (title_element head)))
      × (p.description ≡ d)
      × (p.url ≡ u)
      × (p.image ≡ i)
unfolding with_title is_empty
with_title_parts head [] d u i = (refl, refl, refl, refl)
with_title_parts head (c ∷ t) d u i = (refl, refl, refl, refl)

-- Every part of the preview is the first text offered for it that is not empty, in the order of the
-- meta tags of the head, each by its property if it has one and else by its name; the title element
-- comes last.
pub parse_og_from_html-first :
    (html : Bytes)
    → let tags = metas 0 (head_of html) in
      let p = parse_og_from_html html in
      (p.title
        ≡ first_offer (
            map (λ tag. (offer tag).title) tags
            ++ (decode_html_entities (title_element (head_of html)) ∷ [])))
      × (p.description ≡ first_offer (map (λ tag. (offer tag).description) tags))
      × (p.url ≡ first_offer (map (λ tag. (offer tag).url) tags))
      × (p.image ≡ first_offer (map (λ tag. (offer tag).image) tags))
unfolding parse_og_from_html
parse_og_from_html-first html =
    let head = head_of html in
    let tags = metas 0 head in
    let read = read_metas tags no_preview in
    let (t, d, u, i) = with_title_parts head read.title read.description read.url read.image in
    (
      t
          ∙ ap (λ t. keep t (decode_html_entities (title_element head)))
              (read_metas-part (λ p. p.title) (λ p q. refl) tags no_preview)
          ∙ sym (first_offer-append (map (λ tag. (offer tag).title) tags) _),
      d ∙ read_metas-part (λ p. p.description) (λ p q. refl) tags no_preview,
      u ∙ read_metas-part (λ p. p.url) (λ p q. refl) tags no_preview,
      i ∙ read_metas-part (λ p. p.image) (λ p q. refl) tags no_preview,
    )
