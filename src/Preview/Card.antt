-- ===== src/Preview/Card.antt =====
-- The tags with a name in parse_og_from_html (src/connection/helpers.cpp), against what they offer.
use mathlib.Core.Path.{subst}
use weechat_xmpp_improved.Prelude.{
  ◌≡◌, refl, false, [], ◌∷◌, Bytes, codes, bytes_eq, Bool-cases, inl, inr,
}
use weechat_xmpp_improved.Preview.Page.{Preview, is_empty, is_http, twitter_card}
use weechat_xmpp_improved.Preview.Offers.{keep_all, keep-nil, card_offer, bytes_eq-true}

twitter_card_title :
    (content t d u i : Bytes)
    → twitter_card
        (codes "twitter:title")
        content
        (record { title = t; description = d; url = u; image = i })
      ≡ keep_all
          (record { title = t; description = d; url = u; image = i })
          (card_offer (codes "twitter:title") content)
unfolding twitter_card is_empty
twitter_card_title content [] d u i = rw (keep-nil d, keep-nil u, keep-nil i) refl
twitter_card_title content (c ∷ t) d u i = rw (keep-nil d, keep-nil u, keep-nil i) refl

twitter_card_description :
    (content t d u i : Bytes)
    → twitter_card
        (codes "twitter:description")
        content
        (record { title = t; description = d; url = u; image = i })
      ≡ keep_all
          (record { title = t; description = d; url = u; image = i })
          (card_offer (codes "twitter:description") content)
unfolding twitter_card is_empty
twitter_card_description content t [] u i = rw (keep-nil t, keep-nil u, keep-nil i) refl
twitter_card_description content t (c ∷ d) u i = rw (keep-nil t, keep-nil u, keep-nil i) refl

twitter_card_plain :
    (content t d u i : Bytes)
    → twitter_card
        (codes "description")
        content
        (record { title = t; description = d; url = u; image = i })
      ≡ keep_all
          (record { title = t; description = d; url = u; image = i })
          (card_offer (codes "description") content)
unfolding twitter_card is_empty
twitter_card_plain content t [] u i = rw (keep-nil t, keep-nil u, keep-nil i) refl
twitter_card_plain content t (c ∷ d) u i = rw (keep-nil t, keep-nil u, keep-nil i) refl

twitter_card_image :
    (content t d u i : Bytes)
    → twitter_card
        (codes "twitter:image")
        content
        (record { title = t; description = d; url = u; image = i })
      ≡ keep_all
          (record { title = t; description = d; url = u; image = i })
          (card_offer (codes "twitter:image") content)
unfolding twitter_card is_empty
twitter_card_image content t d u [] = elim (Bool-cases (is_http content)) [
  | inl e ↦ rw (keep-nil t, keep-nil u, keep-nil d, e) refl
  | inr e ↦ rw (keep-nil t, keep-nil u, keep-nil d, e) refl
]
twitter_card_image content t d u (c ∷ i) = rw (keep-nil t, keep-nil u, keep-nil d) refl

twitter_card_other :
    (name content : Bytes) (p : Preview)
    → bytes_eq name (codes "twitter:title") ≡ false
    → bytes_eq name (codes "twitter:description") ≡ false
    → bytes_eq name (codes "twitter:image") ≡ false
    → bytes_eq name (codes "description") ≡ false
    → twitter_card name content p ≡ keep_all p (card_offer name content)
unfolding twitter_card
twitter_card_other name content p a b c d =
    rw (a, b, c, d, keep-nil p.title, keep-nil p.description, keep-nil p.url, keep-nil p.image) refl

pub twitter_card-keep_all :
    (name content : Bytes) (p : Preview)
    → twitter_card name content p ≡ keep_all p (card_offer name content)
twitter_card-keep_all name content p =
    let P = λ (q : Bytes). twitter_card q content p ≡ keep_all p (card_offer q content) in
    elim (Bool-cases (bytes_eq name (codes "twitter:title"))) [
      | inl e ↦
          subst P (bytes_eq-true name _ e)
            (twitter_card_title content p.title p.description p.url p.image)
      | inr a ↦ elim (Bool-cases (bytes_eq name (codes "twitter:description"))) [
        | inl e ↦
            subst P (bytes_eq-true name _ e)
              (twitter_card_description content p.title p.description p.url p.image)
        | inr b ↦ elim (Bool-cases (bytes_eq name (codes "twitter:image"))) [
          | inl e ↦
              subst P (bytes_eq-true name _ e)
                (twitter_card_image content p.title p.description p.url p.image)
          | inr c ↦ elim (Bool-cases (bytes_eq name (codes "description"))) [
            | inl e ↦
                subst P (bytes_eq-true name _ e)
                  (twitter_card_plain content p.title p.description p.url p.image)
            | inr d ↦ twitter_card_other name content p a b c d
          ]
        ]
      ]
    ]
