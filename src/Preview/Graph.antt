-- ===== src/Preview/Graph.antt =====
-- The tags of OpenGraph in parse_og_from_html (src/connection/helpers.cpp), against what they offer.
use mathlib.Core.Path.{subst}
use weechat_xmpp_improved.Prelude.{
  ◌≡◌, refl, false, [], ◌∷◌, Bytes, codes, bytes_eq, Bool-cases, inl, inr,
}
use weechat_xmpp_improved.Preview.Page.{Preview, is_empty, is_http, open_graph}
use weechat_xmpp_improved.Preview.Offers.{keep_all, keep-nil, graph_offer, bytes_eq-true}

open_graph_title :
    (content t d u i : Bytes)
    → open_graph
        (codes "og:title")
        content
        (record { title = t; description = d; url = u; image = i })
      ≡ keep_all
          (record { title = t; description = d; url = u; image = i })
          (graph_offer (codes "og:title") content)
unfolding open_graph is_empty
open_graph_title content [] d u i = rw (keep-nil d, keep-nil u, keep-nil i) refl
open_graph_title content (c ∷ t) d u i = rw (keep-nil d, keep-nil u, keep-nil i) refl

open_graph_description :
    (content t d u i : Bytes)
    → open_graph
        (codes "og:description")
        content
        (record { title = t; description = d; url = u; image = i })
      ≡ keep_all
          (record { title = t; description = d; url = u; image = i })
          (graph_offer (codes "og:description") content)
unfolding open_graph is_empty
open_graph_description content t [] u i = rw (keep-nil t, keep-nil u, keep-nil i) refl
open_graph_description content t (c ∷ d) u i = rw (keep-nil t, keep-nil u, keep-nil i) refl

open_graph_image :
    (content t d u i : Bytes)
    → open_graph
        (codes "og:image")
        content
        (record { title = t; description = d; url = u; image = i })
      ≡ keep_all
          (record { title = t; description = d; url = u; image = i })
          (graph_offer (codes "og:image") content)
unfolding open_graph is_empty
open_graph_image content t d u [] = elim (Bool-cases (is_http content)) [
  | inl e ↦ rw (keep-nil t, keep-nil u, keep-nil d, e) refl
  | inr e ↦ rw (keep-nil t, keep-nil u, keep-nil d, e) refl
]
open_graph_image content t d u (c ∷ i) = rw (keep-nil t, keep-nil u, keep-nil d) refl

open_graph_url :
    (content t d u i : Bytes)
    → open_graph
        (codes "og:url")
        content
        (record { title = t; description = d; url = u; image = i })
      ≡ keep_all
          (record { title = t; description = d; url = u; image = i })
          (graph_offer (codes "og:url") content)
unfolding open_graph is_empty
open_graph_url content t d [] i = rw (keep-nil t, keep-nil d, keep-nil i) refl
open_graph_url content t d (c ∷ u) i = rw (keep-nil t, keep-nil d, keep-nil i) refl

open_graph_other :
    (prop content : Bytes) (p : Preview)
    → bytes_eq prop (codes "og:title") ≡ false
    → bytes_eq prop (codes "og:description") ≡ false
    → bytes_eq prop (codes "og:url") ≡ false
    → bytes_eq prop (codes "og:image") ≡ false
    → open_graph prop content p ≡ keep_all p (graph_offer prop content)
unfolding open_graph
open_graph_other prop content p a b c d =
    rw (a, b, c, d, keep-nil p.title, keep-nil p.description, keep-nil p.url, keep-nil p.image) refl

pub open_graph-keep_all :
    (prop content : Bytes) (p : Preview)
    → open_graph prop content p ≡ keep_all p (graph_offer prop content)
open_graph-keep_all prop content p =
    let P = λ (q : Bytes). open_graph q content p ≡ keep_all p (graph_offer q content) in
    elim (Bool-cases (bytes_eq prop (codes "og:title"))) [
      | inl e ↦
          subst P (bytes_eq-true prop _ e)
            (open_graph_title content p.title p.description p.url p.image)
      | inr a ↦ elim (Bool-cases (bytes_eq prop (codes "og:description"))) [
        | inl e ↦
            subst P (bytes_eq-true prop _ e)
              (open_graph_description content p.title p.description p.url p.image)
        | inr b ↦ elim (Bool-cases (bytes_eq prop (codes "og:url"))) [
          | inl e ↦
              subst P (bytes_eq-true prop _ e)
                (open_graph_url content p.title p.description p.url p.image)
          | inr c ↦ elim (Bool-cases (bytes_eq prop (codes "og:image"))) [
            | inl e ↦
                subst P (bytes_eq-true prop _ e)
                  (open_graph_image content p.title p.description p.url p.image)
            | inr d ↦ open_graph_other prop content p a b c d
          ]
        ]
      ]
    ]
