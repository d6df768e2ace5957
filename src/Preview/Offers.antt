-- ===== src/Preview/Offers.antt =====
-- What a meta tag offers for a preview, and the first offer that is not empty.
use weechat_xmpp_improved.Prelude.{
  ◌≡◌, refl, sym, Bool, true, ◌&&◌, List, [], ◌∷◌, Bytes, codes, bytes_eq, bytes_eq_iff,
  if◌then◌else◌,
}
use weechat_xmpp_improved.Preview.Page.{Preview, is_http}

abbrev pub keep : Bytes → Bytes → Bytes
keep [] new = new
keep (c ∷ s) new = c ∷ s

-- The first text that is not empty.
abbrev pub first_offer : List Bytes → Bytes
first_offer [] = []
first_offer (a ∷ texts) = keep a (first_offer texts)

abbrev pub keep_all : Preview → Preview → Preview
keep_all p q = record {
  title = keep p.title q.title;
  description = keep p.description q.description;
  url = keep p.url q.url;
  image = keep p.image q.image;
}

pub keep-nil : (s : Bytes) → keep s [] ≡ s
keep-nil [] = refl
keep-nil (c ∷ s) = refl

pub keep_assoc : (a b c : Bytes) → keep (keep a b) c ≡ keep a (keep b c)
keep_assoc [] b c = refl
keep_assoc (x ∷ a) b c = refl

abbrev pub when : Bool → Bytes → Bytes
when b s = if b then s else []

-- What a tag of OpenGraph offers.
abbrev pub graph_offer : Bytes → Bytes → Preview
graph_offer prop content = record {
  title = when (bytes_eq prop (codes "og:title")) content;
  description = when (bytes_eq prop (codes "og:description")) content;
  url = when (bytes_eq prop (codes "og:url")) content;
  image = when (bytes_eq prop (codes "og:image") && is_http content) content;
}

-- What another tag offers.
abbrev pub card_offer : Bytes → Bytes → Preview
card_offer name content = record {
  title = when (bytes_eq name (codes "twitter:title")) content;
  description =
      if bytes_eq name (codes "twitter:description")
      then content
      else when (bytes_eq name (codes "description")) content;
  url = [];
  image = when (bytes_eq name (codes "twitter:image") && is_http content) content;
}

pub bytes_eq-true : (a b : Bytes) → bytes_eq a b ≡ true → b ≡ a
bytes_eq-true a b e = sym ((bytes_eq_iff a b).0 e)
