-- ===== src/Omemo/Tests.antt =====
-- The text functions of the OMEMO component at inputs.
use weechat_xmpp_improved.Prelude.{
  ◌%◌, ◌≡◌, ◌↔◌, refl, none, some, [], ◌∷◌, codes, arith, length, read_digits,
}
use weechat_xmpp_improved.Omemo.Text.{split, parse_uint32}
use weechat_xmpp_improved.Omemo.Padding.{
  pkcs7_pad, pkcs7_unpad, IsPadded, pkcs7_unpad-pkcs7_pad, pkcs7_unpad_iff, back, all_are,
}
use weechat_xmpp_improved.Omemo.Bundle.{
  BundleMetadata, IsPrintable, serialize_bundle, deserialize_bundle,
  deserialize_bundle-serialize_bundle,
}

split_skips : split (codes ";;1;;23;") b';' ≡ codes "1" ∷ codes "23" ∷ []
unfolding split
split_skips = refl

parsed :
    (parse_uint32 (codes "4294967295") ≡ some 4294967295)
    × (parse_uint32 (codes "4294967296") ≡ none)
    × (parse_uint32 (codes "+1") ≡ none)
    × (parse_uint32 (codes "1 ") ≡ none)
unfolding parse_uint32 read_digits
parsed = (refl, refl, refl, refl)

unpadded :
    (pkcs7_unpad (1 ∷ 2 ∷ 2 ∷ []) ≡ some (1 ∷ []))
    × (pkcs7_unpad (3 ∷ 3 ∷ []) ≡ none)
    × (pkcs7_unpad (1 ∷ 0 ∷ []) ≡ none)
unfolding pkcs7_unpad back all_are
unpadded = (refl, refl, refl)

pkcs7_unpad_iff_example :
    (pkcs7_unpad (1 ∷ 2 ∷ 2 ∷ []) ≡ some (1 ∷ [])) ↔ IsPadded (1 ∷ 2 ∷ 2 ∷ []) (1 ∷ [])
pkcs7_unpad_iff_example = pkcs7_unpad_iff (1 ∷ 2 ∷ 2 ∷ []) (1 ∷ [])

pkcs7_unpad-pkcs7_pad_example :
    (length (pkcs7_pad (codes "abc") 16) % 16 ≡ 0)
    × (pkcs7_unpad (pkcs7_pad (codes "abc") 16) ≡ some (codes "abc"))
pkcs7_unpad-pkcs7_pad_example = pkcs7_unpad-pkcs7_pad (codes "abc") 16 (omega arith) (omega arith)

abbrev bundle : BundleMetadata
bundle = record {
  signed_pre_key_id = codes "1";
  signed_pre_key = codes "k=";
  signed_pre_key_signature = codes "s";
  identity_key = [];
  prekeys = (codes "7", codes "a,b") ∷ (codes "8", codes "c") ∷ [];
}

bundle-IsPrintable : IsPrintable bundle
bundle-IsPrintable = record {
  id = (refl, tt);
  key = (refl, (refl, tt));
  signature = (refl, tt);
  identity = tt;
  prekeys = (
    ((refl, tt), (refl, tt), (refl, (refl, (refl, tt)))),
    (((refl, tt), (refl, tt), (refl, tt)), tt),
  );
}

deserialize_bundle-serialize_bundle_example : deserialize_bundle (serialize_bundle bundle) ≡ bundle
deserialize_bundle-serialize_bundle_example =
    deserialize_bundle-serialize_bundle bundle bundle-IsPrintable
