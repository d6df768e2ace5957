-- ===== src/Omemo/Publish/Fields.antt =====
-- The fields of a local bundle fit their lines.
use mathlib.Core.Path.{subst}
use weechat_xmpp_improved.Prelude.{
  ℕ, ◌+◌, ◌*◌, ◌-◌, ◌≡◌, refl, inl, inr, Bool, true, false, ◌||◌, none, some, [], ◌∷◌, Bytes, ltb,
  if◌then◌else◌, is_digit, read_digits, u32_mod, Bool-cases, Option-cases, if-cases, arith,
}
use weechat_xmpp_improved.Omemo.Text.{Lacks, parse_uint32}
use weechat_xmpp_improved.Omemo.Bundle.{BundleMetadata, IsPrintable}
use weechat_xmpp_improved.Omemo.Store.{Kv}
use weechat_xmpp_improved.Omemo.Trust.{is_empty}
use weechat_xmpp_improved.Omemo.Prekeys.{
  k_signed_pre_key_id, k_signed_pre_key_public, k_signed_pre_key_signature, k_identity_public_key,
  is_base64,
}
use weechat_xmpp_improved.Omemo.Publish.{is_none, base64_encode_raw, local_fields}

-- The text of a number has digits alone.
read_digits-Lacks :
    (sep n : ℕ) (s : Bytes) → is_digit sep ≡ false → (read_digits n s).1 ≡ [] → Lacks sep s
unfolding read_digits
read_digits-Lacks sep n [] h e = tt
read_digits-Lacks sep n (c ∷ s) h e = ground (arith, read_digits-Lacks sep (n * 10 + (c - b'0')) s)

parse_uint32-Lacks :
    (sep : ℕ) (s : Bytes) → is_digit sep ≡ false → is_none (parse_uint32 s) ≡ false → Lacks sep s
unfolding parse_uint32
parse_uint32-Lacks sep [] h e = tt
parse_uint32-Lacks sep (c ∷ s) h e = elim (Bool-cases (is_digit c)) [
  | inl d ↦ read_digits-Lacks sep 0 (c ∷ s) h (rest_nil (read_digits 0 (c ∷ s)) (rw d at e))
  | inr d ↦ absurd (ground arith)
]
  where
    rest_nil :
        (r : ℕ × Bytes)
        → is_none (elim r.1 [ [] ↦ if ltb r.0 u32_mod then some r.0 else none | d ∷ t ↦ none ])
          ≡ false
        → r.1 ≡ []
    rest_nil (n, []) q = refl
    rest_nil (n, d ∷ t) q = cc

-- WeeChat's base64 writes characters of base64 alone.
abbrev pub WritesBase64 : (Bytes → Bytes) → Type 0
WritesBase64 encode = (s : Bytes) (c : ℕ) → is_base64 c ≡ false → Lacks c (encode s)

base64_encode_raw-Lacks :
    (encode : Bytes → Bytes)
    → WritesBase64 encode
    → (s : Bytes) → Lacks b'\n' (base64_encode_raw encode s)
unfolding base64_encode_raw
base64_encode_raw-Lacks encode w s =
    if-cases (Lacks b'\n') (is_empty s) [] (encode s) (λ e. tt) (λ e. w s b'\n' refl)

module _ (kv : Kv) (encode : Bytes → Bytes) where
  open kv use {Db, get}

  pub local_fields-IsPrintable :
      (d : Db) (b : BundleMetadata)
      → WritesBase64 encode
      → local_fields kv encode d ≡ some b
      → IsPrintable b
  unfolding local_fields
  local_fields-IsPrintable d b w e = elim (Option-cases (get k_signed_pre_key_id d)) [
    | inl q ↦ absurd (ground arith)
    | inr (i, qi) ↦ elim (Option-cases (get k_signed_pre_key_public d)) [
      | inl q ↦ absurd (ground arith)
      | inr (p, qp) ↦ elim (Option-cases (get k_signed_pre_key_signature d)) [
        | inl q ↦ absurd (ground arith)
        | inr (s, qs) ↦ elim (Option-cases (get k_identity_public_key d)) [
          | inl q ↦ absurd (ground arith)
          | inr (k, qk) ↦
              fields i p s k
                (is_none (parse_uint32 i)
                  || is_empty (base64_encode_raw encode p)
                  || is_empty (base64_encode_raw encode s)
                  || is_empty (base64_encode_raw encode k))
                (λ q. or_false _ _ (or_false _ _ (or_false _ _ q)))
                (rw (qi, qp, qs, qk, local_fields) at e)
        ]
      ]
    ]
  ]
    where
      or_false : (x y : Bool) → (x || y) ≡ false → x ≡ false
      or_false false y q = refl
      or_false true y q = q

      fields :
          (i p s k : Bytes) (bad : Bool)
          → (bad ≡ false → is_none (parse_uint32 i) ≡ false)
          → (if bad
              then none
              else some (record {
                signed_pre_key_id = i;
                signed_pre_key = base64_encode_raw encode p;
                signed_pre_key_signature = base64_encode_raw encode s;
                identity_key = base64_encode_raw encode k;
                prekeys = [];
              }))
            ≡ some b
          → IsPrintable b
      fields i p s k true has q = cc
      fields i p s k false has q =
          let made : BundleMetadata = record {
            signed_pre_key_id = i;
            signed_pre_key = base64_encode_raw encode p;
            signed_pre_key_signature = base64_encode_raw encode s;
            identity_key = base64_encode_raw encode k;
            prekeys = [];
          } in
          let eq : made ≡ b = cc in
          subst IsPrintable eq (record {
            id = parse_uint32-Lacks b'\n' i refl (has refl);
            key = base64_encode_raw-Lacks encode w p;
            signature = base64_encode_raw-Lacks encode w s;
            identity = base64_encode_raw-Lacks encode w k;
            prekeys = tt;
          })
