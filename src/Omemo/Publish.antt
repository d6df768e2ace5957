-- ===== src/Omemo/Publish.antt =====
-- The bundle that the account publishes: make_local_bundle_metadata and load_bundle
-- (src/omemo/internal_signal_store.inl) and get_axolotl_bundle (src/omemo/lifecycle.inl), with the
-- identity and the registration id made before. WeeChat's base64 is the
-- parameter `encode`, which returns no byte if it fails.
pub mod Fields
pub mod Listed
pub mod Rotation
pub mod Renewed
mod Tests
use weechat_xmpp_improved.Prelude.{
  cut_at, ℕ, ◌≡◌, Bool, true, false, not, ◌&&◌, ◌||◌, Option, none, some, List, [], ◌∷◌, ◌++◌,
  Bytes, codes, bytes_eq, ltb, ◌==◌, if◌then◌else◌, length,
}
use weechat_xmpp_improved.Omemo.Text.{split, parse_uint32, is_valid_omemo_device_id}
use weechat_xmpp_improved.Omemo.Bundle.{BundleMetadata, serialize_bundle, deserialize_bundle}
use weechat_xmpp_improved.Omemo.Store.{Kv, key_for_bundle}
use weechat_xmpp_improved.Omemo.Trust.{is_empty}
use weechat_xmpp_improved.Omemo.Prekeys.{
  Signal, Generation, k_signed_pre_key_id, k_signed_pre_key_public, k_signed_pre_key_signature,
  k_identity_public_key, k_prekeys, value_or, ensure_prekeys,
}

abbrev pub is_none {ℓ} : {A : Type ℓ} → Option A → Bool
is_none none = true
is_none (some a) = false

abbrev pub k_min_pre_key_count : ℕ
k_min_pre_key_count = 25

pub has_id : Bytes → List (Bytes × Bytes) → Bool
has_id id [] = false
has_id id ((other, key) ∷ ps) = bytes_eq other id || has_id id ps

-- The loop over the entries of the index: an entry without a comma is skipped, a bad number, an
-- empty key and a number that is there already end it without a bundle.
unfoldable pub read_entries : List Bytes → List (Bytes × Bytes) → Option (List (Bytes × Bytes))
unfolding has_id
read_entries [] prekeys = some prekeys
read_entries (entry ∷ entries) prekeys = elim (cut_at b',' entry) [
  | none ↦ read_entries entries prekeys
  | some (id, key) ↦
      let rest = read_entries entries (prekeys ++ ((id, key) ∷ [])) in
      if is_none (parse_uint32 id) || is_empty key || has_id id prekeys then none else rest
]

unfoldable pub base64_encode_raw : (Bytes → Bytes) → Bytes → Bytes
base64_encode_raw encode s = if is_empty s then [] else encode s

-- What is published of a local bundle.
unfoldable pub published : ℕ → Option BundleMetadata → Option BundleMetadata
published device_id none = none
published device_id (some b) =
    if not (is_valid_omemo_device_id device_id)
      || value_or (parse_uint32 b.signed_pre_key_id) 0 == 0
      || ltb (length b.prekeys) k_min_pre_key_count
    then none
    else some b

module _ (kv : Kv) (encode : Bytes → Bytes) where
  open kv use {Db, get, put}

  -- The fields of the bundle but the prekeys, unless one is missing or bad.
  unfoldable pub local_fields : Db → Option BundleMetadata
  local_fields d = elim (get k_signed_pre_key_id d) [
    | none ↦ none
    | some spk_id ↦ elim (get k_signed_pre_key_public d) [
      | none ↦ none
      | some public ↦ elim (get k_signed_pre_key_signature d) [
        | none ↦ none
        | some signature ↦ elim (get k_identity_public_key d) [
          | none ↦ none
          | some identity ↦
              if is_none (parse_uint32 spk_id)
                || is_empty (base64_encode_raw encode public)
                || is_empty (base64_encode_raw encode signature)
                || is_empty (base64_encode_raw encode identity)
              then none
              else some (record {
                signed_pre_key_id = spk_id;
                signed_pre_key = base64_encode_raw encode public;
                signed_pre_key_signature = base64_encode_raw encode signature;
                identity_key = base64_encode_raw encode identity;
                prekeys = [];
              })
        ]
      ]
    ]
  ]

  -- A bundle with a prekey is stored.
  unfoldable pub store_local : ℕ → BundleMetadata → Db → Db × Option BundleMetadata
  store_local device_id b d =
      if elim b.prekeys [ [] ↦ true | p ∷ ps ↦ false ]
      then (d, none)
      else (put (key_for_bundle (codes "self") device_id) (serialize_bundle b) d, some b)

  unfoldable pub make_local_bundle_metadata : ℕ → Db → Db × Option BundleMetadata
  make_local_bundle_metadata device_id d = elim (get k_prekeys d) [
    | none ↦ (d, none)
    | some index ↦ elim (local_fields d) [
      | none ↦ (d, none)
      | some b ↦ elim (read_entries (split index b';') []) [
        | none ↦ (d, none)
        | some prekeys ↦ store_local device_id (record b { prekeys = prekeys }) d
      ]
    ]
  ]

  unfoldable pub load_bundle : Bytes → ℕ → Db → Option BundleMetadata
  load_bundle jid remote_device_id d = elim (get (key_for_bundle jid remote_device_id) d) [
    | none ↦ none
    | some serialized ↦ some (deserialize_bundle serialized)
  ]

  module _ (signal : Signal) where
    open signal use {PreKey}

    unfoldable pub get_axolotl_bundle :
        ℕ
        → ℕ
        → Generation
        → Generation
        → (ℕ → Option (List PreKey))
        → Db
        → Db × Option BundleMetadata
    get_axolotl_bundle device_id now rotation first generate d =
        let made = ensure_prekeys kv signal now rotation first generate d in
        let local = make_local_bundle_metadata device_id made.0 in
        (local.0, published device_id local.1)
