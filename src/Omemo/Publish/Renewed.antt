-- ===== src/Omemo/Publish/Renewed.antt =====
-- The bundle that is published after a due rotation of the signed prekey.
use mathlib.Core.List.{map-append}
use weechat_xmpp_improved.Prelude.{
  ℕ, ◌≤◌, ◌<◌, ◌≡◌, ◌≢◌, refl, sym, ap, ◌∙◌, true, false, Option, none, some, List, [], ◌∷◌, ◌++◌,
  map, Bytes, codes, bytes_eq, if◌then◌else◌, length, length-map, All, All-append, to_string,
  u32_mod, append_assoc, append-nil, arith,
}
use weechat_xmpp_improved.Omemo.Text.{
  split, join, is_valid_omemo_device_id, parse_uint32-to_string, split-join,
}
use weechat_xmpp_improved.Omemo.Bundle.{BundleMetadata, serialize_bundle}
use weechat_xmpp_improved.Omemo.Store.{Kv, key_for_bundle}
use weechat_xmpp_improved.Omemo.Trust.{is_empty}
use weechat_xmpp_improved.Omemo.Prekeys.{
  Signal, SignedPreKey, Generation, k_signed_pre_key_id, k_signed_pre_key_public,
  k_signed_pre_key_signature, k_signed_pre_key_timestamp, k_identity_public_key, k_prekeys,
  key_for_prekey_record, should_rotate, stored_number, start_id, ensure_prekeys,
}
use weechat_xmpp_improved.Omemo.Prekeys.Backed.{entry, Distinct, key_other, entries-IsPart}
use weechat_xmpp_improved.Omemo.Prekeys.Batch.{AllSerialize, kept_all}
use weechat_xmpp_improved.Omemo.Publish.{
  has_id, read_entries, base64_encode_raw, local_fields, store_local, make_local_bundle_metadata,
  published, get_axolotl_bundle,
}
use weechat_xmpp_improved.Omemo.Publish.Listed.{pair, cut_at-entry}
use weechat_xmpp_improved.Omemo.Publish.Rotation.{
  next_spk_id_bounds, store_spk-get, next_number, prev_max_id, store_spk-fields, ensured_get,
  ensured_index,
}

published_lem :
    (device_id : ℕ) (b : BundleMetadata) (n : ℕ)
    → is_valid_omemo_device_id device_id ≡ true
    → b.signed_pre_key_id ≡ to_string n
    → n < u32_mod
    → 0 < n
    → 25 ≤ length b.prekeys
    → published device_id (some b) ≡ some b
unfolding published
published_lem device_id b n valid is lt pos many =
    rw (valid, is, parse_uint32-to_string n lt) (ground arith)

module _ (kv : Kv) (encode : Bytes → Bytes) (signal : Signal) where
  open kv use {Db, get, put}
  open signal use {PreKey, id, public_key, id_lt, serialize}

  has_id_other :
      (k : PreKey) (done : List PreKey)
      → All (λ o. id o ≢ id k) done
      → has_id (to_string (id k)) (map (pair kv encode signal) done) ≡ false
  unfolding has_id
  has_id_other k [] h = refl
  has_id_other k (o ∷ done) (ne, h) =
      rw (key_other kv signal (id o) (id k) (id_lt o) (id_lt k) ne, has_id_other k done h) refl

  read_entries-entries :
      (ks done : List PreKey)
      → Distinct kv signal ks
      → All (λ k. All (λ o. id o ≢ id k) done) ks
      → All (λ k. is_empty (public_key k) ≡ false) ks
      → read_entries (map (entry kv signal) ks) (map (pair kv encode signal) done)
        ≡ some (map (pair kv encode signal) (done ++ ks))
  unfolding read_entries
  read_entries-entries [] done ne off full =
      ap (λ l. some (map (pair kv encode signal) l)) (sym (append-nil done))
  read_entries-entries (k ∷ ks) done (n, ne) (o, off) (f, full) =
      rw (cut_at-entry kv encode signal k, read_entries)
        (rw (parse_uint32-to_string (id k) (id_lt k), f, has_id_other k done o)
          (ap (read_entries (map (entry kv signal) ks))
              (sym (map-append (pair kv encode signal) done (k ∷ [])))
            ∙ read_entries-entries ks (done ++ (k ∷ [])) ne (more ks n off) full
            ∙ ap (λ l. some (map (pair kv encode signal) l)) (append_assoc done (k ∷ []) ks)))
    where
      more :
          (qs : List PreKey)
          → All (λ q. id q ≢ id k) qs
          → All (λ q. All (λ o. id o ≢ id q) done) qs
          → All (λ q. All (λ o. id o ≢ id q) (done ++ (k ∷ []))) qs
      more [] a b = tt
      more (q ∷ qs) (a, as_) (b, bs) =
          (All-append (λ o. id o ≢ id q) done (k ∷ []) b ((λ e. a (sym e), tt)), more qs as_ bs)

  -- The fields of the bundle after a rotation, whatever else was written behind it.
  local_fields_lem :
      (n : ℕ) (spk : SignedPreKey) (identity : Bytes) (d : Db)
      → n < u32_mod
      → get k_signed_pre_key_id d ≡ some (to_string n)
      → get k_signed_pre_key_public d ≡ some spk.public_key
      → get k_signed_pre_key_signature d ≡ some spk.signature
      → get k_identity_public_key d ≡ some identity
      → is_empty (base64_encode_raw encode spk.public_key) ≡ false
      → is_empty (base64_encode_raw encode spk.signature) ≡ false
      → is_empty (base64_encode_raw encode identity) ≡ false
      → local_fields kv encode d
        ≡ some (record {
          signed_pre_key_id = to_string n;
          signed_pre_key = base64_encode_raw encode spk.public_key;
          signed_pre_key_signature = base64_encode_raw encode spk.signature;
          identity_key = base64_encode_raw encode identity;
          prekeys = [];
        })
  unfolding local_fields
  local_fields_lem n spk identity d lt a b c e f g h =
      rw (a, b, c, e, local_fields) (rw (parse_uint32-to_string n lt, f, g, h) refl)

  store_local_lem :
      (device_id : ℕ) (b : BundleMetadata) (d : Db)
      → 0 < length b.prekeys
      → (store_local kv encode device_id b d).1 ≡ some b
  unfolding store_local
  store_local_lem device_id b d h = go b.prekeys h
    where
      go :
          (ps : List (Bytes × Bytes))
          → 0 < length ps
          → (if elim ps [ [] ↦ true | p ∷ qs ↦ false ]
              then (let r : Db × Option BundleMetadata = (d, none) in r)
              else (put (key_for_bundle (codes "self") device_id) (serialize_bundle b) d, some b)).1
            ≡ some b
      go [] h = absurd (omega arith)
      go (p ∷ ps) h = refl

  make_local_lem :
      (device_id : ℕ) (b : BundleMetadata) (ks : List PreKey) (d : Db)
      → get k_prekeys d ≡ some (join (map (entry kv signal) ks) (b';' ∷ []))
      → local_fields kv encode d ≡ some b
      → Distinct kv signal ks
      → All (λ k. is_empty (public_key k) ≡ false) ks
      → 0 < length ks
      → (make_local_bundle_metadata kv encode device_id d).1
        ≡ some (record b { prekeys = map (pair kv encode signal) ks })
  unfolding make_local_bundle_metadata
  make_local_lem device_id b ks d index fields ne full some_key =
      let parts : split (join (map (entry kv signal) ks) (b';' ∷ [])) b';'
          ≡ map (entry kv signal) ks =
        split-join b';' (map (entry kv signal) ks) (entries-IsPart kv signal ks) in
      let reads =
        ap (λ l. read_entries l []) parts ∙ read_entries-entries ks [] ne (each ks) full in
      rw (index, fields, make_local_bundle_metadata)
        (rw (reads, make_local_bundle_metadata)
          (store_local_lem device_id (record b { prekeys = map (pair kv encode signal) ks }) d
            (rw (length-map (pair kv encode signal) ks) some_key)))
    where
      each : (qs : List PreKey) → All (λ q. All (λ o. id o ≢ id q) []) qs
      each [] = tt
      each (q ∷ qs) = (tt, each qs)

  -- A due rotation publishes a bundle of the new signed prekey and of the new prekeys, if libsignal
  -- makes them with different numbers, at least 25, and all serialize and have a public key, the
  -- identity is stored, base64 does not fail and the device has a number.
  pub get_axolotl_bundle_rotation :
      (device_id now : ℕ) (rotation first : Generation) (generate : ℕ → Option (List PreKey))
      (d : Db) (spk : SignedPreKey) (identity : Bytes) (ks : List PreKey)
      → should_rotate now (get k_signed_pre_key_timestamp d) ≡ true
      → rotation.signed (next_number kv d) ≡ some spk
      → generate (start_id (prev_max_id kv d)) ≡ some ks
      → Distinct kv signal ks
      → AllSerialize kv signal ks
      → All (λ k. is_empty (public_key k) ≡ false) ks
      → 25 ≤ length ks
      → get k_identity_public_key d ≡ some identity
      → is_empty (base64_encode_raw encode spk.public_key) ≡ false
      → is_empty (base64_encode_raw encode spk.signature) ≡ false
      → is_empty (base64_encode_raw encode identity) ≡ false
      → is_valid_omemo_device_id device_id ≡ true
      → (get_axolotl_bundle kv encode signal device_id now rotation first generate d).1
        ≡ some (record {
          signed_pre_key_id = to_string (next_number kv d);
          signed_pre_key = base64_encode_raw encode spk.public_key;
          signed_pre_key_signature = base64_encode_raw encode spk.signature;
          identity_key = base64_encode_raw encode identity;
          prekeys = map (pair kv encode signal) ks;
        })
  unfolding get_axolotl_bundle
  get_axolotl_bundle_rotation device_id now rotation first generate d spk identity ks due signs
        makes ne ser full many found a b c valid =
      let ensured = (ensure_prekeys kv signal now rotation first generate d).0 in
      let at = ensured_get kv signal now rotation first generate d spk ks due signs makes in
      let fields = store_spk-fields kv signal rotation.now (next_number kv d) spk d in
      let bounds = next_spk_id_bounds (stored_number (get k_signed_pre_key_id d) 0) in
      let index =
        ensured_index kv signal now rotation first generate d spk ks due signs makes
        ∙ ap (λ l. some (join (map (entry kv signal) l) (b';' ∷ []))) (kept_all kv signal ks ser) in
      let read =
        local_fields_lem (next_number kv d) spk identity ensured (omega arith)
          (at k_signed_pre_key_id refl refl (each k_signed_pre_key_id ks (λ k. refl)) ∙ fields.0)
          (at k_signed_pre_key_public refl refl (each k_signed_pre_key_public ks (λ k. refl))
            ∙ fields.1)
          (at k_signed_pre_key_signature refl refl (each k_signed_pre_key_signature ks (λ k. refl))
            ∙ fields.2)
          (at k_identity_public_key refl refl (each k_identity_public_key ks (λ k. refl))
            ∙ store_spk-get kv signal rotation.now (next_number kv d) spk d k_identity_public_key
                refl refl refl refl refl refl
            ∙ found)
          a b c in
      ap (published device_id)
        (make_local_lem device_id _ ks ensured index read ne full (omega arith))
      ∙ published_lem device_id _ (next_number kv d) valid refl (omega arith) (omega arith)
          (rw (length-map (pair kv encode signal) ks) many)
    where
      each :
          (j : Bytes) (qs : List PreKey)
          → ((k : PreKey) → bytes_eq (key_for_prekey_record (id k)) j ≡ false)
          → All (λ k. bytes_eq (key_for_prekey_record (id k)) j ≡ false) qs
      each j [] h = tt
      each j (q ∷ qs) h = (h q, each j qs h)
