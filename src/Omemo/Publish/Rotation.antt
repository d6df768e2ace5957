-- ===== src/Omemo/Publish/Rotation.antt =====
-- A due rotation of the signed prekey, from the clock to the bundle that is published.
use weechat_xmpp_improved.Prelude.{
  ℕ, ◌≤◌, ◌<◌, ◌≡◌, ◌≢◌, refl, sym, ap, ◌∙◌, true, false, Option, some, List, [], ◌∷◌, map, Bytes,
  bytes_eq, bytes_eq_iff, All, to_string, u32_mod, arith,
}
use weechat_xmpp_improved.Omemo.Text.{join}
use weechat_xmpp_improved.Omemo.Store.{Kv}
use weechat_xmpp_improved.Omemo.Prekeys.{
  Signal, SignedPreKey, Generation, k_signed_pre_key_id, k_signed_pre_key_record,
  k_signed_pre_key_public, k_signed_pre_key_signature, k_signed_pre_key_timestamp, k_prekeys,
  k_max_pre_key_id, k_max_omemo_device_id, key_for_prekey_record, key_for_signed_prekey_record,
  should_rotate, stored_number, next_spk_id, start_id, store_spk, generate_and_store_spk,
  rotate_signed_prekey_if_due, store_prekeys, regenerate_from, regenerate, after_rotation,
  generate_first, ensure_prekeys,
}
use weechat_xmpp_improved.Omemo.Prekeys.Backed.{entry, key_other, get-put_same, get-put_other}
use weechat_xmpp_improved.Omemo.Prekeys.Batch.{
  Off, Off-keys, kept, store_prekeys-entries, store_prekeys_other,
}

-- A number of a signed prekey is never 0 nor past the last one.
pub next_spk_id_bounds : (c : ℕ) → (1 ≤ next_spk_id c) × (next_spk_id c ≤ k_max_omemo_device_id)
unfolding next_spk_id
next_spk_id_bounds c = ground arith

module _ (kv : Kv) where
  open kv use {Db, get}

  -- The number that a rotation gives to the new signed prekey.
  abbrev pub next_number : Db → ℕ
  next_number d = next_spk_id (stored_number (get k_signed_pre_key_id d) 0)

  -- The highest number that a prekey was given.
  abbrev pub prev_max_id : Db → ℕ
  prev_max_id d = stored_number (get k_max_pre_key_id d) 0

module _ (kv : Kv) (signal : Signal) where
  open kv use {Db, get, put}
  open signal use {PreKey, id, public_key, id_lt}

  pub store_spk-get :
      (now n : ℕ) (spk : SignedPreKey) (d : Db) (j : Bytes)
      → bytes_eq k_signed_pre_key_timestamp j ≡ false
      → bytes_eq k_signed_pre_key_signature j ≡ false
      → bytes_eq k_signed_pre_key_public j ≡ false
      → bytes_eq (key_for_signed_prekey_record n) j ≡ false
      → bytes_eq k_signed_pre_key_record j ≡ false
      → bytes_eq k_signed_pre_key_id j ≡ false
      → get j (store_spk kv signal now n spk d) ≡ get j d
  unfolding store_spk
  store_spk-get now n spk d j a b c e f g =
      get-put_other kv signal k_signed_pre_key_timestamp j _ _ a
      ∙ get-put_other kv signal k_signed_pre_key_signature j _ _ b
      ∙ get-put_other kv signal k_signed_pre_key_public j _ _ c
      ∙ get-put_other kv signal (key_for_signed_prekey_record n) j _ _ e
      ∙ get-put_other kv signal k_signed_pre_key_record j _ _ f
      ∙ get-put_other kv signal k_signed_pre_key_id j _ _ g

  pub store_spk-fields :
      (now n : ℕ) (spk : SignedPreKey) (d : Db)
      → (get k_signed_pre_key_id (store_spk kv signal now n spk d) ≡ some (to_string n))
        × (get k_signed_pre_key_public (store_spk kv signal now n spk d) ≡ some spk.public_key)
        × (get k_signed_pre_key_signature (store_spk kv signal now n spk d) ≡ some spk.signature)
  unfolding store_spk
  store_spk-fields now n spk d = (
    get-put_other kv signal k_signed_pre_key_timestamp k_signed_pre_key_id _ _ refl
        ∙ get-put_other kv signal k_signed_pre_key_signature k_signed_pre_key_id _ _ refl
        ∙ get-put_other kv signal k_signed_pre_key_public k_signed_pre_key_id _ _ refl
        ∙ get-put_other kv signal (key_for_signed_prekey_record n) k_signed_pre_key_id _ _ refl
        ∙ get-put_other kv signal k_signed_pre_key_record k_signed_pre_key_id _ _ refl
        ∙ get-put_same kv signal k_signed_pre_key_id k_signed_pre_key_id _ _ refl,
    get-put_other kv signal k_signed_pre_key_timestamp k_signed_pre_key_public _ _ refl
        ∙ get-put_other kv signal k_signed_pre_key_signature k_signed_pre_key_public _ _ refl
        ∙ get-put_same kv signal k_signed_pre_key_public k_signed_pre_key_public _ _ refl,
    get-put_other kv signal k_signed_pre_key_timestamp k_signed_pre_key_signature _ _ refl
        ∙ get-put_same kv signal k_signed_pre_key_signature k_signed_pre_key_signature _ _ refl,
  )

  -- The database with a new batch.
  abbrev pub with_batch : List PreKey → ℕ → Db → Db
  with_batch ks prev_max d =
      let r = store_prekeys kv signal ks prev_max d in
      put k_max_pre_key_id (to_string r.2) (put k_prekeys (join r.1 (b';' ∷ [])) r.0)

  regenerate_from_lem :
      (generate : ℕ → Option (List PreKey)) (ks : List PreKey) (prev_max : ℕ) (d : Db)
      → generate (start_id prev_max) ≡ some ks
      → regenerate_from kv signal prev_max generate d ≡ (with_batch ks prev_max d, true)
  unfolding regenerate_from
  regenerate_from_lem generate ks prev_max d e = rw (e, regenerate_from) refl

  generate_first_lem :
      (g : Generation) (generate : ℕ → Option (List PreKey)) (r : Bytes) (d : Db)
      → get k_signed_pre_key_record d ≡ some r
      → generate_first kv signal g generate d ≡ regenerate kv signal generate d
  unfolding generate_first
  generate_first_lem g generate r d e = rw (e, generate_first) refl

  module _ (now : ℕ) (rotation first : Generation) (generate : ℕ → Option (List PreKey)) (d : Db)
      (spk : SignedPreKey) (ks : List PreKey)
      (due : should_rotate now (get k_signed_pre_key_timestamp d) ≡ true)
      (signs : rotation.signed (next_number kv d) ≡ some spk)
      (makes : generate (start_id (prev_max_id kv d)) ≡ some ks) where
    abbrev pub signed_db : Db
    signed_db = store_spk kv signal rotation.now (next_number kv d) spk d

    abbrev pub rotated_db : Db
    rotated_db = with_batch ks (prev_max_id kv d) signed_db

    rotate_due : rotate_signed_prekey_if_due kv signal now rotation d ≡ (signed_db, true)
    unfolding rotate_signed_prekey_if_due generate_and_store_spk
    rotate_due = rw due (rw (signs, generate_and_store_spk) refl)

    pub signed_max : get k_max_pre_key_id signed_db ≡ get k_max_pre_key_id d
    signed_max =
        store_spk-get rotation.now (next_number kv d) spk d k_max_pre_key_id refl refl refl refl
          refl refl

    signed_record : get k_signed_pre_key_record signed_db ≡ some spk.bytes
    unfolding store_spk
    signed_record =
        get-put_other kv signal k_signed_pre_key_timestamp k_signed_pre_key_record _ _ refl
        ∙ get-put_other kv signal k_signed_pre_key_signature k_signed_pre_key_record _ _ refl
        ∙ get-put_other kv signal k_signed_pre_key_public k_signed_pre_key_record _ _ refl
        ∙ get-put_other kv signal (key_for_signed_prekey_record (next_number kv d))
            k_signed_pre_key_record _ _ refl
        ∙ get-put_same kv signal k_signed_pre_key_record k_signed_pre_key_record _ _ refl

    regenerate_signed : regenerate kv signal generate signed_db ≡ (rotated_db, true)
    unfolding regenerate
    regenerate_signed =
        ap (λ o. regenerate_from kv signal (stored_number o 0) generate signed_db) signed_max
        ∙ regenerate_from_lem generate ks (prev_max_id kv d) signed_db makes

    pub ensure_prekeys_due :
        ensure_prekeys kv signal now rotation first generate d ≡ (rotated_db, true)
    unfolding ensure_prekeys after_rotation
    ensure_prekeys_due =
        ap (after_rotation kv signal first generate) rotate_due
        ∙ generate_first_lem first generate spk.bytes signed_db signed_record
        ∙ regenerate_signed

    pub kept_after :
        (j : Bytes)
        → bytes_eq k_max_pre_key_id j ≡ false
        → bytes_eq k_prekeys j ≡ false
        → All (λ k. bytes_eq (key_for_prekey_record (id k)) j ≡ false) ks
        → get j rotated_db ≡ get j signed_db
    kept_after j a b h =
        get-put_other kv signal k_max_pre_key_id j _ _ a
        ∙ get-put_other kv signal k_prekeys j _ _ b
        ∙ store_prekeys_other kv signal ks (prev_max_id kv d) signed_db j h

    pub ensured_get :
        (j : Bytes)
        → bytes_eq k_max_pre_key_id j ≡ false
        → bytes_eq k_prekeys j ≡ false
        → All (λ k. bytes_eq (key_for_prekey_record (id k)) j ≡ false) ks
        → get j (ensure_prekeys kv signal now rotation first generate d).0 ≡ get j signed_db
    ensured_get j a b h = ap (λ r. get j r.0) ensure_prekeys_due ∙ kept_after j a b h

    pub ensured_index :
        get k_prekeys (ensure_prekeys kv signal now rotation first generate d).0
        ≡ some (join (map (entry kv signal) (kept kv signal ks)) (b';' ∷ []))
    ensured_index =
        ap (λ r. get k_prekeys r.0) ensure_prekeys_due
        ∙ get-put_other kv signal k_max_pre_key_id k_prekeys _ _ refl
        ∙ get-put_same kv signal k_prekeys k_prekeys _ _ refl
        ∙ ap (λ l. some (join l (b';' ∷ [])))
            (store_prekeys-entries kv signal ks (prev_max_id kv d) signed_db)

    -- A due rotation keeps every signed prekey of another number and every prekey whose number is
    -- not given again, so that what peers hold of them can still be answered; the new signed prekey
    -- is stored under its number.
    pub ensure_prekeys-keeps :
        ((m : ℕ)
          → m < u32_mod
          → Off kv signal m ks
          → get (key_for_prekey_record m) (ensure_prekeys kv signal now rotation first generate d).0
            ≡ get (key_for_prekey_record m) d)
        × ((m : ℕ)
            → m < u32_mod
            → m ≢ (next_number kv d)
            → get
                (key_for_signed_prekey_record m)
                (ensure_prekeys kv signal now rotation first generate d).0
              ≡ get (key_for_signed_prekey_record m) d)
        × (get
              (key_for_signed_prekey_record (next_number kv d))
              (ensure_prekeys kv signal now rotation first generate d).0
            ≡ some spk.bytes)
    unfolding store_spk
    ensure_prekeys-keeps = (
      λ m lt off.
          ensured_get (key_for_prekey_record m) refl refl (Off-keys kv signal m ks lt off)
          ∙ store_spk-get rotation.now (next_number kv d) spk d (key_for_prekey_record m) refl refl
              refl refl refl refl,
      λ m lt ne.
          let number_lt = next_spk_id_bounds (stored_number (get k_signed_pre_key_id d) 0) in
          ensured_get (key_for_signed_prekey_record m) refl refl (each ks m)
          ∙ store_spk-get rotation.now (next_number kv d) spk d (key_for_signed_prekey_record m)
              refl refl refl
              (key_other kv signal (next_number kv d) m (omega arith) lt (λ e. ne (sym e))) refl
              refl,
      ensured_get (key_for_signed_prekey_record (next_number kv d)) refl refl
            (each ks (next_number kv d))
          ∙ get-put_other kv signal k_signed_pre_key_timestamp
              (key_for_signed_prekey_record (next_number kv d)) _ _ refl
          ∙ get-put_other kv signal k_signed_pre_key_signature
              (key_for_signed_prekey_record (next_number kv d)) _ _ refl
          ∙ get-put_other kv signal k_signed_pre_key_public
              (key_for_signed_prekey_record (next_number kv d)) _ _ refl
          ∙ get-put_same kv signal (key_for_signed_prekey_record (next_number kv d))
              (key_for_signed_prekey_record (next_number kv d)) _ _
              ((bytes_eq_iff (key_for_signed_prekey_record (next_number kv d))
                  (key_for_signed_prekey_record (next_number kv d))).1
                refl),
    )
      where
        each :
            (qs : List PreKey) (m : ℕ)
            → All
                (λ k.
                  bytes_eq (key_for_prekey_record (id k)) (key_for_signed_prekey_record m) ≡ false)
                qs
        each [] m = tt
        each (q ∷ qs) m = (refl, each qs m)
