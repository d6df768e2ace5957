-- ===== src/Omemo/Prekeys/Batch.antt =====
-- A new batch of prekeys: the entries that store_prekeys makes, and the records that it stores.
use weechat_xmpp_improved.Prelude.{
  ℕ, ◌<◌, ◌≡◌, ◌≢◌, refl, ap, ◌∙◌, inl, inr, false, none, some, List, [], ◌∷◌, map, Bytes, bytes_eq,
  bytes_eq_iff, ltb, if◌then◌else◌, u32_mod, All, Option-cases,
}
use weechat_xmpp_improved.Omemo.Store.{Kv}
use weechat_xmpp_improved.Omemo.Prekeys.{Signal, key_for_prekey_record, store_prekeys}
use weechat_xmpp_improved.Omemo.Prekeys.Backed.{
  entry, Stored, Distinct, Numbered, get-put_same, get-put_other, key_other, record-Numbered,
}

module _ (kv : Kv) (signal : Signal) where
  open kv use {Db, get, put}
  open signal use {PreKey, id, serialize, id_lt, deserialize-serialize}

  -- The prekeys that can be serialized.
  pub kept : List PreKey → List PreKey
  kept [] = []
  kept (k ∷ ks) = elim (serialize k) [ none ↦ kept ks | some bytes ↦ k ∷ kept ks ]

  abbrev pub Off : ℕ → List PreKey → Type 0
  Off n = All (λ k. id k ≢ n)

  kept-Off : (n : ℕ) (ks : List PreKey) → Off n ks → Off n (kept ks)
  unfolding kept
  kept-Off n [] h = tt
  kept-Off n (k ∷ ks) (ne, h) = elim (Option-cases (serialize k)) [
    | inl e ↦ rw (e, kept) (kept-Off n ks h)
    | inr (bytes, e) ↦ rw (e, kept) ((ne, kept-Off n ks h))
  ]

  pub kept-Distinct : (ks : List PreKey) → Distinct kv signal ks → Distinct kv signal (kept ks)
  unfolding kept
  kept-Distinct [] h = tt
  kept-Distinct (k ∷ ks) (off, h) = elim (Option-cases (serialize k)) [
    | inl e ↦ rw (e, kept) (kept-Distinct ks h)
    | inr (bytes, e) ↦ rw (e, kept) ((kept-Off (id k) ks off, kept-Distinct ks h))
  ]

  pub store_prekeys-entries :
      (ks : List PreKey) (max_id : ℕ) (d : Db)
      → (store_prekeys kv signal ks max_id d).1 ≡ map (entry kv signal) (kept ks)
  unfolding store_prekeys kept
  store_prekeys-entries [] max_id d = refl
  store_prekeys-entries (k ∷ ks) max_id d = elim (Option-cases (serialize k)) [
    | inl e ↦ rw (e, kept, store_prekeys) (store_prekeys-entries ks max_id d)
    | inr (bytes, e) ↦
        rw (e, kept, store_prekeys)
          (ap (◌∷◌ (entry kv signal k)) (
            store_prekeys-entries ks (if ltb max_id (id k) then id k else max_id)
              (put (key_for_prekey_record (id k)) bytes d)))
  ]

  -- A record of another number is left as it is.
  pub store_prekeys_other :
      (ks : List PreKey) (max_id : ℕ) (d : Db) (j : Bytes)
      → All (λ k. bytes_eq (key_for_prekey_record (id k)) j ≡ false) ks
      → get j (store_prekeys kv signal ks max_id d).0 ≡ get j d
  unfolding store_prekeys
  store_prekeys_other [] max_id d j h = refl
  store_prekeys_other (k ∷ ks) max_id d j (ne, h) = elim (Option-cases (serialize k)) [
    | inl e ↦ rw (e, store_prekeys) (store_prekeys_other ks max_id d j h)
    | inr (bytes, e) ↦
        rw (e, store_prekeys)
          (store_prekeys_other ks (if ltb max_id (id k) then id k else max_id)
              (put (key_for_prekey_record (id k)) bytes d) j h
            ∙ get-put_other kv signal (key_for_prekey_record (id k)) j bytes d ne)
  ]

  pub Off-keys :
      (n : ℕ) (ks : List PreKey)
      → n < u32_mod
      → Off n ks
      → All (λ k. bytes_eq (key_for_prekey_record (id k)) (key_for_prekey_record n) ≡ false) ks
  Off-keys n [] lt h = tt
  Off-keys n (k ∷ ks) lt (ne, h) =
      (key_other kv signal (id k) n (id_lt k) lt ne, Off-keys n ks lt h)

  pub store_prekeys-Stored :
      (ks : List PreKey) (max_id : ℕ) (d : Db)
      → Distinct kv signal ks
      → All (Stored kv signal (store_prekeys kv signal ks max_id d).0) (kept ks)
  unfolding store_prekeys kept
  store_prekeys-Stored [] max_id d h = tt
  store_prekeys-Stored (k ∷ ks) max_id d (off, h) = elim (Option-cases (serialize k)) [
    | inl e ↦ rw (e, kept, store_prekeys) (store_prekeys-Stored ks max_id d h)
    | inr (bytes, e) ↦
        let j = key_for_prekey_record (id k) in
        let m = if ltb max_id (id k) then id k else max_id in
        rw (e, kept, store_prekeys)
          ((
            (
              bytes,
              store_prekeys_other ks m (put j bytes d) j (Off-keys (id k) ks (id_lt k) off)
                  ∙ get-put_same kv signal j j bytes d ((bytes_eq_iff j j).1 refl),
              deserialize-serialize k bytes e,
            ),
            store_prekeys-Stored ks m (put j bytes d) h,
          ))
  ]

  pub store_prekeys-Numbered :
      (ks : List PreKey) (max_id : ℕ) (d : Db)
      → Numbered kv signal d
      → Numbered kv signal (store_prekeys kv signal ks max_id d).0
  unfolding store_prekeys
  store_prekeys-Numbered [] max_id d h = h
  store_prekeys-Numbered (k ∷ ks) max_id d h = elim (Option-cases (serialize k)) [
    | inl e ↦ rw (e, store_prekeys) (store_prekeys-Numbered ks max_id d h)
    | inr (bytes, e) ↦
        rw (e, store_prekeys)
          (store_prekeys-Numbered ks (if ltb max_id (id k) then id k else max_id)
            (put (key_for_prekey_record (id k)) bytes d) (record-Numbered kv signal k bytes d e h))
  ]

  abbrev pub AllSerialize : List PreKey → Type 0
  AllSerialize = All (λ k. (r : Bytes) × (serialize k ≡ some r))

  pub kept_all : (ks : List PreKey) → AllSerialize ks → kept ks ≡ ks
  unfolding kept
  kept_all [] h = refl
  kept_all (k ∷ ks) ((r, e), h) = rw (e, kept) (ap (◌∷◌ k) (kept_all ks h))
