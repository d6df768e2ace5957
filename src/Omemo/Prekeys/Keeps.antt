-- ===== src/Omemo/Prekeys/Keeps.antt =====
-- The operations on the prekeys keep every entry of the index backed by its record.
use weechat_xmpp_improved.Prelude.{
  ℕ, zero, suc, ◌+◌, ◌≤◌, ◌<◌, ◌≡◌, ◌≢◌, map, inl, inr, refl, ap, ◌∙◌, Bool, false, Option, some,
  List, [], ◌∷◌, Bytes, ltb, length, to_string, u32_mod, All, All-imp, arith, Option-cases,
  if-cases,
}
use weechat_xmpp_improved.Omemo.Text.{split, join}
use weechat_xmpp_improved.Omemo.Store.{Kv}
use weechat_xmpp_improved.Omemo.Prekeys.{
  Signal, SignedPreKey, Generation, k_prekeys, k_max_pre_key_id, k_signed_pre_key_record,
  k_pre_key_count, stored_number, start_id, next_spk_id, should_rotate, k_signed_pre_key_id,
  k_signed_pre_key_timestamp, key_for_prekey_record, index_entry, recovered, recovered_from,
  repair_prekeys_index, store_spk, generate_and_store_spk, rotate_signed_prekey_if_due,
  store_prekeys, regenerate_from, regenerate, after_rotation, generate_first, check_index,
  keep_prekeys, ensure_prekeys,
}
use weechat_xmpp_improved.Omemo.Prekeys.Backed.{
  entry, Stored, Distinct, Numbered, IsBacked, other-IsBacked, index-IsBacked,
}
use weechat_xmpp_improved.Omemo.Prekeys.Batch.{
  kept, kept-Distinct, store_prekeys-entries, store_prekeys-Stored, store_prekeys-Numbered,
}

module _ (kv : Kv) (signal : Signal) where
  open kv use {Db, get, put, get-put}
  open signal use {
    PreKey, id, serialize, deserialize, public_key, id_lt, public_key-Lacks, deserialize-serialize,
  }

  -- What libsignal makes has different numbers.
  abbrev pub MakesDistinct : (ℕ → Option (List PreKey)) → Type 0
  MakesDistinct generate = (n : ℕ) (ks : List PreKey) → generate n ≡ some ks → Distinct kv signal ks

  regenerate-IsBacked :
      {used : List ℕ} (generate : ℕ → Option (List PreKey)) (d : Db)
      → MakesDistinct generate
      → IsBacked kv signal used d
      → IsBacked kv signal used (regenerate kv signal generate d).0
  unfolding regenerate regenerate_from
  regenerate-IsBacked {used} generate d distinct h =
      let prev = stored_number (get k_max_pre_key_id d) 0 in
      elim (Option-cases (generate (start_id prev))) [
        | inl e ↦ rw (e, regenerate_from) h
        | inr (ks, e) ↦
            let r = store_prekeys kv signal ks prev d in
            let backed =
              index-IsBacked kv signal (kept kv signal ks) r.0
                (kept-Distinct kv signal ks (distinct (start_id prev) ks e))
                (store_prekeys-Stored kv signal ks prev d (distinct (start_id prev) ks e))
                (store_prekeys-Numbered kv signal ks prev d h.numbered) in
            rw (e, regenerate_from, store_prekeys-entries kv signal ks prev d)
              (other-IsBacked kv signal k_max_pre_key_id (to_string r.2) _ (refl, λ n. refl) backed)
      ]

  store_spk-IsBacked :
      {used : List ℕ} (now n : ℕ) (spk : SignedPreKey) (d : Db)
      → IsBacked kv signal used d
      → IsBacked kv signal used (store_spk kv signal now n spk d)
  unfolding store_spk
  store_spk-IsBacked {used} now n spk d h =
      other-IsBacked kv signal _ _ _ (refl, λ n. refl)
        (other-IsBacked kv signal _ _ _ (refl, λ n. refl)
          (other-IsBacked kv signal _ _ _ (refl, λ n. refl)
            (other-IsBacked kv signal _ _ _ (refl, λ n. refl)
              (other-IsBacked kv signal _ _ _ (refl, λ n. refl)
                (other-IsBacked kv signal _ _ _ (refl, λ n. refl) h)))))

  generate_and_store_spk-IsBacked :
      {used : List ℕ} (g : Generation) (n : ℕ) (d : Db)
      → IsBacked kv signal used d
      → IsBacked kv signal used (generate_and_store_spk kv signal g n d).0
  unfolding generate_and_store_spk
  generate_and_store_spk-IsBacked {used} g n d h = elim (Option-cases (g.signed n)) [
    | inl e ↦ rw (e, generate_and_store_spk) h
    | inr (spk, e) ↦ rw (e, generate_and_store_spk) (store_spk-IsBacked g.now n spk d h)
  ]

  rotate-IsBacked :
      {used : List ℕ} (now : ℕ) (g : Generation) (d : Db)
      → IsBacked kv signal used d
      → IsBacked kv signal used (rotate_signed_prekey_if_due kv signal now g d).0
  unfolding rotate_signed_prekey_if_due
  rotate-IsBacked {used} now g d h =
      let n = next_spk_id (stored_number (get k_signed_pre_key_id d) 0) in
      if-cases (λ (r : Db × Bool). IsBacked kv signal used r.0)
        (should_rotate now (get k_signed_pre_key_timestamp d))
        (generate_and_store_spk kv signal g n d) (d, false)
        (λ due. generate_and_store_spk-IsBacked g n d h) (λ fresh. h)

  generate_first-IsBacked :
      {used : List ℕ} (g : Generation) (generate : ℕ → Option (List PreKey)) (d : Db)
      → MakesDistinct generate
      → IsBacked kv signal used d
      → IsBacked kv signal used (generate_first kv signal g generate d).0
  unfolding generate_first
  generate_first-IsBacked {used} g generate d distinct h =
      elim (Option-cases (get k_signed_pre_key_record d)) [
        | inr (r, e) ↦ rw (e, generate_first) (regenerate-IsBacked generate d distinct h)
        | inl e ↦
            let h' = generate_and_store_spk-IsBacked g 1 d h in
            let r = generate_and_store_spk kv signal g 1 d in
            rw (e, generate_first)
              (if-cases (λ (r : Db × Bool). IsBacked kv signal used r.0) r.1
                (regenerate kv signal generate r.0) (r.0, false)
                (λ done. regenerate-IsBacked generate r.0 distinct h') (λ failed. h'))
      ]

  pub recovered_inv :
      (n : ℕ) (d : Db) (p : Bytes)
      → recovered kv signal n d ≡ some p
      → (r : Bytes) × (k : PreKey) × (get (key_for_prekey_record n) d ≡ some r)
        × (deserialize r ≡ some k)
        × (p ≡ index_entry (id k) (public_key k))
  unfolding recovered
  recovered_inv n d p e = elim (Option-cases (get (key_for_prekey_record n) d)) [
    | inl gone ↦ absurd (ground arith)
    | inr (r, found) ↦ elim (Option-cases (deserialize r)) [
      | inl gone ↦ absurd (ground arith)
      | inr (k, read) ↦ (r, k, found, read, ground arith)
    ]
  ]

  -- What the repair reads from a number on: prekeys of these numbers, in order.
  abbrev Found : ℕ → Db → List Bytes → Type 0
  Found n d ps =
      (ks : List PreKey) × (ps ≡ map (entry kv signal) ks)
      × Distinct kv signal ks
      × All (Stored kv signal d) ks
      × All (λ k. n ≤ id k) ks

  recovered_from-Found :
      (n count : ℕ) (d : Db)
      → n + count < u32_mod
      → Numbered kv signal d
      → Found n d (recovered_from kv signal n count d)
  unfolding recovered_from
  recovered_from-Found n zero d lt num = ([], refl, tt, tt, tt)
  recovered_from-Found n (suc count) d lt num =
      let (ks, is, ne, st, ge) = recovered_from-Found (n + 1) count d (omega arith) num in
      let ge' = All-imp ks (λ k (h : n + 1 ≤ id k). let r : n ≤ id k = omega arith in r) ge in
      elim (Option-cases (recovered kv signal n d)) [
        | inl e ↦ rw (e, recovered_from) ((ks, is, ne, st, ge'))
        | inr (p, e) ↦
            let (r, k, found, read, eq) = recovered_inv n d p e in
            let ids : id k ≡ n = num n r k (omega arith) found read in
            rw (e, recovered_from)
              ((
                k ∷ ks,
                ap (λ q. q ∷ recovered_from kv signal (n + 1) count d) eq
                    ∙ ap (◌∷◌ (entry kv signal k)) is,
                (All-imp ks (λ o (h : n + 1 ≤ id o). above o k n ids h) ge, ne),
                ((r, rw ids found, read), st),
                (omega arith, ge'),
              ))
      ]
    where
      above : (o k : PreKey) (n : ℕ) → id k ≡ n → n + 1 ≤ id o → id o ≢ id k
      above o k n ids h = λ e. omega arith

  repair_prekeys_index-IsBacked :
      {used : List ℕ} (d : Db)
      → IsBacked kv signal used d
      → IsBacked kv signal used (repair_prekeys_index kv signal d).0
  unfolding repair_prekeys_index
  repair_prekeys_index-IsBacked {used} d h =
      let (ks, is, ne, st, ge) = recovered_from-Found 1 100 d (omega arith) h.numbered in
      rw (is, repair_prekeys_index) (go ks ne st)
    where
      go :
          (ks : List PreKey)
          → Distinct kv signal ks
          → All (Stored kv signal d) ks
          → IsBacked kv signal used
              (elim (map (entry kv signal) ks) as (λ _. Db × ℕ) [
                | [] ↦ (d, 0)
                | p ∷ ps ↦ (put k_prekeys (join (p ∷ ps) (b';' ∷ [])) d, length (p ∷ ps))
              ]).0
      go [] ne st = h
      go (k ∷ ks) ne st = index-IsBacked kv signal (k ∷ ks) d ne st h.numbered

  check_index-IsBacked :
      {used : List ℕ} (index : Bytes) (d : Db)
      → IsBacked kv signal used d
      → IsBacked kv signal used (check_index kv signal index d).0
  unfolding check_index
  check_index-IsBacked {used} index d h =
      let r = repair_prekeys_index kv signal d in
      let old = length (split index b';') in
      if-cases (λ (r : Db × Bool). IsBacked kv signal used r.0) (ltb old k_pre_key_count)
        (r.0, ltb old r.1) (d, false) (λ short. repair_prekeys_index-IsBacked d h) (λ whole. h)

  keep_prekeys-IsBacked :
      {used : List ℕ} (g : Generation) (generate : ℕ → Option (List PreKey)) (d : Db)
      → MakesDistinct generate
      → IsBacked kv signal used d
      → IsBacked kv signal used (keep_prekeys kv signal g generate d).0
  unfolding keep_prekeys
  keep_prekeys-IsBacked {used} g generate d distinct h =
      elim (Option-cases (get k_signed_pre_key_record d)) [
        | inl e ↦ rw (e, keep_prekeys) (generate_first-IsBacked g generate d distinct h)
        | inr (r, e) ↦ elim (Option-cases (get k_prekeys d)) [
          | inl e' ↦ rw (e, e', keep_prekeys) (generate_first-IsBacked g generate d distinct h)
          | inr (index, e') ↦ rw (e, e', keep_prekeys) (check_index-IsBacked index d h)
        ]
      ]

  pub ensure_prekeys-IsBacked :
      {used : List ℕ} (now : ℕ) (rotation first : Generation) (generate : ℕ → Option (List PreKey))
      (d : Db)
      → MakesDistinct generate
      → IsBacked kv signal used d
      → IsBacked kv signal used (ensure_prekeys kv signal now rotation first generate d).0
  unfolding ensure_prekeys after_rotation
  ensure_prekeys-IsBacked {used} now rotation first generate d distinct h =
      let r = rotate_signed_prekey_if_due kv signal now rotation d in
      let h' = rotate-IsBacked now rotation d h in
      if-cases (λ (r : Db × Bool). IsBacked kv signal used r.0) r.1
        (generate_first kv signal first generate r.0) (keep_prekeys kv signal first generate r.0)
        (λ rotated. generate_first-IsBacked first generate r.0 distinct h')
        (λ same. keep_prekeys-IsBacked first generate r.0 distinct h')
