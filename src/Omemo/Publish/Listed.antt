-- ===== src/Omemo/Publish/Listed.antt =====
-- get_axolotl_bundle (src/omemo/lifecycle.inl): what a published bundle lists.
use mathlib.Core.Path.{subst}
use weechat_xmpp_improved.Prelude.{
  cut_at, ℕ, ◌≤◌, ◌≡◌, refl, sym, ap, ◌∙◌, inl, inr, Bool, true, false, Option, none, some, List,
  [], ◌∷◌, ◌++◌, map, Bytes, codes, bytes_eq_iff, ltb, ◌==◌, if◌then◌else◌, length, All, to_string,
  Bool-cases, Option-cases, append_assoc, append-nil, arith,
}
use weechat_xmpp_improved.Omemo.Text.{split, parse_uint32, is_valid_omemo_device_id}
use weechat_xmpp_improved.Omemo.Bundle.{
  BundleMetadata, IsPrekey, IsPrintable, serialize_bundle, cut_at-append,
  deserialize_bundle-serialize_bundle,
}
use weechat_xmpp_improved.Omemo.Store.{Kv, key_for_bundle}
use weechat_xmpp_improved.Omemo.Prekeys.{
  Signal, Generation, k_prekeys, value_or, index_entry, ensure_prekeys,
}
use weechat_xmpp_improved.Omemo.Prekeys.Backed.{
  entry, IsBacked, put_other-IsBacked, to_string-Lacks, get-put_same,
}
use weechat_xmpp_improved.Omemo.Prekeys.Keeps.{MakesDistinct, ensure_prekeys-IsBacked}
use weechat_xmpp_improved.Omemo.Prekeys.Reached.{IsFresh, Reach, Reach-IsBacked}
use weechat_xmpp_improved.Omemo.Publish.{
  k_min_pre_key_count, read_entries, local_fields, store_local, make_local_bundle_metadata,
  load_bundle, published, get_axolotl_bundle,
}
use weechat_xmpp_improved.Omemo.Publish.Fields.{WritesBase64, local_fields-IsPrintable}

module _ (kv : Kv) (encode : Bytes → Bytes) (signal : Signal) where
  open kv use {Db, get, put}
  open signal use {PreKey, id, public_key, id_lt, public_key-Lacks}

  -- What the bundle says of a prekey.
  abbrev pub pair : PreKey → Bytes × Bytes
  pair k = (to_string (id k), public_key k)

  pub cut_at-entry : (k : PreKey) → cut_at b',' (entry kv signal k) ≡ some (pair k)
  unfolding index_entry
  cut_at-entry k =
      cut_at-append b',' (to_string (id k)) (public_key k) (to_string-Lacks b',' (id k) refl)

  read_entries-some :
      (ks : List PreKey) (done read : List (Bytes × Bytes))
      → read_entries (map (entry kv signal) ks) done ≡ some read
      → read ≡ done ++ map pair ks
  unfolding read_entries
  read_entries-some [] done read e = ground (arith, append-nil done)
  read_entries-some (k ∷ ks) done read e =
      go (read_entries (map (entry kv signal) ks) (done ++ (pair k ∷ []))) _
        (λ r q. read_entries-some ks (done ++ (pair k ∷ [])) r q)
        (rw (cut_at-entry k, read_entries) at e)
    where
      go :
          (rest : Option (List (Bytes × Bytes))) (bad : Bool)
          → ((r : List (Bytes × Bytes))
              → rest ≡ some r
              → r ≡ (done ++ (pair k ∷ [])) ++ map pair ks)
          → (if bad then none else rest) ≡ some read
          → read ≡ done ++ (pair k ∷ map pair ks)
      go rest true h q = cc
      go rest false h q = h read q ∙ append_assoc done (pair k ∷ []) (map pair ks)

  pair-IsPrekey : (ks : List PreKey) → All IsPrekey (map pair ks)
  pair-IsPrekey [] = tt
  pair-IsPrekey (k ∷ ks) = (
    (
      to_string-Lacks b'\n' (id k) refl,
      to_string-Lacks b',' (id k) refl,
      public_key-Lacks k b'\n' refl,
    ),
    pair-IsPrekey ks,
  )

  store_local-some :
      (device_id : ℕ) (b c : BundleMetadata) (d : Db)
      → (store_local kv encode device_id b d).1 ≡ some c
      → (b ≡ c)
        × ((store_local kv encode device_id b d).0
            ≡ put (key_for_bundle (codes "self") device_id) (serialize_bundle b) d)
  unfolding store_local
  store_local-some device_id b c d e = go b.prekeys e
    where
      go :
          (ps : List (Bytes × Bytes))
          → (if elim ps [ [] ↦ true | p ∷ qs ↦ false ]
              then (let r : Db × Option BundleMetadata = (d, none) in r)
              else (put (key_for_bundle (codes "self") device_id) (serialize_bundle b) d, some b)).1
            ≡ some c
          → (b ≡ c)
            × ((if elim ps [ [] ↦ true | p ∷ qs ↦ false ]
                  then (let r : Db × Option BundleMetadata = (d, none) in r)
                  else (
                    put (key_for_bundle (codes "self") device_id) (serialize_bundle b) d,
                    some b,
                  )).0
                ≡ put (key_for_bundle (codes "self") device_id) (serialize_bundle b) d)
      go [] q = absurd (ground arith)
      go (p ∷ qs) q = (cc, refl)

  make_local-some :
      {used : List ℕ} (device_id : ℕ) (c : BundleMetadata) (d : Db) (h : IsBacked kv signal used d)
      → WritesBase64 encode
      → (make_local_bundle_metadata kv encode device_id d).1 ≡ some c
      → (c.prekeys ≡ map pair h.keys)
        × IsPrintable c
        × ((make_local_bundle_metadata kv encode device_id d).0
            ≡ put (key_for_bundle (codes "self") device_id) (serialize_bundle c) d)
  unfolding make_local_bundle_metadata
  make_local-some device_id c d h w e = elim (Option-cases (get k_prekeys d)) [
    | inl q ↦ absurd (ground arith)
    | inr (index, qi) ↦ elim (Option-cases (local_fields kv encode d)) [
      | inl q ↦ absurd (ground arith)
      | inr (b, qb) ↦ elim (Option-cases (read_entries (split index b';') [])) [
        | inl q ↦ absurd (ground arith)
        | inr (ps, qp) ↦
            let full : BundleMetadata = record b { prekeys = ps } in
            let (same, stored) =
              store_local-some device_id full c d
                (rw (qi, qb, qp, make_local_bundle_metadata) at e) in
            let parts : split index b';' ≡ map (entry kv signal) h.keys =
              ap (λ o. split (value_or o []) b';') (sym qi) ∙ h.indexed in
            let all : ps ≡ map pair h.keys =
              read_entries-some h.keys [] ps (ap (λ l. read_entries l []) (sym parts) ∙ qp) in
            let pr = local_fields-IsPrintable kv encode d b w qb in
            let fits : IsPrintable full = record {
              id = pr.id;
              key = pr.key;
              signature = pr.signature;
              identity = pr.identity;
              prekeys = rw all (pair-IsPrekey h.keys);
            } in
            (
              sym (ap (λ (x : BundleMetadata). x.prekeys) same) ∙ all,
              subst IsPrintable same fits,
              rw (qi, qb, qp, make_local_bundle_metadata)
                  (stored
                    ∙ ap (λ x. put (key_for_bundle (codes "self") device_id) (serialize_bundle x) d)
                        same),
            )
      ]
    ]
  ]

  published-some :
      (device_id : ℕ) (o : Option BundleMetadata) (b : BundleMetadata)
      → published device_id o ≡ some b
      → (o ≡ some b) × (k_min_pre_key_count ≤ length b.prekeys)
  unfolding published
  published-some device_id none b e = cc
  published-some device_id (some c) b e = elim (Bool-cases (is_valid_omemo_device_id device_id)) [
    | inl v ↦ elim (Bool-cases (value_or (parse_uint32 c.signed_pre_key_id) 0 == 0)) [
      | inl z ↦ absurd (ground arith)
      | inr z ↦ elim (Bool-cases (ltb (length c.prekeys) k_min_pre_key_count)) [
        | inl few ↦ absurd (ground arith)
        | inr many ↦
            let eq : some c ≡ some b = rw (v, z, many) at e in
            let eq' : c ≡ b = cc in (eq, rw (← eq') (ground arith))
      ]
    ]
    | inr v ↦ absurd (ground arith)
  ]

  -- In a database that is reached from one without prekeys, what is published lists the prekeys of
  -- the index that it leaves, in order, at least 25 of them: they have different numbers, and the
  -- private record of each is stored, unless libsignal removed it and it was not replaced. It is
  -- what is stored as the bundle of the own device. libsignal is taken to make prekeys of different
  -- numbers, and the encoder to write base64.
  pub get_axolotl_bundle-listed :
      (device_id now : ℕ) (rotation first : Generation) (generate : ℕ → Option (List PreKey))
      {fresh : Db} {used : List ℕ} (d : Db) (b : BundleMetadata)
      → IsFresh kv signal fresh
      → Reach kv signal fresh used d
      → MakesDistinct kv signal generate
      → WritesBase64 encode
      → (get_axolotl_bundle kv encode signal device_id now rotation first generate d).1 ≡ some b
      → let d' = (get_axolotl_bundle kv encode signal device_id now rotation first generate d).0 in
        (h : IsBacked kv signal used d') × (b.prekeys ≡ map pair h.keys)
        × (k_min_pre_key_count ≤ length b.prekeys)
        × (load_bundle kv encode (codes "self") device_id d' ≡ some b)
  unfolding get_axolotl_bundle load_bundle
  get_axolotl_bundle-listed device_id now rotation first generate d b f reached distinct w e =
      let h = Reach-IsBacked kv signal f reached in
      let d1 = (ensure_prekeys kv signal now rotation first generate d).0 in
      let h1 = ensure_prekeys-IsBacked kv signal now rotation first generate d distinct h in
      let local = make_local_bundle_metadata kv encode device_id d1 in
      let (some_b, many) = published-some device_id local.1 b e in
      let (listed, printable, stored) = make_local-some device_id b d1 h1 w some_b in
      let key = key_for_bundle (codes "self") device_id in
      let d2 = put key (serialize_bundle b) d1 in
      let (h2, same) =
        put_other-IsBacked kv signal key (serialize_bundle b) d1 (refl, λ n. refl) h1 in
      let found : get key d2 ≡ some (serialize_bundle b) =
        get-put_same kv signal key key (serialize_bundle b) d1 ((bytes_eq_iff key key).1 refl) in
      rw stored (
        h2,
        listed ∙ ap (map pair) (sym same),
        many,
        rw (found, load_bundle) (ap some (deserialize_bundle-serialize_bundle b printable)),
      )
