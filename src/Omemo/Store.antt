-- ===== src/Omemo/Store.antt =====
-- The key-value database behind the OMEMO component, as src/omemo uses it. LMDB is not part of the
-- program: `Kv` states what its documentation says of put, get, del and of a cursor.
pub mod Lex
pub mod Memory
use weechat_xmpp_improved.Prelude.{
  starts_with, ℕ, ◌≡◌, Bool, true, false, Option, none, some, List, [], ◌∷◌, ◌++◌, Bytes, codes,
  bytes_eq, bytes_eq_iff, arith, refl, ◌∙◌, if◌then◌else◌, to_string, Bool-cases, inl, inr,
}
use weechat_xmpp_improved.Omemo.Store.Memory.{
  MemoryDb, memory_put, memory_del, memory_get-put, memory_get-del,
}
use weechat_xmpp_improved.Omemo.Store.Lex.{lt_lex, Sorted, lookup, skip_below}

-- Keys are unique and ordered by their bytes; `seek` is a cursor put at the first key that is not
-- below the given one (MDB_SET_RANGE) and moved on by MDB_NEXT.
pub record Kv : Type 1 where
  pub Db : Type 0
  pub get : Bytes → Db → Option Bytes
  pub put : Bytes → Bytes → Db → Db
  pub del : Bytes → Db → Db
  pub entries : Db → List (Bytes × Bytes)
  pub seek : Bytes → Db → List (Bytes × Bytes)
  pub entries-Sorted : (d : Db) → Sorted (entries d)
  pub get_lem : (k : Bytes) (d : Db) → get k d ≡ lookup k (entries d)
  pub get-put :
      (k v : Bytes) (d : Db) (j : Bytes)
      → get j (put k v d) ≡ (if bytes_eq k j then some v else get j d)
  pub get-del :
      (k : Bytes) (d : Db) (j : Bytes) → get j (del k d) ≡ (if bytes_eq k j then none else get j d)
  pub seek_lem : (k : Bytes) (d : Db) → seek k d ≡ skip_below k (entries d)

abbrev colon : ℕ
colon = b':'

abbrev pub trust_prefix : Bytes → Bytes
trust_prefix jid = codes "trust:" ++ (jid ++ (colon ∷ []))

abbrev pub key_for_tofu_trust : Bytes → ℕ → Bytes
key_for_tofu_trust jid device_id = codes "trust:" ++ (jid ++ (colon ∷ to_string device_id))

abbrev pub key_for_identity : Bytes → ℕ → Bytes
key_for_identity jid device_id = codes "identity:" ++ (jid ++ (colon ∷ to_string device_id))

abbrev pub key_for_session : Bytes → ℕ → Bytes
key_for_session jid device_id = codes "session:" ++ (jid ++ (colon ∷ to_string device_id))

-- The part of a session's key in front of the device.
abbrev pub session_prefix : Bytes → Bytes
session_prefix jid = codes "session:" ++ (jid ++ (colon ∷ []))

abbrev pub key_for_sender_key : Bytes → Bytes → ℕ → Bytes
key_for_sender_key group jid device_id =
    codes "senderkey:" ++ (group ++ (colon ∷ (jid ++ (colon ∷ to_string device_id))))

abbrev pub key_for_bundle : Bytes → ℕ → Bytes
key_for_bundle jid device_id = codes "bundle:" ++ (jid ++ (colon ∷ to_string device_id))

abbrev pub key_for_axolotl_devicelist : Bytes → Bytes
key_for_axolotl_devicelist jid = codes "axolotl_devicelist:" ++ jid

-- The laws can be met.
abbrev pub memory : Kv
memory = record {
  Db = MemoryDb;
  get = λ k d. lookup k d.0;
  put = memory_put;
  del = memory_del;
  entries = λ d. d.0;
  seek = λ k d. skip_below k d.0;
  entries-Sorted = λ d. d.1;
  get_lem = λ k d. refl;
  get-put = memory_get-put;
  get-del = memory_get-del;
  seek_lem = λ k d. refl;
}

module _ (kv : Kv) where
  open kv use {Db, get, del, entries, get-del, get_lem}

  unfoldable pub remove_keys : Bytes → List (Bytes × Bytes) → Db → Db
  remove_keys prefix [] d = d
  remove_keys prefix ((k, v) ∷ es) d =
      remove_keys prefix es (if starts_with prefix k then del k d else d)

  unfoldable pub remove_prefixed_keys : Bytes → Db → Db
  unfolding remove_keys
  remove_prefixed_keys prefix d = remove_keys prefix (entries d) d

  remove_keys_other :
      (prefix j : Bytes) (es : List (Bytes × Bytes)) (d : Db)
      → starts_with prefix j ≡ false
      → get j (remove_keys prefix es d) ≡ get j d
  unfolding remove_keys
  remove_keys_other prefix j [] d h = refl
  remove_keys_other prefix j ((k, v) ∷ es) d h =
      remove_keys_other prefix j es (if starts_with prefix k then del k d else d) h
      ∙ ground (arith, get-del k d j, bytes_eq_iff k j)

  -- A key without the prefix keeps its value.
  pub remove_prefixed_keys_other :
      (prefix j : Bytes) (d : Db)
      → starts_with prefix j ≡ false
      → get j (remove_prefixed_keys prefix d) ≡ get j d
  unfolding remove_prefixed_keys
  remove_prefixed_keys_other prefix j d h = remove_keys_other prefix j (entries d) d h

  remove_keys_gone :
      (prefix j : Bytes) (es : List (Bytes × Bytes)) (d : Db)
      → starts_with prefix j ≡ true
      → (lookup j es ≡ none → get j d ≡ none)
      → get j (remove_keys prefix es d) ≡ none
  unfolding remove_keys lookup
  remove_keys_gone prefix j [] d h k = k refl
  remove_keys_gone prefix j ((i, v) ∷ es) d h k =
      remove_keys_gone prefix j es (if starts_with prefix i then del i d else d) h next
    where
      next : lookup j es ≡ none → get j (if starts_with prefix i then del i d else d) ≡ none
      next e = elim (Bool-cases (bytes_eq i j)) [
        | inl same ↦
            let eq = (bytes_eq_iff i j).0 same in
            let pre : starts_with prefix i ≡ true = rw eq h in rw pre (get-del i d j ∙ rw same)
        | inr other ↦
            let gone : get j d ≡ none = k (rw other e) in ground (arith, get-del i d j, gone, other)
      ]

  -- A key with the prefix is gone.
  pub remove_prefixed_keys_gone :
      (prefix j : Bytes) (d : Db)
      → starts_with prefix j ≡ true
      → get j (remove_prefixed_keys prefix d) ≡ none
  unfolding remove_prefixed_keys
  remove_prefixed_keys_gone prefix j d h =
      remove_keys_gone prefix j (entries d) d h (λ e. get_lem j d ∙ e)
