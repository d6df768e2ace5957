-- ===== src/Omemo/Prekeys/Reached.antt =====
-- The databases that the operations on prekeys reach from an empty one: prekeys are made, libsignal
-- removes a used one (pre_key_remove), decode puts another in its place or ends before it does
-- (src/omemo/codec.inl), and other keys are written.
use weechat_xmpp_improved.Prelude.{
  ℕ, ◌≡◌, ◌≢◌, refl, sym, ap, ◌∙◌, inl, inr, Bool-cases, Option, none, some, List, [], ◌∷◌, map,
  Bytes, bytes_eq, bytes_eq_iff, ◌==◌, ==_iff, if◌then◌else◌, All, All-imp, IsIn, ◌<◌, u32_mod,
  if-cases, arith, to_string,
}
use weechat_xmpp_improved.Omemo.Text.{split, parse_uint32-to_string}
use weechat_xmpp_improved.Omemo.Bundle.{cut_at-append}
use weechat_xmpp_improved.Omemo.Store.{Kv}
use weechat_xmpp_improved.Omemo.Prekeys.{
  Signal, Generation, k_prekeys, key_for_prekey_record, index_entry, value_or, listed_as,
  ensure_prekeys, replace_entry, replace_used_prekey,
}
use weechat_xmpp_improved.Omemo.Sessions.{pre_key_remove}
use weechat_xmpp_improved.Omemo.Prekeys.Backed.{
  entry, Held, Held-IsBacked, Distinct, Numbered, IsBacked, IsOther, key_other, get-put_same,
  get-put_other, Stored-put, other-IsBacked, record-Numbered, to_string-Lacks,
}
use weechat_xmpp_improved.Omemo.Prekeys.Keeps.{MakesDistinct, ensure_prekeys-IsBacked}

module _ (kv : Kv) (signal : Signal) where
  open kv use {Db, get, put, del, get-put, get-del}
  open signal use {PreKey, id, serialize, deserialize, public_key, id_lt, deserialize-serialize}

  -- The prekeys with the one of the same number replaced.
  replace_key : PreKey → List PreKey → List PreKey
  replace_key k [] = k ∷ []
  replace_key k (o ∷ ks) = if id o == id k then k ∷ ks else o ∷ replace_key k ks

  pub listed_as_entry : (n : ℕ) (k : PreKey) → listed_as n (entry kv signal k) ≡ (id k == n)
  unfolding listed_as index_entry
  listed_as_entry n k = rw (
    cut_at-append b',' (to_string (id k)) (public_key k) (to_string-Lacks b',' (id k) refl),
    parse_uint32-to_string (id k) (id_lt k),
    listed_as,
  )

  replace_entry-replace_key :
      (k : PreKey) (ks : List PreKey)
      → replace_entry (id k) (entry kv signal k) (map (entry kv signal) ks)
        ≡ map (entry kv signal) (replace_key k ks)
  unfolding replace_entry replace_key
  replace_entry-replace_key k [] = refl
  replace_entry-replace_key k (o ∷ ks) = elim (Bool-cases (id o == id k)) [
    | inl e ↦ rw (listed_as_entry (id k) o, e) refl
    | inr e ↦
        rw (listed_as_entry (id k) o, e)
          (ap (◌∷◌ (entry kv signal o)) (replace_entry-replace_key k ks))
  ]

  replace_key-Off :
      (n : ℕ) (k : PreKey) (ks : List PreKey)
      → id k ≢ n
      → All (λ o. id o ≢ n) ks
      → All (λ o. id o ≢ n) (replace_key k ks)
  unfolding replace_key
  replace_key-Off n k [] ne h = (ne, tt)
  replace_key-Off n k (o ∷ ks) ne (apart, h) =
      if-cases (All (λ o. id o ≢ n)) (id o == id k) (k ∷ ks) (o ∷ replace_key k ks) (λ e. (ne, h))
        (λ e. (apart, replace_key-Off n k ks ne h))

  replace_key-Distinct :
      (k : PreKey) (ks : List PreKey)
      → Distinct kv signal ks
      → Distinct kv signal (replace_key k ks)
  unfolding replace_key
  replace_key-Distinct k [] h = (tt, tt)
  replace_key-Distinct k (o ∷ ks) (off, h) =
      if-cases (Distinct kv signal) (id o == id k) (k ∷ ks) (o ∷ replace_key k ks)
        (λ e. (rw (← (==_iff (id o) (id k)).0 e) off, h))
        (λ e. (replace_key-Off (id o) k ks (ground arith) off, replace_key-Distinct k ks h))

  -- The numbers other than `n`.
  abbrev pub without : ℕ → List ℕ → List ℕ
  without n [] = []
  without n (m ∷ ms) = let rest = without n ms in if m == n then rest else m ∷ rest

  IsIn-without : (m n : ℕ) (l : List ℕ) → n ≢ m → IsIn m l → IsIn m (without n l)
  IsIn-without m n [] ne h = h
  IsIn-without m n (o ∷ l) ne (inl same) =
      if-cases (IsIn m) (o == n) (without n l) (o ∷ without n l)
        (λ e. absurd (ground (arith, same))) (λ e. inl same)
  IsIn-without m n (o ∷ l) ne (inr h) =
      if-cases (IsIn m) (o == n) (without n l) (o ∷ without n l) (λ e. IsIn-without m n l ne h)
        (λ e. inr (IsIn-without m n l ne h))

  module _ (used : List ℕ) (k : PreKey) (bytes : Bytes) (d : Db)
      (e : serialize k ≡ some bytes) where
    abbrev after : Db
    after = put (key_for_prekey_record (id k)) bytes d

    abbrev rest : List ℕ
    rest = without (id k) used

    new-Held : Held kv signal rest after k
    new-Held = inr (
      bytes,
      get-put_same kv signal (key_for_prekey_record (id k)) (key_for_prekey_record (id k)) bytes d
          ((bytes_eq_iff (key_for_prekey_record (id k)) (key_for_prekey_record (id k))).1 refl),
      deserialize-serialize k bytes e,
    )

    old-Held : (o : PreKey) → id k ≢ id o → Held kv signal used d o → Held kv signal rest after o
    old-Held o ne (inl gone) = inl (IsIn-without (id o) (id k) used ne gone)
    old-Held o ne (inr s) = inr (
        Stored-put kv signal (key_for_prekey_record (id k)) bytes d o
          (key_other kv signal (id k) (id o) (id_lt k) (id_lt o) ne) s)

    All-old-Held :
        (ks : List PreKey)
        → All (λ o. id o ≢ id k) ks
        → All (Held kv signal used d) ks
        → All (Held kv signal rest after) ks
    All-old-Held [] ne h = tt
    All-old-Held (o ∷ ks) (n, ne) (s, h) = (old-Held o (λ q. n (sym q)) s, All-old-Held ks ne h)

    replace_key-Held :
        (ks : List PreKey)
        → Distinct kv signal ks
        → All (Held kv signal used d) ks
        → All (Held kv signal rest after) (replace_key k ks)
    unfolding replace_key
    replace_key-Held [] ne h = (new-Held, tt)
    replace_key-Held (o ∷ ks) (n, ne) (s, h) =
        if-cases (All (Held kv signal rest after)) (id o == id k) (k ∷ ks) (o ∷ replace_key k ks)
          (λ q. (new-Held, All-old-Held ks (rw (← (==_iff (id o) (id k)).0 q) n) h))
          (λ q. (old-Held o (ground arith) s, replace_key-Held ks ne h))

    replaced-IsBacked :
        IsBacked kv signal used d
        → IsBacked kv signal rest (replace_used_prekey kv signal (some k) (id k) d).0
    unfolding replace_used_prekey
    replaced-IsBacked h =
        let same : get k_prekeys after ≡ get k_prekeys d =
          get-put_other kv signal (key_for_prekey_record (id k)) k_prekeys bytes d refl in
        let parts : split (value_or (get k_prekeys after) []) b';' ≡ map (entry kv signal) h.keys =
          ap (λ o. split (value_or o []) b';') same ∙ h.indexed in
        rw (e, replace_used_prekey)
          (rw parts (
            rw (replace_entry-replace_key k h.keys) (
              Held-IsBacked kv signal (replace_key k h.keys) after
                (replace_key-Distinct k h.keys h.distinct)
                (replace_key-Held h.keys h.distinct h.stored)
                (record-Numbered kv signal k bytes d e h.numbered))))

  Numbered-del : (i : Bytes) (d : Db) → Numbered kv signal d → Numbered kv signal (del i d)
  Numbered-del i d h n r k lt e read = elim (Bool-cases (bytes_eq i (key_for_prekey_record n))) [
    | inl same ↦ absurd (ground (arith, get-del i d (key_for_prekey_record n)))
    | inr other ↦ h n r k lt (sym (get-del i d (key_for_prekey_record n) ∙ rw other) ∙ e) read
  ]

  removed-Held :
      (used : List ℕ) (n : ℕ) (d : Db) (k : PreKey)
      → n < u32_mod
      → Held kv signal used d k
      → Held kv signal (n ∷ used) (del (key_for_prekey_record n) d) k
  removed-Held used n d k lt (inl gone) = inl (inr gone)
  removed-Held used n d k lt (inr (r, found, read)) = elim (Bool-cases (n == id k)) [
    | inl e ↦ inl (inl (sym ((==_iff n (id k)).0 e)))
    | inr e ↦ inr (
      r,
      get-del (key_for_prekey_record n) d (key_for_prekey_record (id k))
          ∙ rw (key_other kv signal n (id k) lt (id_lt k) (ground arith)) found,
      read,
    )
  ]

  removed-IsBacked :
      (used : List ℕ) (n : ℕ) (d : Db)
      → n < u32_mod
      → IsBacked kv signal used d
      → IsBacked kv signal (n ∷ used) (pre_key_remove kv n d)
  unfolding pre_key_remove
  removed-IsBacked used n d lt h = record {
    keys = h.keys;
    indexed =
        ap (λ o. split (value_or o []) b';') (get-del (key_for_prekey_record n) d k_prekeys)
        ∙ h.indexed;
    distinct = h.distinct;
    stored = All-imp h.keys (λ k s. removed-Held used n d k lt s) h.stored;
    numbered = Numbered-del (key_for_prekey_record n) d h.numbered;
  }

  -- A step, with the numbers of the prekeys that libsignal removed and that were not replaced.
  pub data Step : List ℕ → Db → List ℕ → Db → Type 0 where
    ensure :
        (used : List ℕ) (now : ℕ) (rotation first : Generation)
        (generate : ℕ → Option (List PreKey)) (d : Db)
        → MakesDistinct kv signal generate
        → Step used d used (ensure_prekeys kv signal now rotation first generate d).0
    removes :
        (used : List ℕ) (n : ℕ) (d : Db)
        → n < u32_mod
        → Step used d (n ∷ used) (pre_key_remove kv n d)
    replaces :
        (used : List ℕ) (k : PreKey) (bytes : Bytes) (d : Db)
        → serialize k ≡ some bytes
        → Step used d (without (id k) used) (replace_used_prekey kv signal (some k) (id k) d).0
    store :
        (used : List ℕ) (j v : Bytes) (d : Db) → IsOther kv signal j → Step used d used (put j v d)

  -- The databases that are reached, with those numbers.
  pub data Reach (d : Db) : List ℕ → Db → Type 0 where
    here : Reach d [] d
    next : {used used' : List ℕ} {e f : Db} → Reach d used e → Step used e used' f → Reach d used' f

  Step-IsBacked :
      {used used' : List ℕ} {d e : Db}
      → Step used d used' e
      → IsBacked kv signal used d
      → IsBacked kv signal used' e
  Step-IsBacked (ensure used now rotation first generate d distinct) h =
      ensure_prekeys-IsBacked kv signal now rotation first generate d distinct h
  Step-IsBacked (removes used n d lt) h = removed-IsBacked used n d lt h
  Step-IsBacked (replaces used k bytes d e) h = replaced-IsBacked used k bytes d e h
  Step-IsBacked (store used j v d other) h = other-IsBacked kv signal j v d other h

  -- A database without prekeys.
  pub record IsFresh (d : Db) : Type 0 where
    pub no_index : get k_prekeys d ≡ none
    pub no_record : (n : ℕ) → get (key_for_prekey_record n) d ≡ none

  IsFresh-IsBacked : (d : Db) → IsFresh d → IsBacked kv signal [] d
  unfolding split
  IsFresh-IsBacked d h = record {
    keys = [];
    indexed = rw (h.no_index) refl;
    distinct = tt;
    stored = tt;
    numbered = λ n r k lt e read. absurd (ground (arith, h.no_record n));
  }

  -- From a database without prekeys on, however often prekeys are made, rotated, used up, replaced
  -- and repaired, the index lists prekeys with different numbers, each by its number and public
  -- key, and the private record of each is stored under its number, unless libsignal removed the
  -- record and decode ended before it put another in its place.
  pub Reach-IsBacked :
      {d : Db} {used : List ℕ} {e : Db} → IsFresh d → Reach d used e → IsBacked kv signal used e
  Reach-IsBacked {d} h here = IsFresh-IsBacked d h
  Reach-IsBacked h (next r s) = Step-IsBacked s (Reach-IsBacked h r)
