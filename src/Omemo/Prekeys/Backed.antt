-- ===== src/Omemo/Prekeys/Backed.antt =====
-- Every entry of the index of prekeys has its record: what ensure_prekeys and replace_used_prekey
-- keep.
use mathlib.Core.List.{cons-ne-nil}
use weechat_xmpp_improved.Prelude.{
  ℕ, zero, suc, ◌+◌, ◌/◌, ◌%◌, ◌<◌, ◌≡◌, ◌≢◌, ◌⊎◌, IsIn, inl, inr, refl, sym, ap, ◌∙◌, true, false,
  some, List, [], ◌∷◌, ◌++◌, Bytes, bytes_eq, bytes_eq_iff, ◌==◌, to_string, u32_mod, All, All-imp,
  map, All-append, arith, Bool-cases, is_digit, read_digits, read_digits-to_string, print_digits,
}
use weechat_xmpp_improved.Omemo.Text.{split, join, Lacks, IsPart, split-join}
use weechat_xmpp_improved.Omemo.Store.{Kv}
use weechat_xmpp_improved.Omemo.Prekeys.{
  Signal, k_prekeys, key_for_prekey_record, index_entry, value_or,
}

to_string_inj : (n m : ℕ) → n < u32_mod → m < u32_mod → to_string n ≡ to_string m → n ≡ m
to_string_inj n m hn hm e =
    let en = read_digits-to_string n (omega arith) in
    let em = read_digits-to_string m (omega arith) in
    ap (λ p. p.0) (sym en ∙ ap (read_digits 0) e ∙ em)

print_digits-Lacks :
    (sep f n : ℕ) (out : Bytes)
    → is_digit sep ≡ false
    → Lacks sep out
    → Lacks sep (print_digits f n out)
unfolding print_digits
print_digits-Lacks sep zero n out h l = l
print_digits-Lacks sep (suc f) n out h l =
    ground (arith, print_digits-Lacks sep f (n / 10) ((b'0' + n % 10) ∷ out))

pub to_string-Lacks : (sep n : ℕ) → is_digit sep ≡ false → Lacks sep (to_string n)
unfolding to_string
to_string-Lacks sep n h = print_digits-Lacks sep 20 n [] h tt

pub index_entry-IsPart : (n : ℕ) (key : Bytes) → Lacks b';' key → IsPart b';' (index_entry n key)
unfolding index_entry
index_entry-IsPart n key l = (
  append_cons-ne-nil (to_string n) b',' key,
  All-append (λ c. (c == b';') ≡ false) (to_string n) (b',' ∷ key) (to_string-Lacks b';' n refl)
      (refl, l),
)
  where
    append_cons-ne-nil : (xs : Bytes) (c : ℕ) (ys : Bytes) → xs ++ (c ∷ ys) ≢ []
    append_cons-ne-nil [] c ys = cons-ne-nil c ys
    append_cons-ne-nil (x ∷ xs) c ys = cons-ne-nil x (xs ++ (c ∷ ys))

module _ (kv : Kv) (signal : Signal) where
  open kv use {Db, get, put, get-put}
  open signal use {
    PreKey, id, serialize, deserialize, public_key, id_lt, public_key-Lacks, deserialize-serialize,
  }

  abbrev pub index_parts : Db → List Bytes
  index_parts d = split (value_or (get k_prekeys d) []) b';'

  abbrev pub entry : PreKey → Bytes
  entry k = index_entry (id k) (public_key k)

  -- The private record under the number of a prekey is that of the prekey.
  abbrev pub Stored : Db → PreKey → Type 0
  Stored d k =
      (r : Bytes) × (get (key_for_prekey_record (id k)) d ≡ some r) × (deserialize r ≡ some k)

  abbrev pub Distinct : List PreKey → Type 0
  Distinct [] = Unit {0}
  Distinct (k ∷ ks) = All (λ other. id other ≢ id k) ks × Distinct ks

  -- Each record that can be read has the number that it is stored under.
  abbrev pub Numbered : Db → Type 0
  Numbered d =
      (n : ℕ) (r : Bytes) (k : PreKey)
      → n < u32_mod
      → get (key_for_prekey_record n) d ≡ some r
      → deserialize r ≡ some k
      → id k ≡ n

  -- The record of a prekey is stored, or its number is one of those that were used up.
  abbrev pub Held : List ℕ → Db → PreKey → Type 0
  Held used d k = IsIn (id k) used ⊎ Stored d k

  -- The index lists prekeys with different numbers, by number and public key, and the record of
  -- each is stored if its number was not used up.
  pub record IsBacked (used : List ℕ) (d : Db) : Type 0 where
    pub keys : List PreKey
    pub indexed : index_parts d ≡ map entry keys
    pub distinct : Distinct keys
    pub stored : All (Held used d) keys
    pub numbered : Numbered d

  pub get-put_same : (j i v : Bytes) (d : Db) → bytes_eq j i ≡ true → get i (put j v d) ≡ some v
  get-put_same j i v d same = get-put j v d i ∙ rw same

  pub get-put_other : (j i v : Bytes) (d : Db) → bytes_eq j i ≡ false → get i (put j v d) ≡ get i d
  get-put_other j i v d other = get-put j v d i ∙ rw other

  pub key_other :
      (n m : ℕ)
      → n < u32_mod
      → m < u32_mod
      → n ≢ m
      → bytes_eq (key_for_prekey_record n) (key_for_prekey_record m) ≡ false
  key_other n m hn hm ne = elim (Bool-cases (bytes_eq (to_string n) (to_string m))) [
    | inl same ↦
        absurd (ne (to_string_inj n m hn hm ((bytes_eq_iff (to_string n) (to_string m)).0 same)))
    | inr other ↦ other
  ]

  pub Stored-put :
      (j v : Bytes) (d : Db) (k : PreKey)
      → bytes_eq j (key_for_prekey_record (id k)) ≡ false
      → Stored d k
      → Stored (put j v d) k
  Stored-put j v d k other (r, e, read) =
      (r, get-put_other j (key_for_prekey_record (id k)) v d other ∙ e, read)

  Held-put :
      (used : List ℕ) (j v : Bytes) (d : Db) (k : PreKey)
      → bytes_eq j (key_for_prekey_record (id k)) ≡ false
      → Held used d k
      → Held used (put j v d) k
  Held-put used j v d k other (inl gone) = inl gone
  Held-put used j v d k other (inr s) = inr (Stored-put j v d k other s)

  Numbered-put :
      (j v : Bytes) (d : Db)
      → ((n : ℕ) (k : PreKey)
          → n < u32_mod
          → bytes_eq j (key_for_prekey_record n) ≡ true
          → deserialize v ≡ some k
          → id k ≡ n)
      → Numbered d
      → Numbered (put j v d)
  Numbered-put j v d fits h n r k lt e read =
      elim (Bool-cases (bytes_eq j (key_for_prekey_record n))) [
        | inl same ↦
            let e' : some v ≡ some r =
              sym (get-put_same j (key_for_prekey_record n) v d same) ∙ e in
            fits n k lt same (cc)
        | inr other ↦
            h n r k lt (sym (get-put_other j (key_for_prekey_record n) v d other) ∙ e) read
      ]

  -- A key of something else.
  abbrev pub IsOther : Bytes → Type 0
  IsOther j =
      (bytes_eq j k_prekeys ≡ false) × ((n : ℕ) → bytes_eq j (key_for_prekey_record n) ≡ false)

  -- A write at another key leaves the listed prekeys.
  pub put_other-IsBacked :
      {used : List ℕ} (j v : Bytes) (d : Db)
      → IsOther j
      → (h : IsBacked used d) → (h' : IsBacked used (put j v d)) × (h'.keys ≡ h.keys)
  put_other-IsBacked {used} j v d (ne, nes) h = (
    record {
      keys = h.keys;
      indexed = ap (λ o. split (value_or o []) b';') (get-put_other j k_prekeys v d ne) ∙ h.indexed;
      distinct = h.distinct;
      stored = All-imp h.keys (λ k s. Held-put used j v d k (nes (id k)) s) h.stored;
      numbered = Numbered-put j v d (λ n k lt same read. absurd (ground (arith, nes n))) h.numbered;
    },
    refl,
  )

  pub other-IsBacked :
      {used : List ℕ} (j v : Bytes) (d : Db)
      → IsOther j
      → IsBacked used d
      → IsBacked used (put j v d)
  other-IsBacked j v d o h = (put_other-IsBacked j v d o h).0

  -- The record of a prekey, under its number.
  pub record-Numbered :
      (k : PreKey) (bytes : Bytes) (d : Db)
      → serialize k ≡ some bytes
      → Numbered d
      → Numbered (put (key_for_prekey_record (id k)) bytes d)
  record-Numbered k bytes d e h =
      Numbered-put (key_for_prekey_record (id k)) bytes d
        (λ n k' lt same read.
          let eq : some k' ≡ some k = sym read ∙ deserialize-serialize k bytes e in
          let ids : id k ≡ n =
            to_string_inj (id k) n (id_lt k) lt
              ((bytes_eq_iff (to_string (id k)) (to_string n)).0 same) in
          cc)
        h

  pub entries-IsPart : (ks : List PreKey) → All (IsPart b';') (map entry ks)
  entries-IsPart [] = tt
  entries-IsPart (k ∷ ks) =
      (index_entry-IsPart (id k) (public_key k) (public_key-Lacks k b';' refl), entries-IsPart ks)

  -- A new index of prekeys whose records are stored or used up.
  pub Held-IsBacked :
      {used : List ℕ} (ks : List PreKey) (d : Db)
      → Distinct ks
      → All (Held used d) ks
      → Numbered d
      → IsBacked used (put k_prekeys (join (map entry ks) (b';' ∷ [])) d)
  Held-IsBacked {used} ks d ne h num = record {
    keys = ks;
    indexed =
        ap (λ o. split (value_or o []) b';')
          (get-put_same k_prekeys k_prekeys (join (map entry ks) (b';' ∷ [])) d refl)
        ∙ split-join b';' (map entry ks) (entries-IsPart ks);
    distinct = ne;
    stored =
        All-imp ks (λ k s. Held-put used k_prekeys (join (map entry ks) (b';' ∷ [])) d k refl s) h;
    numbered =
        Numbered-put k_prekeys (join (map entry ks) (b';' ∷ [])) d (λ n k lt same read. cc) num;
  }

  -- A new index of prekeys whose records are stored.
  pub index-IsBacked :
      {used : List ℕ} (ks : List PreKey) (d : Db)
      → Distinct ks
      → All (Stored d) ks
      → Numbered d
      → IsBacked used (put k_prekeys (join (map entry ks) (b';' ∷ [])) d)
  index-IsBacked ks d ne h num = Held-IsBacked ks d ne (All-imp ks (λ k s. inr s) h) num
