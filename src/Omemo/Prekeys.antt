-- ===== src/Omemo/Prekeys.antt =====
-- The keys that the account publishes (src/omemo/internal_signal_store.inl): the signed prekey and
-- its rotation, the prekeys and their index, and the bundle made of them. libsignal is not part of
-- the program: its keys are opaque, and what its generators return is an argument of each call.
-- Contexts and pointers are not null, and the clock is not below 0.
pub mod Backed
pub mod Batch
pub mod Keeps
pub mod Reached
pub mod Repair
use weechat_xmpp_improved.Prelude.{
  cut_at, ℕ, zero, suc, ◌+◌, ◌-◌, ◌^◌, ◌%◌, ◌<◌, ◌≡◌, u32_mod, Bool, true, false, not, ◌&&◌, ◌||◌,
  Option, none, some, List, [], ◌∷◌, ◌++◌, map, Bytes, codes, is_digit, read_digits, bytes_eq, ltb,
  leb, ◌==◌, if◌then◌else◌, length, to_string,
}
use weechat_xmpp_improved.Omemo.Text.{split, join, parse_uint32, Lacks}
use weechat_xmpp_improved.Omemo.Bundle.{BundleMetadata, serialize_bundle, deserialize_bundle}
use weechat_xmpp_improved.Omemo.Store.{Kv, key_for_bundle}
use weechat_xmpp_improved.Omemo.Trust.{is_empty}

abbrev pub is_base64 : ℕ → Bool
is_base64 c =
    is_digit c
    || (leb b'a' c && leb c b'z')
    || (leb b'A' c && leb c b'Z')
    || c == b'+'
    || c == b'/'
    || c == b'='

-- Prekeys of libsignal: session_pre_key_get_id, session_pre_key_serialize and _deserialize, and
-- the public key in base64. Numbers are of 32 bits, base64 has letters,
-- digits, '+', '/' and '=' alone, and what is serialized can be read again.
pub record Signal : Type 1 where
  pub PreKey : Type 0
  pub id : PreKey → ℕ
  pub serialize : PreKey → Option Bytes
  pub deserialize : Bytes → Option PreKey
  pub public_key : PreKey → Bytes
  pub id_lt : (k : PreKey) → id k < u32_mod
  pub public_key-Lacks : (k : PreKey) (c : ℕ) → is_base64 c ≡ false → Lacks c (public_key k)
  pub deserialize-serialize :
      (k : PreKey) (r : Bytes) → serialize k ≡ some r → deserialize r ≡ some k

-- What generate_and_store_spk stores of a new signed prekey.
pub record SignedPreKey : Type 0 where
  pub bytes : Bytes
  pub public_key : Bytes
  pub signature : Bytes

-- One call of generate_and_store_spk: the time, and the signed prekey of a number, unless
-- libsignal fails.
pub record Generation : Type 0 where
  pub now : ℕ
  pub signed : ℕ → Option SignedPreKey

abbrev pub k_signed_pre_key_id : Bytes
k_signed_pre_key_id = codes "signed_pre_key:id"

abbrev pub k_signed_pre_key_record : Bytes
k_signed_pre_key_record = codes "signed_pre_key:record"

abbrev pub k_signed_pre_key_public : Bytes
k_signed_pre_key_public = codes "signed_pre_key:public"

abbrev pub k_signed_pre_key_signature : Bytes
k_signed_pre_key_signature = codes "signed_pre_key:signature"

abbrev pub k_signed_pre_key_timestamp : Bytes
k_signed_pre_key_timestamp = codes "signed_pre_key:generated_at"

abbrev pub k_prekeys : Bytes
k_prekeys = codes "prekeys"

abbrev pub k_max_pre_key_id : Bytes
k_max_pre_key_id = codes "max_pre_key_id"

abbrev pub k_identity_public_key : Bytes
k_identity_public_key = codes "identity:public"

abbrev pub k_identity_private_key : Bytes
k_identity_private_key = codes "identity:private"

abbrev pub k_registration_id : Bytes
k_registration_id = codes "registration_id"

abbrev pub k_signed_pre_key_rotation_secs : ℕ
k_signed_pre_key_rotation_secs = 604800

abbrev pub k_pre_key_start : ℕ
k_pre_key_start = 1

abbrev pub k_pre_key_count : ℕ
k_pre_key_count = 100

abbrev pub k_max_omemo_device_id : ℕ
k_max_omemo_device_id = 0x7fffffff

abbrev pub key_for_prekey_record : ℕ → Bytes
key_for_prekey_record id = codes "prekey:" ++ to_string id

abbrev pub key_for_signed_prekey_record : ℕ → Bytes
key_for_signed_prekey_record id = codes "signed-prekey:" ++ to_string id

-- `negsuc n` is -(n + 1).
pub data ℤ : Type 0 where
  pos : ℕ → ℤ
  negsuc : ℕ → ℤ

all_digits : ℕ → Bytes → Option ℕ
all_digits limit [] = none
all_digits limit (c ∷ s) =
    if is_digit c
    then (let (n, rest) = read_digits 0 (c ∷ s) in
        elim rest [ [] ↦ if leb n limit then some n else none | d ∷ t ↦ none ])
    else none

negated : Option ℕ → Option ℤ
negated none = none
negated (some zero) = some (pos 0)
negated (some (suc n)) = some (negsuc n)

unfoldable pub parse_int64 : Bytes → Option ℤ
unfolding all_digits negated
parse_int64 [] = none
parse_int64 (c ∷ s) =
    if c == b'-'
    then negated (all_digits (2 ^ 63) s)
    else elim (all_digits (2 ^ 63 - 1) (c ∷ s)) [ none ↦ none | some n ↦ some (pos n) ]

-- now - timestamp >= kSignedPreKeyRotationSecs
is_old : ℕ → ℤ → Bool
is_old now (pos t) = leb (t + k_signed_pre_key_rotation_secs) now
is_old now (negsuc n) = leb k_signed_pre_key_rotation_secs (now + n + 1)

abbrev pub value_or {ℓ} : {A : Type ℓ} → Option A → A → A
value_or none a = a
value_or (some b) a = b

unfoldable pub should_rotate : ℕ → Option Bytes → Bool
unfolding is_old
should_rotate now none = true
should_rotate now (some ts) = is_old now (value_or (parse_int64 ts) (pos 0))

unfoldable pub stored_number : Option Bytes → ℕ → ℕ
stored_number none default = default
stored_number (some s) default = value_or (parse_uint32 s) default

-- The number behind the current one, from 1 on again behind the last.
unfoldable pub next_spk_id : ℕ → ℕ
next_spk_id current = if current == 0 || leb k_max_omemo_device_id current then 1 else current + 1

unfoldable pub start_id : ℕ → ℕ
start_id prev_max =
    let next = (prev_max + 1) % u32_mod in
    if ltb (k_max_omemo_device_id - k_pre_key_count) next then k_pre_key_start else next

unfoldable pub index_entry : ℕ → Bytes → Bytes
index_entry id key = to_string id ++ (b',' ∷ key)

pub listed_as : ℕ → Bytes → Bool
listed_as used_id p = elim (cut_at b',' p) [
  | none ↦ false
  | some (n, key) ↦ value_or (parse_uint32 n) 0 == used_id
]

-- The first entry with the number is replaced, or the entry is put behind all.
unfoldable pub replace_entry : ℕ → Bytes → List Bytes → List Bytes
unfolding listed_as
replace_entry used_id entry [] = entry ∷ []
replace_entry used_id entry (p ∷ ps) =
    if listed_as used_id p then entry ∷ ps else p ∷ replace_entry used_id entry ps

module _ (kv : Kv) (signal : Signal) where
  open kv use {Db, get, put}
  open signal use {PreKey, id, serialize, deserialize, public_key}

  -- The index entry of the record under a number, if there is a record that can be read.
  unfoldable pub recovered : ℕ → Db → Option Bytes
  recovered n d = elim (get (key_for_prekey_record n) d) [
    | none ↦ none
    | some bytes ↦ if is_empty bytes then none else elim (deserialize bytes) [
      | none ↦ none
      | some k ↦ if is_empty (public_key k) then none else some (index_entry (id k) (public_key k))
    ]
  ]

  unfoldable pub recovered_from : ℕ → ℕ → Db → List Bytes
  recovered_from n zero d = []
  recovered_from n (suc count) d =
      let later = recovered_from (n + 1) count d in
      elim (recovered n d) [ none ↦ later | some entry ↦ entry ∷ later ]

  -- The number of entries of the new index.
  unfoldable pub repair_prekeys_index : Db → Db × ℕ
  repair_prekeys_index d = elim (recovered_from k_pre_key_start k_pre_key_count d) [
    | [] ↦ (d, 0)
    | entry ∷ entries ↦
        (put k_prekeys (join (entry ∷ entries) (b';' ∷ [])) d, length (entry ∷ entries))
  ]

  unfoldable pub store_spk : ℕ → ℕ → SignedPreKey → Db → Db
  store_spk now new_spk_id spk d = put k_signed_pre_key_timestamp (to_string now) (
      put k_signed_pre_key_signature spk.signature (
        put k_signed_pre_key_public spk.public_key (
          put (key_for_signed_prekey_record new_spk_id) spk.bytes (
            put k_signed_pre_key_record spk.bytes
              (put k_signed_pre_key_id (to_string new_spk_id) d)))))

  unfoldable pub generate_and_store_spk : Generation → ℕ → Db → Db × Bool
  generate_and_store_spk g new_spk_id d = elim (g.signed new_spk_id) [
    | none ↦ (d, false)
    | some spk ↦ (store_spk g.now new_spk_id spk d, true)
  ]

  unfoldable pub rotate_signed_prekey_if_due : ℕ → Generation → Db → Db × Bool
  rotate_signed_prekey_if_due now g d =
      if should_rotate now (get k_signed_pre_key_timestamp d)
      then generate_and_store_spk g (next_spk_id (stored_number (get k_signed_pre_key_id d) 0)) d
      else (d, false)

  -- The loop over the new prekeys: the records stored, the entries of the index and the highest
  -- number. A prekey that cannot be serialized is left out.
  unfoldable pub store_prekeys : List PreKey → ℕ → Db → Db × List Bytes × ℕ
  store_prekeys [] max_id d = (d, [], max_id)
  store_prekeys (k ∷ ks) max_id d = elim (serialize k) [
    | none ↦ store_prekeys ks max_id d
    | some bytes ↦
        let (d', entries, new_max) =
          store_prekeys ks (if ltb max_id (id k) then id k else max_id)
            (put (key_for_prekey_record (id k)) bytes d) in
        (d', index_entry (id k) (public_key k) ∷ entries, new_max)
  ]

  unfoldable pub regenerate_from : ℕ → (ℕ → Option (List PreKey)) → Db → Db × Bool
  regenerate_from prev_max generate d = elim (generate (start_id prev_max)) [
    | none ↦ (d, false)
    | some ks ↦
        let (d', entries, new_max) = store_prekeys ks prev_max d in
        (
          put k_max_pre_key_id (to_string new_max) (put k_prekeys (join entries (b';' ∷ [])) d'),
          true,
        )
  ]

  unfoldable pub regenerate : (ℕ → Option (List PreKey)) → Db → Db × Bool
  regenerate generate d =
      regenerate_from (stored_number (get k_max_pre_key_id d) (k_pre_key_start - 1)) generate d

  -- Without a signed prekey one is made first.
  unfoldable pub generate_first : Generation → (ℕ → Option (List PreKey)) → Db → Db × Bool
  generate_first g generate d = elim (get k_signed_pre_key_record d) [
    | some record_bytes ↦ regenerate generate d
    | none ↦
        let (d', done) = generate_and_store_spk g 1 d in
        if done then regenerate generate d' else (d', false)
  ]

  unfoldable pub check_index : Bytes → Db → Db × Bool
  check_index index d =
      let old_count = length (split index b';') in
      let (d', repaired_count) = repair_prekeys_index d in
      if ltb old_count k_pre_key_count then (d', ltb old_count repaired_count) else (d, false)

  -- What ensure_prekeys does without a rotation.
  unfoldable pub keep_prekeys : Generation → (ℕ → Option (List PreKey)) → Db → Db × Bool
  keep_prekeys g generate d = elim (get k_signed_pre_key_record d) [
    | none ↦ generate_first g generate d
    | some record_bytes ↦ elim (get k_prekeys d) [
      | none ↦ generate_first g generate d
      | some index ↦ check_index index d
    ]
  ]

  unfoldable pub after_rotation : Generation → (ℕ → Option (List PreKey)) → Db × Bool → Db × Bool
  after_rotation g generate (d, rotated) =
      if rotated then generate_first g generate d else keep_prekeys g generate d

  -- `now`, `rotation` and `first` are the clock and the calls of generate_and_store_spk, `generate`
  -- is what libsignal makes of kPreKeyCount prekeys from a number on.
  unfoldable pub ensure_prekeys :
      ℕ → Generation → Generation → (ℕ → Option (List PreKey)) → Db → Db × Bool
  ensure_prekeys now rotation first generate d =
      after_rotation first generate (rotate_signed_prekey_if_due now rotation d)

  -- `made` is the first node of the list that libsignal makes, if it makes one.
  unfoldable pub replace_used_prekey : Option PreKey → ℕ → Db → Db × Bool
  replace_used_prekey none used_id d = (d, false)
  replace_used_prekey (some k) used_id d = elim (serialize k) [
    | none ↦ (d, false)
    | some bytes ↦
        let d' = put (key_for_prekey_record used_id) bytes d in
        let parts = split (value_or (get k_prekeys d') []) b';' in
        (
          put k_prekeys
              (join (replace_entry used_id (index_entry used_id (public_key k)) parts) (b';' ∷ []))
              d',
          true,
        )
  ]
