-- ===== src/Omemo/Sessions.antt =====
-- The callbacks of the signal store on keys and sessions (src/omemo/internal_signal_store.inl).
-- Pointers are not null and signal_buffer_create has memory; `none` stands for the code of a
-- record that is not there. The device number of a session is taken as the uint32_t that its key
-- is written with, that of a sender key below 2 ^ 31.
pub mod Devices
mod Tests
use weechat_xmpp_improved.Prelude.{
  ℕ, ◌+◌, Bool, true, false, Option, none, some, List, [], ◌∷◌, ◌++◌, Bytes, codes, starts_with,
  drop, length, ◌==◌, if◌then◌else◌, ltb, ◌-◌, ◌^◌,
}
use weechat_xmpp_improved.Omemo.Text.{parse_uint32}
use weechat_xmpp_improved.Omemo.Store.{
  Kv, session_prefix, key_for_session, key_for_sender_key, remove_keys,
}
use weechat_xmpp_improved.Omemo.Prekeys.{
  ℤ, pos, negsuc, k_identity_public_key, k_registration_id, k_identity_private_key,
  key_for_prekey_record, key_for_signed_prekey_record,
}

abbrev pub is_some {ℓ} : {A : Type ℓ} → Option A → Bool
is_some none = false
is_some (some a) = true

-- static_cast<int> of a uint32_t.
unfoldable pub to_int : ℕ → ℤ
to_int n = if ltb n (2 ^ 31) then pos n else negsuc (2 ^ 32 - 1 - n)

-- The number behind the prefix of a key, if the key has the prefix and a number behind it.
unfoldable pub device_of : Bytes → Bytes → Option ℕ
device_of prefix key =
    if starts_with prefix key then parse_uint32 (drop (length prefix) key) else none

-- The loop of the cursor, which moves over every key.
unfoldable pub devices : Bytes → List (Bytes × Bytes) → List ℤ
devices prefix [] = []
devices prefix ((key, value) ∷ es) =
    let later = devices prefix es in
    elim (device_of prefix key) [ none ↦ later | some device ↦ to_int device ∷ later ]

unfoldable pub count_with : Bytes → List (Bytes × Bytes) → ℕ
count_with prefix [] = 0
count_with prefix ((key, value) ∷ es) =
    let later = count_with prefix es in if starts_with prefix key then later + 1 else later

module _ (kv : Kv) where
  open kv use {Db, get, put, del, entries}

  unfoldable pub identity_get_key_pair : Db → Option (Bytes × Bytes)
  identity_get_key_pair d = elim (get k_identity_public_key d) [
    | none ↦ none
    | some public ↦ elim (get k_identity_private_key d) [
      | none ↦ none
      | some private ↦ some (public, private)
    ]
  ]

  unfoldable pub identity_get_local_registration_id : Db → Option ℕ
  identity_get_local_registration_id d = elim (get k_registration_id d) [
    | none ↦ none
    | some stored ↦ elim (parse_uint32 stored) [
      | none ↦ none
      | some n ↦ if n == 0 then none else some n
    ]
  ]

  unfoldable pub pre_key_load : ℕ → Db → Option Bytes
  pre_key_load id d = get (key_for_prekey_record id) d

  unfoldable pub pre_key_store_record : ℕ → Bytes → Db → Db
  pre_key_store_record id record_bytes d = put (key_for_prekey_record id) record_bytes d

  unfoldable pub pre_key_contains : ℕ → Db → Bool
  pre_key_contains id d = is_some (get (key_for_prekey_record id) d)

  unfoldable pub pre_key_remove : ℕ → Db → Db
  pre_key_remove id d = del (key_for_prekey_record id) d

  unfoldable pub signed_pre_key_load : ℕ → Db → Option Bytes
  signed_pre_key_load id d = get (key_for_signed_prekey_record id) d

  unfoldable pub signed_pre_key_store_record : ℕ → Bytes → Db → Db
  signed_pre_key_store_record id record_bytes d =
      put (key_for_signed_prekey_record id) record_bytes d

  unfoldable pub signed_pre_key_contains : ℕ → Db → Bool
  signed_pre_key_contains id d = is_some (get (key_for_signed_prekey_record id) d)

  unfoldable pub signed_pre_key_remove : ℕ → Db → Db
  signed_pre_key_remove id d = del (key_for_signed_prekey_record id) d

  unfoldable pub session_load : Bytes → ℕ → Db → Option Bytes
  session_load name device_id d = get (key_for_session name device_id) d

  unfoldable pub session_get_sub_devices : Bytes → Db → List ℤ
  session_get_sub_devices name d = devices (session_prefix name) (entries d)

  unfoldable pub session_store_record : Bytes → ℕ → Bytes → Db → Db
  session_store_record name device_id record_bytes d =
      put (key_for_session name device_id) record_bytes d

  unfoldable pub session_contains : Bytes → ℕ → Db → Bool
  session_contains name device_id d = is_some (get (key_for_session name device_id) d)

  -- Whether there was a session too.
  unfoldable pub session_delete : Bytes → ℕ → Db → Db × Bool
  session_delete name device_id d =
      (del (key_for_session name device_id) d, is_some (get (key_for_session name device_id) d))

  -- The number of keys that are removed too.
  unfoldable pub session_delete_all : Bytes → Db → Db × ℕ
  session_delete_all name d = (
    remove_keys kv (session_prefix name) (entries d) d,
    count_with (session_prefix name) (entries d),
  )

  unfoldable pub sender_key_store_record : Bytes → Bytes → ℕ → Bytes → Db → Db
  sender_key_store_record group name device_id record_bytes d =
      put (key_for_sender_key group name device_id) record_bytes d

  unfoldable pub sender_key_load : Bytes → Bytes → ℕ → Db → Option Bytes
  sender_key_load group name device_id d = get (key_for_sender_key group name device_id) d
