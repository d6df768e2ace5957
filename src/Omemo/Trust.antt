-- ===== src/Omemo/Trust.antt =====
-- Trust of identities ("blind trust before verification"): store_tofu_trust, load_tofu_trust and
-- get_default_trust (src/omemo/internal_prelude.inl), identity_save and identity_is_trusted
-- (src/omemo/internal_signal_store.inl), distrust_fp and distrust_jid (src/omemo/commands.inl).
-- The database is open, pointers are not null, and device ids are below 2 ^ 31, where the casts
-- between int32_t and uint32_t change nothing.
pub mod Policy
pub mod Distrust
mod Tests
use weechat_xmpp_improved.Prelude.{
  ℕ, ◌≡◌, Bool, true, false, not, ◌&&◌, ◌||◌, Option, none, some, List, [], ◌∷◌, ◌++◌, Bytes, codes,
  bytes_eq, ◌==◌, if◌then◌else◌, to_string,
}
use weechat_xmpp_improved.Omemo.Text.{split, parse_uint32, is_valid_omemo_device_id}
use weechat_xmpp_improved.Omemo.Store.{
  Kv, trust_prefix, key_for_tofu_trust, key_for_identity, key_for_axolotl_devicelist,
  remove_prefixed_keys,
}
use weechat_xmpp_improved.Omemo.Store.Lex.{scan}

pub data OmemoTrust : Type 0 where
  untrusted verified undecided blind : OmemoTrust

unfoldable pub trust_code : OmemoTrust → ℕ
trust_code untrusted = 0
trust_code verified = 1
trust_code undecided = 2
trust_code blind = 3

-- The checked cast from a number.
unfoldable pub trust_of : ℕ → Option OmemoTrust
trust_of n =
    if n == 0
    then some untrusted
    else if n == 1
    then some verified
    else if n == 2
    then some undecided
    else if n == 3
    then some blind
    else none

abbrev pub is_empty : Bytes → Bool
is_empty [] = true
is_empty (c ∷ s) = false

-- A stored value that makes new devices undecided: VERIFIED or UNTRUSTED.
unfoldable pub is_decisive : Bytes → Bool
is_decisive v = elim (parse_uint32 v) [ none ↦ false | some n ↦ n == 1 || n == 0 ]

unfoldable pub is_accepted : OmemoTrust → Bool
is_accepted verified = true
is_accepted blind = true
is_accepted untrusted = false
is_accepted undecided = false

unfoldable pub read_trust : Option Bytes → Option OmemoTrust
read_trust none = none
read_trust (some v) = elim (parse_uint32 v) [ none ↦ none | some n ↦ trust_of n ]

module _ (kv : Kv) where
  open kv use {Db, get, put, seek}

  unfoldable pub store_tofu_trust : Bytes → ℕ → OmemoTrust → Db → Db
  store_tofu_trust jid device_id trust d =
      if is_empty jid || device_id == 0
      then d
      else put (key_for_tofu_trust jid device_id) (to_string (trust_code trust)) d

  unfoldable pub load_tofu_trust : Bytes → ℕ → Db → Option OmemoTrust
  load_tofu_trust jid device_id d =
      if is_empty jid || device_id == 0
      then none
      else read_trust (get (key_for_tofu_trust jid device_id) d)

  unfoldable pub get_default_trust : Bytes → Db → OmemoTrust
  get_default_trust jid d =
      if is_empty jid
      then blind
      else if scan is_decisive (trust_prefix jid) (seek (trust_prefix jid) d)
      then undecided
      else blind

  unfoldable pub identity_save : Bytes → ℕ → Bytes → Db → Db
  identity_save jid device_id key d =
      put (key_for_identity jid device_id) key (elim (get (key_for_identity jid device_id) d) [
        | none ↦ store_tofu_trust jid device_id (get_default_trust jid d) d
        | some existing ↦ d
      ])

  unfoldable pub identity_is_trusted : Bytes → ℕ → Bytes → Db → Bool
  identity_is_trusted jid device_id key d = elim (get (key_for_identity jid device_id) d) [
    | none ↦ is_accepted (get_default_trust jid d)
    | some stored ↦
        if not (bytes_eq stored key)
        then false
        else elim (load_tofu_trust jid device_id d) [ none ↦ true | some trust ↦ is_accepted trust ]
  ]

  -- Whether this entry of the device list is to be marked, and its number.
  pub marked_id : Option ℕ → Bytes → Option ℕ
  marked_id device_id dev = elim (parse_uint32 dev) [
    | none ↦ none
    | some n ↦
        if not (is_valid_omemo_device_id n)
        then none
        else elim device_id [ none ↦ some n | some wanted ↦ if n == wanted then some n else none ]
  ]

  pub mark : Bytes → Option ℕ → List Bytes → Db → Db
  mark jid device_id [] d = d
  mark jid device_id (dev ∷ devs) d =
      mark jid device_id devs
        (elim (marked_id device_id dev) [ none ↦ d | some n ↦ store_tofu_trust jid n untrusted d ])

  unfoldable pub distrust_fp : Bytes → Option ℕ → Db → Db
  unfolding mark marked_id
  distrust_fp jid device_id d = elim (get (key_for_axolotl_devicelist jid) d) [
    | none ↦ d
    | some devlist ↦ mark jid device_id (split devlist b';') d
  ]

  unfoldable pub distrust_jid : Bytes → Db → Db
  distrust_jid jid d = remove_prefixed_keys kv (codes "session:" ++ (jid ++ (b':' ∷ []))) (
      remove_prefixed_keys kv (codes "bundle:" ++ (jid ++ (b':' ∷ [])))
        (remove_prefixed_keys kv (codes "identity_key:" ++ jid) d))
