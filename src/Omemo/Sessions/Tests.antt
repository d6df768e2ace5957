-- ===== src/Omemo/Sessions/Tests.antt =====
-- Sessions of two devices in memory.
use weechat_xmpp_improved.Prelude.{
  ℕ, ◌≡◌, ◌↔◌, false, true, none, some, [], ◌++◌, Bytes, codes, starts_with, IsIn,
}
use weechat_xmpp_improved.Omemo.Text.{parse_uint32}
use weechat_xmpp_improved.Omemo.Prekeys.{negsuc}
use weechat_xmpp_improved.Omemo.Store.{memory, session_prefix}
use weechat_xmpp_improved.Omemo.Store.Lex.{lookup}
use weechat_xmpp_improved.Omemo.Store.Memory.{MemoryDb}
use weechat_xmpp_improved.Omemo.Sessions.{
  is_some, to_int, session_load, session_get_sub_devices, session_store_record, session_delete_all,
}
use weechat_xmpp_improved.Omemo.Sessions.Devices.{
  session_get_sub_devices_iff, session_delete_all_lem,
}

abbrev bob : Bytes
bob = codes "bob@x"

abbrev sessions : MemoryDb
sessions =
    session_store_record memory bob 7 (codes "s")
      (session_store_record memory bob 4294967291 (codes "t") ([], tt))

session_get_sub_devices_iff_example :
    IsIn (negsuc 4) (session_get_sub_devices memory bob sessions) ↔ (
      (text : Bytes) × (n : ℕ) × (parse_uint32 text ≡ some n)
      × (to_int n ≡ negsuc 4)
      × (is_some (lookup (session_prefix bob ++ text) sessions.0) ≡ true))
session_get_sub_devices_iff_example = session_get_sub_devices_iff memory bob (negsuc 4) sessions

session_delete_all_lem_example :
    let d' = (session_delete_all memory bob sessions).0 in
    ((dev : ℕ) → session_load memory bob dev d' ≡ none)
    × (session_get_sub_devices memory bob d' ≡ [])
    × ((j : Bytes)
        → starts_with (session_prefix bob) j ≡ false
        → lookup j d'.0 ≡ lookup j sessions.0)
session_delete_all_lem_example = session_delete_all_lem memory bob sessions
