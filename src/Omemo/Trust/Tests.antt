-- ===== src/Omemo/Trust/Tests.antt =====
-- The trust functions over a database in memory.
use weechat_xmpp_improved.Prelude.{
  ℕ, ◌≡◌, ◌↔◌, ◌≢◌, refl, inl, false, ◌&&◌, none, [], Bytes, codes, arith, bytes_eq, to_string,
  print_digits, read_digits,
}
use weechat_xmpp_improved.Omemo.Text.{split, parse_uint32, is_valid_omemo_device_id}
use weechat_xmpp_improved.Omemo.Store.{
  memory, key_for_tofu_trust, key_for_identity, key_for_axolotl_devicelist,
}
use weechat_xmpp_improved.Omemo.Store.Lex.{lt_lex, lookup}
use weechat_xmpp_improved.Omemo.Store.Memory.{MemoryDb, memory_put, insert}
use weechat_xmpp_improved.Omemo.Trust.{
  undecided, is_accepted, get_default_trust, identity_save, identity_is_trusted, distrust_fp,
  distrust_jid,
}
use weechat_xmpp_improved.Omemo.Trust.Policy.{
  HasDecision, get_default_trust_iff, identity_is_trusted-identity_save,
}
use weechat_xmpp_improved.Omemo.Trust.Distrust.{distrust_fp_rejects, distrust_jid_keeps}

abbrev nothing : MemoryDb
nothing = ([], tt)

abbrev anna : Bytes
anna = codes "a@x"

anna-ne-nil : anna ≢ []
anna-ne-nil = cc

-- One device listed, its identity stored.
abbrev listed : MemoryDb
listed =
    memory_put (key_for_axolotl_devicelist anna) (codes "5;")
      (memory_put (key_for_identity anna 5) (codes "k") nothing)

abbrev decided : MemoryDb
decided = memory_put (key_for_tofu_trust anna 5) (to_string 1) nothing

get_default_trust_iff_example :
    (get_default_trust memory anna decided ≡ undecided) ↔ HasDecision memory anna decided
get_default_trust_iff_example = get_default_trust_iff memory anna decided anna-ne-nil

identity_is_trusted-identity_save_example :
    identity_is_trusted memory anna 5 (codes "k") (identity_save memory anna 5 (codes "k") nothing)
    ≡ (bytes_eq (codes "k") (codes "k") && is_accepted (get_default_trust memory anna nothing))
unfolding lookup
identity_is_trusted-identity_save_example =
    identity_is_trusted-identity_save memory anna 5 (codes "k") (codes "k") nothing anna-ne-nil
      (omega arith) refl

distrust_fp_rejects_example :
    identity_is_trusted memory anna 5 (codes "k") (distrust_fp memory anna none listed) ≡ false
unfolding lookup insert lt_lex split parse_uint32 read_digits is_valid_omemo_device_id to_string
    print_digits
distrust_fp_rejects_example =
    distrust_fp_rejects memory anna (codes "5;") (codes "5") none 5 (codes "k") listed anna-ne-nil
      refl (inl refl) refl refl (inl refl)

distrust_jid_keeps_example :
    ((m : ℕ)
      → lookup (key_for_identity anna m) (distrust_jid memory anna listed).0
        ≡ lookup (key_for_identity anna m) listed.0)
    × ((m : ℕ)
        → lookup (key_for_tofu_trust anna m) (distrust_jid memory anna listed).0
          ≡ lookup (key_for_tofu_trust anna m) listed.0)
    × (identity_is_trusted memory anna 5 (codes "k") (distrust_jid memory anna listed)
        ≡ identity_is_trusted memory anna 5 (codes "k") listed)
unfolding lookup insert lt_lex to_string print_digits
distrust_jid_keeps_example = distrust_jid_keeps memory anna 5 (codes "k") (codes "k") listed refl
