-- ===== src/Jid/Tests.antt =====
-- An address with all its parts.
use weechat_xmpp_improved.Prelude.{◌≡◌, refl, codes}
use weechat_xmpp_improved.Jid.{
  jid, write, write_bare, jid-write, all_plain, is_part, is_resource, is_quoting,
}

jid-write_example : jid (write (codes "anna") (codes "x.org") (codes "a/b")) ≡ record {
  full = write (codes "anna") (codes "x.org") (codes "a/b");
  bare = write_bare (codes "anna") (codes "x.org");
  local = codes "anna";
  domain = codes "x.org";
  resource = codes "a/b";
}
unfolding all_plain is_part is_resource is_quoting
jid-write_example = jid-write (codes "anna") (codes "x.org") (codes "a/b") refl refl refl
