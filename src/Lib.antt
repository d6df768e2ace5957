-- ===== src/Lib.antt =====
-- weechat-xmpp: an XMPP client as a plugin of WeeChat.
-- The plugin talks to a server through libstrophe and to the user through WeeChat. An account keeps
-- the state of a stream and of OMEMO; a connection hands incoming stanzas to handlers and sends
-- what the components build; texts of messages pass through renderers before they are printed.
-- This library models the parts whose behaviour is decided in the program itself.
--
-- Prelude: bytes, Boolean tests, lists, and the number functions of the C++ library. A text is the
--   list of its byte values; <cctype> is that of the C locale.
-- Sm: stream management, XEP-0198 (src/connection/stream_management.inl, src/xmpp/xep-0198.inl, the
--   sm_ fields of src/account.hh, connection::send of src/connection.cpp, and parts of
--   src/connection/connect_lifecycle.inl, src/account/callbacks.inl and src/account.cpp). A Session
--   holds the fields, what was handed to libstrophe and what was printed; each branch of sm_handler
--   is a function into the next session, or into none where std::stoul throws. Sm.Spec has the
--   abstract ledger and the events of a session, Sm.Life those that begin and end one. Counters wrap
--   at 2 ^ 32.
-- Styling: apply_xep393_styling (src/util.cpp). The loop runs on fuel; every round reads a
--   character, so the length of the text is enough.
-- Omemo: the text helpers (Omemo.Text), PKCS#7 padding (Omemo.Padding), the text form of bundles
--   (Omemo.Bundle), the database (Omemo.Store) and the trust of identities (Omemo.Trust), from
--   src/omemo/internal_prelude.inl, internal_crypto.inl, internal_signal_store.inl and
--   commands.inl. LMDB is not part of the program: it is a record of operations with the laws that
--   its documentation states, and a sorted list shows that the laws can be met. Omemo.Prekeys has
--   the signed prekey, the prekeys and their index, Omemo.Publish the bundle that is published
--   (internal_signal_store.inl and lifecycle.inl); the prekeys of libsignal are opaque (Signal), and
--   what its generators return is an argument of each call. Omemo.Prekeys.Reached has the steps on the
--   prekeys, with the removal of a used one by libsignal apart from its replacement. Omemo.Sessions has the callbacks of the
--   signal store on keys, sessions and sender keys (internal_signal_store.inl).
-- Picker: the list with a filter of src/ui/picker.hh and src/ui/picker.cpp. A Picker holds the
--   fields and the calls made so far; Picker.Actions has the member functions, Picker.Sort the order
--   of the constructor (std::ranges::stable_sort by its documented result), and Picker.Runs the
--   events of a picker's life. A key turns at most as many rows as there are.
-- Html: html_strip_to_plain (src/xmpp/xhtml.cpp). Html.round is a round of the loop, a function into
--   the next mode, the text put out and the text left; every round reads a character, so the length
--   of the text is fuel enough. Html.Entity has the entities and UTF-8, Html.Layout the end.
-- Xhtml: css_color_to_weechat, css_style_to_weechat and xhtml_to_weechat of the same file. A stanza is
--   a tree of names, texts and the three attributes that are read; none stands for an exception of
--   std::stoul.
-- Jid: the constructor of jid (src/xmpp/node.cpp), its regular expression as a cut at the first '/'
--   and the first '@'.
-- Markup: apply_xep394_markup (src/util.cpp). The marks are a list of names, ranges and items; std::sort
--   is a parameter, and its result a hypothesis: in order, and with nothing new in it.
-- Markdown: apply_markdown_to_weechat (src/util.cpp). Markdown.Spans has the spans within a line,
--   Markdown.Blocks the lines, in the order in which the code tries them.
-- Preview: attr_value, decode_html_entities and parse_og_from_html (src/connection/helpers.cpp).
--   Preview.Tags has the attributes and entities, Preview.Page the page; a place in a text is the
--   text from there on. Preview.Offers says what a tag offers.
-- Channel: the chat states that a channel sends (src/channel.cpp). A Chat holds the fields and what was
--   sent; users are pointers with an address each, and every event has the time of the clock.
--
-- Not modelled: libstrophe, WeeChat, LMDB, libsignal and libgcrypt; the handlers of messages,
-- presence and queries, which mostly call those; commands, configuration, the rest of channels,
-- avatars and PGP. Colour codes (weechat_color) are a parameter, and so are hooks.
pub mod Prelude
pub mod Sm
pub mod Styling
pub mod Omemo
pub mod Picker
pub mod Jid
pub mod Markup
pub mod Markdown
pub mod Preview
pub mod Channel
pub mod Html
pub mod Xhtml
