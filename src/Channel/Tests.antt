-- ===== src/Channel/Tests.antt =====
-- A chat with one contact.
use weechat_xmpp_improved.Prelude.{
  ℕ, ◌≡◌, true, false, not, List, [], ◌∷◌, Bytes, codes, if◌then◌else◌, arith,
}
use weechat_xmpp_improved.Channel.{
  new_chat, post, to_jid, send_paused, self_typing_cb, send_typing, Event, active, gone, typing,
  timer, marked, run,
}
use weechat_xmpp_improved.Channel.Idle.{run-new_chat_idle}
use weechat_xmpp_improved.Channel.Alternate.{IsKept, run-new_chat-IsKept}

abbrev contact : Bytes
contact = codes "bob@x"

abbrev address : ℕ → Bytes
address user = codes "ann@x"

abbrev events : List Event
events = marked contact ∷ active 0 ∷ typing 0 20 ∷ timer 21 ∷ gone 0 ∷ []

run-new_chat-IsKept_example : IsKept (run true false contact address events new_chat)
run-new_chat-IsKept_example = run-new_chat-IsKept true false contact address events

run-new_chat_idle_example :
    let c = run true false contact address events new_chat in
    (c.self_typings ≡ [])
    × (self_typing_cb true false contact address 30 c ≡ c)
    × (send_typing true false contact address 0 30 c ≡ (
        if not true
        then c
        else post
            (to_jid true false contact address 0)
            (codes "composing")
            (codes "composing")
            (send_paused true false contact address 0 c)))
run-new_chat_idle_example =
    run-new_chat_idle true false contact address events 0 30
      (tt, (tt, (omega arith, (tt, (tt, tt))))) (omega arith)
