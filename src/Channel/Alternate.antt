-- ===== src/Channel/Alternate.antt =====
-- send_active, send_paused, send_inactive, send_gone and send_typing (src/channel.cpp): the map of the
-- states that were sent and the states themselves.
use weechat_xmpp_improved.Prelude.{
  ℕ, ◌≡◌, refl, sym, ap, ◌∙◌, Bool, true, false, not, ◌||◌, List, [], ◌∷◌, ◌++◌, Bytes, codes,
  bytes_eq, bytes_eq_iff, if◌then◌else◌, if-cases, Bool-cases, inl, inr, arith,
}
use weechat_xmpp_improved.Channel.{
  Typing, Chat, new_chat, post, with_typings, set, is_late, kept, self_typing_search, touch, to_jid,
  send_once, send_paused, pause_late, self_typing_cb, add_self_typing, compose, send_typing, Event,
  active, paused, inactive, gone, typing, timer, marked, step, run,
}
use weechat_xmpp_improved.Channel.Idle.{guard, send_once-cases, send_gone-cases}

-- The last state that was sent to an address.
abbrev pub latest : Bytes → List (Bytes × Bytes) → Bytes
latest jid [] = []
latest jid ((j, state) ∷ older) = if bytes_eq j jid then state else latest jid older

-- What is remembered of a state: nothing of "gone".
abbrev pub remembered_of : Bytes → Bytes
remembered_of state = if bytes_eq state (codes "gone") then [] else state

abbrev pub may_follow : Bytes → Bytes → Bool
may_follow state before =
    bytes_eq state (codes "composing")
    || bytes_eq state (codes "gone")
    || not (bytes_eq before state)

abbrev pub IsAlternating : List (Bytes × Bytes) → Type 0
IsAlternating [] = Unit {0}
IsAlternating ((jid, state) ∷ older) =
    (may_follow state (latest jid older) ≡ true) × IsAlternating older

abbrev pub IsRemembered : Chat → Type 0
IsRemembered c = (jid : Bytes) → c.last_sent_chat_state jid ≡ remembered_of (latest jid c.sent)

abbrev pub IsKept : Chat → Type 0
IsKept c = IsRemembered c × IsAlternating c.sent

either :
    (b : Bool) (remembered state last before : Bytes)
    → remembered ≡ remembered_of state
    → last ≡ remembered_of before
    → (if b then remembered else last) ≡ remembered_of (if b then state else before)
either true remembered state last before h k = h
either false remembered state last before h k = k

post-IsKept :
    (jid remembered state : Bytes) (c : Chat)
    → remembered ≡ remembered_of state
    → may_follow state (latest jid c.sent) ≡ true
    → IsKept c
    → IsKept (post jid remembered state c)
unfolding set
post-IsKept jid remembered state c h follows (k, alternates) = (
  λ j.
      either (bytes_eq jid j) remembered state (c.last_sent_chat_state j) (latest j c.sent) h (k j),
  (follows, alternates),
)

or_true : (a b : Bool) → (a || b || true) ≡ true
or_true a b = ground arith

-- A state other than the one remembered may follow.
other-may_follow :
    (state before last : Bytes)
    → state ≡ remembered_of state
    → last ≡ remembered_of before
    → bytes_eq last state ≡ false
    → may_follow state before ≡ true
other-may_follow state before last plain k differs = elim (Bool-cases (bytes_eq before state)) [
  | inl e ↦
      let same =
        (bytes_eq_iff last state).1
          (k ∙ ap remembered_of ((bytes_eq_iff before state).0 e) ∙ sym plain) in
      absurd (ground (arith, same, differs))
  | inr e ↦
      ap (λ b. bytes_eq state (codes "composing") || bytes_eq state (codes "gone") || not b) e
      ∙ or_true (bytes_eq state (codes "composing")) (bytes_eq state (codes "gone"))
]

module _ (send_chat_states is_muc : Bool) (id : Bytes) (user_id : ℕ → Bytes) where
  once-IsKept :
      (state : Bytes) (user : ℕ) (c : Chat)
      → state ≡ remembered_of state
      → IsKept c
      → IsKept (send_once send_chat_states is_muc id user_id state user c)
  once-IsKept state user c plain k =
      let jid = to_jid send_chat_states is_muc id user_id user in
      send_once-cases send_chat_states is_muc id user_id IsKept state user c k (λ differs.
        post-IsKept jid state state c plain
          (other-may_follow state (latest jid c.sent) (c.last_sent_chat_state jid) plain (k.0 jid)
            differs)
          k)

  late-IsKept :
      (now : ℕ) (ts : List Typing) (c : Chat)
      → IsKept c
      → IsKept (pause_late send_chat_states is_muc id user_id now ts c)
  unfolding pause_late
  late-IsKept now [] c k = k
  late-IsKept now (t ∷ ts) c k = late-IsKept now ts _ (
      if-cases IsKept (is_late now t) (send_paused send_chat_states is_muc id user_id t.user c) c
        (λ e. once-IsKept (codes "paused") t.user c refl k) (λ e. k))

  timer-IsKept :
      (now : ℕ) (c : Chat)
      → IsKept c
      → IsKept (self_typing_cb send_chat_states is_muc id user_id now c)
  unfolding self_typing_cb
  timer-IsKept now c k = late-IsKept now c.self_typings (with_typings (kept now c.self_typings) c) k

  typing-IsKept :
      (user now : ℕ) (c : Chat)
      → IsKept c
      → IsKept (send_typing send_chat_states is_muc id user_id user now c)
  unfolding send_typing add_self_typing compose
  typing-IsKept user now c k =
      let grown : Chat = with_typings (c.self_typings ++ (record { user = user; ts = 0 } ∷ [])) c in
      guard IsKept (not send_chat_states) c _ k (
        if-cases (λ (r : Chat × Bool). IsKept (compose send_chat_states is_muc id user_id user r))
          (self_typing_search user c.self_typings) _ _
          (λ e. timer-IsKept now (with_typings (touch user now c.self_typings) c) k)
          (λ e.
            post-IsKept (to_jid send_chat_states is_muc id user_id user) (codes "composing")
              (codes "composing") (self_typing_cb send_chat_states is_muc id user_id now grown) refl
              refl (timer-IsKept now grown k)))

  step-IsKept :
      (ev : Event) (c : Chat) → IsKept c → IsKept (step send_chat_states is_muc id user_id ev c)
  unfolding step
  step-IsKept (active user) c k = once-IsKept (codes "active") user c refl k
  step-IsKept (paused user) c k = once-IsKept (codes "paused") user c refl k
  step-IsKept (inactive user) c k = once-IsKept (codes "inactive") user c refl k
  step-IsKept (gone user) c k =
      send_gone-cases send_chat_states is_muc id user_id IsKept user c k (
        post-IsKept (to_jid send_chat_states is_muc id user_id user) [] (codes "gone") c refl refl
          k)
  step-IsKept (typing user now) c k = typing-IsKept user now c k
  step-IsKept (timer now) c k = timer-IsKept now c k
  step-IsKept (marked jid) c k = k

  run-IsKept :
      (es : List Event) (c : Chat) → IsKept c → IsKept (run send_chat_states is_muc id user_id es c)
  unfolding run
  run-IsKept [] c k = k
  run-IsKept (ev ∷ es) c k =
      run-IsKept es (step send_chat_states is_muc id user_id ev c) (step-IsKept ev c k)

  -- After any events, what is remembered for an address is the last state sent to it, nothing behind
  -- "gone", and no state but "composing" and "gone" was sent to an address twice in a row.
  pub run-new_chat-IsKept :
      (es : List Event) → IsKept (run send_chat_states is_muc id user_id es new_chat)
  run-new_chat-IsKept es = run-IsKept es new_chat (λ jid. refl, tt)
