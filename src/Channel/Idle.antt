-- ===== src/Channel/Idle.antt =====
-- add_self_typing and self_typing_cb (src/channel.cpp): the list of the users that are told that one
-- types.
use weechat_xmpp_improved.Prelude.{
  ℕ, ◌<◌, ◌≡◌, refl, sym, ap, ◌∙◌, Bool, true, false, not, List, [], ◌∷◌, ◌++◌, Bytes, codes,
  bytes_eq, if◌then◌else◌, if-cases, All, arith,
}
use weechat_xmpp_improved.Channel.{
  Typing, Chat, new_chat, post, with_typings, is_late, kept, self_typing_search, touch, to_jid,
  is_chat_state_supported, send_once, send_paused, send_gone, pause_late, self_typing_cb,
  add_self_typing, compose, send_typing, Event, active, paused, inactive, gone, typing, timer,
  marked, step, run,
}

-- Typing happens past the first 10 seconds of the clock.
abbrev pub IsLater : Event → Type 0
IsLater (typing user now) = 10 < now
IsLater (active user) = Unit {0}
IsLater (paused user) = Unit {0}
IsLater (inactive user) = Unit {0}
IsLater (gone user) = Unit {0}
IsLater (timer now) = Unit {0}
IsLater (marked jid) = Unit {0}

-- An early return that changes nothing.
pub guard : (P : Chat → Type 0) (b : Bool) (c x : Chat) → P c → P x → P (if b then c else x)
guard P true c x same goes = same
guard P false c x same goes = goes

late_at_once : (user now : ℕ) → 10 < now → is_late now (record { user = user; ts = 0 }) ≡ true
unfolding is_late
late_at_once user now h = ground arith

module _ (send_chat_states is_muc : Bool) (id : Bytes) (user_id : ℕ → Bytes) where
  -- A state is sent or nothing happens.
  pub send_once-cases :
      (P : Chat → Type 0) (state : Bytes) (user : ℕ) (c : Chat)
      → P c
      → (bytes_eq (c.last_sent_chat_state (to_jid send_chat_states is_muc id user_id user)) state
            ≡ false
          → P (post (to_jid send_chat_states is_muc id user_id user) state state c))
      → P (send_once send_chat_states is_muc id user_id state user c)
  unfolding send_once
  send_once-cases P state user c same sends =
      let jid = to_jid send_chat_states is_muc id user_id user in
      guard P (not send_chat_states) c _ same (
        guard P
          (not
            (is_chat_state_supported send_chat_states is_muc id user_id jid c.chat_state_supported))
          c _ same
          (if-cases P (bytes_eq (c.last_sent_chat_state jid) state) c (post jid state state c)
            (λ e. same) sends))

  pub send_gone-cases :
      (P : Chat → Type 0) (user : ℕ) (c : Chat)
      → P c
      → P (post (to_jid send_chat_states is_muc id user_id user) [] (codes "gone") c)
      → P (send_gone send_chat_states is_muc id user_id user c)
  unfolding send_gone
  send_gone-cases P user c same sends =
      let jid = to_jid send_chat_states is_muc id user_id user in
      guard P (not send_chat_states) c _ same (
        guard P is_muc c _ same (
          guard P
            (not (
              is_chat_state_supported send_chat_states is_muc id user_id jid
                c.chat_state_supported))
            c _ same
            (guard P (bytes_eq (c.last_sent_chat_state jid) (codes "gone")) c
              (post jid [] (codes "gone") c) same sends)))

  abbrev IsIdle : Chat → Type 0
  IsIdle c = c.self_typings ≡ []

  -- With an empty list the timer changes nothing.
  timer-IsIdle :
      (now : ℕ) (c : Chat)
      → c.self_typings ≡ []
      → self_typing_cb send_chat_states is_muc id user_id now c ≡ c
  unfolding self_typing_cb pause_late kept
  timer-IsIdle now c e =
      ap (λ l. pause_late send_chat_states is_muc id user_id now l (with_typings (kept now l) c)) e
      ∙ ap (λ l. with_typings l c) (sym e)

  typing-IsIdle :
      (user now : ℕ) (c : Chat)
      → 10 < now
      → c.self_typings ≡ []
      → send_typing send_chat_states is_muc id user_id user now c ≡ (
          if not send_chat_states
          then c
          else post
              (to_jid send_chat_states is_muc id user_id user)
              (codes "composing")
              (codes "composing")
              (send_paused send_chat_states is_muc id user_id user c))
  unfolding send_typing add_self_typing compose self_typing_search self_typing_cb pause_late kept
      is_late
  typing-IsIdle user now c later e =
      let jid = to_jid send_chat_states is_muc id user_id user in
      let pause = send_paused send_chat_states is_muc id user_id user in
      let sends = λ (x : Chat).
        if not send_chat_states then c else post jid (codes "composing") (codes "composing") x in
      let made : Typing = record { user = user; ts = 0 } in
      ap
        (λ l.
          if not send_chat_states
          then c
          else compose send_chat_states is_muc id user_id user (
              if self_typing_search user l
              then (
                self_typing_cb send_chat_states is_muc id user_id now
                    (with_typings (touch user now l) c),
                false,
              )
              else (
                self_typing_cb send_chat_states is_muc id user_id now
                    (with_typings (l ++ (made ∷ [])) c),
                true,
              )))
        e
      ∙ ap
          (λ b.
            let c' = with_typings (if b then [] else made ∷ []) c in
            sends (if b then pause c' else c'))
          (late_at_once user now later)
      ∙ ap (λ l. sends (pause (with_typings l c))) (sym e)

  once-IsIdle :
      (state : Bytes) (user : ℕ) (c : Chat)
      → IsIdle c
      → IsIdle (send_once send_chat_states is_muc id user_id state user c)
  once-IsIdle state user c e = send_once-cases IsIdle state user c e (λ q. e)

  step-IsIdle :
      (ev : Event) (c : Chat)
      → IsLater ev
      → IsIdle c
      → IsIdle (step send_chat_states is_muc id user_id ev c)
  unfolding step
  step-IsIdle (active user) c h e = once-IsIdle (codes "active") user c e
  step-IsIdle (paused user) c h e = once-IsIdle (codes "paused") user c e
  step-IsIdle (inactive user) c h e = once-IsIdle (codes "inactive") user c e
  step-IsIdle (gone user) c h e = send_gone-cases IsIdle user c e e
  step-IsIdle (typing user now) c h e =
      ap (λ (x : Chat). x.self_typings) (typing-IsIdle user now c h e)
      ∙ guard IsIdle (not send_chat_states) c _ e (once-IsIdle (codes "paused") user c e)
  step-IsIdle (timer now) c h e = ap (λ (x : Chat). x.self_typings) (timer-IsIdle now c e) ∙ e
  step-IsIdle (marked jid) c h e = e

  run-IsIdle :
      (es : List Event) (c : Chat)
      → All IsLater es
      → IsIdle c
      → IsIdle (run send_chat_states is_muc id user_id es c)
  unfolding run
  run-IsIdle [] c h e = e
  run-IsIdle (ev ∷ es) c (hv, h) e =
      run-IsIdle es (step send_chat_states is_muc id user_id ev c) h (step-IsIdle ev c hv e)

  -- Past the first 10 seconds of the clock, after any events no user is in the list of those that are
  -- told that one types: the timer never does anything, and send_typing, if chat states are sent at
  -- all, is send_paused with "composing" sent right behind it.
  pub run-new_chat_idle :
      (es : List Event) (user now : ℕ)
      → All IsLater es
      → 10 < now
      → let c = run send_chat_states is_muc id user_id es new_chat in
        (c.self_typings ≡ [])
        × (self_typing_cb send_chat_states is_muc id user_id now c ≡ c)
        × (send_typing send_chat_states is_muc id user_id user now c ≡ (
            if not send_chat_states
            then c
            else post
                (to_jid send_chat_states is_muc id user_id user)
                (codes "composing")
                (codes "composing")
                (send_paused send_chat_states is_muc id user_id user c)))
  run-new_chat_idle es user now h later =
      let c = run send_chat_states is_muc id user_id es new_chat in
      let e = run-IsIdle es new_chat h refl in
      (e, timer-IsIdle now c e, typing-IsIdle user now c later e)
