-- ===== src/Channel.antt =====
-- The chat states that a channel sends (src/channel.cpp): what is sent to whom, and the list of the
-- users that are told that one types.
pub mod Idle
pub mod Alternate
mod Tests
use weechat_xmpp_improved.Prelude.{
  ℕ, ◌+◌, ◌-◌, Bool, true, false, not, ◌&&◌, ◌||◌, Option, none, some, List, [], ◌∷◌, ◌++◌, Bytes,
  codes, bytes_eq, cut_at, ltb, ◌==◌, if◌then◌else◌,
}

-- The user is a pointer, 0 the null pointer. The name is only written.
pub record Typing : Type 0 where
  pub user : ℕ
  pub ts : ℕ

-- The fields, and the states that were sent, the last one first. A key that is not in the map has
-- the empty text, which operator[] gives it.
pub record Chat : Type 0 where
  pub self_typings : List Typing
  pub last_sent_chat_state : Bytes → Bytes
  pub chat_state_supported : List Bytes
  pub sent : List (Bytes × Bytes)

abbrev pub new_chat : Chat
new_chat = record {
  self_typings = [];
  last_sent_chat_state = λ jid. [];
  chat_state_supported = [];
  sent = [];
}

unfoldable pub count : Bytes → List Bytes → Bool
count jid [] = false
count jid (j ∷ js) = bytes_eq jid j || count jid js

unfoldable pub set : Bytes → Bytes → (Bytes → Bytes) → Bytes → Bytes
set jid state last j = if bytes_eq jid j then state else last j

-- The state is remembered in the map and sent.
abbrev pub post : Bytes → Bytes → Bytes → Chat → Chat
post to_jid remembered state c = record {
  self_typings = c.self_typings;
  last_sent_chat_state = set to_jid remembered c.last_sent_chat_state;
  chat_state_supported = c.chat_state_supported;
  sent = (to_jid, state) ∷ c.sent;
}

abbrev pub with_typings : List Typing → Chat → Chat
with_typings typings c = record {
  self_typings = typings;
  last_sent_chat_state = c.last_sent_chat_state;
  chat_state_supported = c.chat_state_supported;
  sent = c.sent;
}

abbrev pub mark_chat_state_supported : Bytes → Chat → Chat
mark_chat_state_supported from_jid c = record {
  self_typings = c.self_typings;
  last_sent_chat_state = c.last_sent_chat_state;
  chat_state_supported = from_jid ∷ c.chat_state_supported;
  sent = c.sent;
}

unfoldable pub is_late : ℕ → Typing → Bool
is_late now t = ltb 10 (now - t.ts)

-- The entries that the loop of self_typing_cb does not erase.
unfoldable pub kept : ℕ → List Typing → List Typing
kept now [] = []
kept now (t ∷ ts) = let rest = kept now ts in if is_late now t then rest else t ∷ rest

unfoldable pub self_typing_search : ℕ → List Typing → Bool
self_typing_search user [] = false
self_typing_search user (t ∷ ts) = user == t.user || self_typing_search user ts

-- The entry that the search finds is set to now.
unfoldable pub touch : ℕ → ℕ → List Typing → List Typing
touch user now [] = []
touch user now (t ∷ ts) =
    let rest = touch user now ts in
    if user == t.user then record { user = t.user; ts = now } ∷ ts else t ∷ rest

pub data Event : Type 0 where
  active : ℕ → Event
  paused : ℕ → Event
  inactive : ℕ → Event
  gone : ℕ → Event
  typing : ℕ → ℕ → Event
  timer : ℕ → Event
  marked : Bytes → Event

-- The settings, whether the channel is a room, its address, and the addresses of users.
module _ (send_chat_states is_muc : Bool) (id : Bytes) (user_id : ℕ → Bytes) where
  abbrev pub to_jid : ℕ → Bytes
  to_jid user = if user == 0 then id else user_id user

  unfoldable pub is_chat_state_supported : Bytes → List Bytes → Bool
  is_chat_state_supported jid known =
      if is_muc
      then false
      else if count jid known
      then true
      else elim (cut_at b'/' jid) [ none ↦ false | some (bare, rest) ↦ count bare known ]

  -- What send_active, send_paused and send_inactive do with their state.
  unfoldable pub send_once : Bytes → ℕ → Chat → Chat
  send_once state user c =
      if not send_chat_states
      then c
      else if not (is_chat_state_supported (to_jid user) c.chat_state_supported)
      then c
      else if bytes_eq (c.last_sent_chat_state (to_jid user)) state
      then c
      else post (to_jid user) state state c

  abbrev pub send_active : ℕ → Chat → Chat
  send_active = send_once (codes "active")

  abbrev pub send_paused : ℕ → Chat → Chat
  send_paused = send_once (codes "paused")

  abbrev pub send_inactive : ℕ → Chat → Chat
  send_inactive = send_once (codes "inactive")

  -- The key is erased.
  unfoldable pub send_gone : ℕ → Chat → Chat
  send_gone user c =
      if not send_chat_states
      then c
      else if is_muc
      then c
      else if not (is_chat_state_supported (to_jid user) c.chat_state_supported)
      then c
      else if bytes_eq (c.last_sent_chat_state (to_jid user)) (codes "gone")
      then c
      else post (to_jid user) [] (codes "gone") c

  unfoldable pub pause_late : ℕ → List Typing → Chat → Chat
  pause_late now [] c = c
  pause_late now (t ∷ ts) c = pause_late now ts (if is_late now t then send_paused t.user c else c)

  unfoldable pub self_typing_cb : ℕ → Chat → Chat
  self_typing_cb now c = pause_late now c.self_typings (with_typings (kept now c.self_typings) c)

  -- A new entry has 0 for its time, as emplace_back makes it. Whether it is new is returned.
  unfoldable pub add_self_typing : ℕ → ℕ → Chat → Chat × Bool
  add_self_typing user now c =
      if self_typing_search user c.self_typings
      then (self_typing_cb now (with_typings (touch user now c.self_typings) c), false)
      else (
        self_typing_cb now
            (with_typings (c.self_typings ++ (record { user = user; ts = 0 } ∷ [])) c),
        true,
      )

  unfoldable pub compose : ℕ → Chat × Bool → Chat
  compose user (c, added) =
      if added then post (to_jid user) (codes "composing") (codes "composing") c else c

  unfoldable pub send_typing : ℕ → ℕ → Chat → Chat
  unfolding compose
  send_typing user now c =
      if not send_chat_states then c else compose user (add_self_typing user now c)

  unfoldable pub step : Event → Chat → Chat
  step (active user) c = send_active user c
  step (paused user) c = send_paused user c
  step (inactive user) c = send_inactive user c
  step (gone user) c = send_gone user c
  step (typing user now) c = send_typing user now c
  step (timer now) c = self_typing_cb now c
  step (marked jid) c = mark_chat_state_supported jid c

  unfoldable pub run : List Event → Chat → Chat
  run [] c = c
  run (e ∷ es) c = run es (step e c)
