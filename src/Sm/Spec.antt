-- ===== src/Sm/Spec.antt =====
-- What stream management promises of the stanzas sent in a session (XEP-0198): all that were sent,
-- in order, and how many of them the server has acknowledged.
use weechat_xmpp_improved.Prelude.{
  ℕ, suc, ◌%◌, ◌≤◌, ◌≡◌, Bool, true, Option, none, some, List, [], ◌∷◌, ◌++◌, min, max, length,
  drop, Bytes, if◌then◌else◌, u32_mod, stoul,
}
use weechat_xmpp_improved.Sm.{
  Stanza, Session, Incoming, is_counted, send, count_received, on_resumed, on_ack, on_request,
  open_stream, ack_timer,
}

pub record Ledger : Type 0 where
  pub sent : List Stanza
  pub acked : ℕ

-- An acknowledgement of `h` stanzas: no more than were sent, and never fewer than before.
abbrev pub acknowledge : ℕ → Ledger → Ledger
acknowledge h a = record a { acked = max a.acked (min h (length a.sent)) }

-- The stanzas that are not acknowledged.
abbrev pub pending : Ledger → List Stanza
pending a = drop a.acked a.sent

-- What happens in a session, between `enabled` and the end of the session.
pub data Event : Type 0 where
  sends : Stanza → Event
  receives : Event
  acks : Incoming → Event
  resumes : Incoming → Event
  requests : Event
  timer : Bool → Event
  reconnects : Event

unfoldable pub step : Event → Session → Option Session
step (sends st) s = some (send st s)
step receives s = some (count_received s)
step (acks e) s = on_ack e s
step (resumes e) s = on_resumed e s
step requests s = some (on_request s)
step (timer connected) s = some (ack_timer connected s)
step reconnects s = some (open_stream s)

-- `none`: an exception left a handler.
unfoldable pub run : List Event → Session → Option Session
run [] s = some s
run (e ∷ es) s = elim (step e s) [ none ↦ none | some s' ↦ run es s' ]

abbrev pub h_value : Option Bytes → Option ℕ
h_value none = none
h_value (some h) = stoul h

abbrev ack_value : Option ℕ → Ledger → Ledger
ack_value none a = a
ack_value (some v) a = acknowledge (v % u32_mod) a

abbrev pub ledger_step : Event → Ledger → Ledger
ledger_step (sends st) a = if is_counted st.name then record a { sent = a.sent ++ (st ∷ []) } else a
ledger_step (acks e) a = ack_value (h_value e.h) a
ledger_step (resumes e) a = ack_value (h_value e.h) a
ledger_step receives a = a
ledger_step requests a = a
ledger_step (timer connected) a = a
ledger_step reconnects a = a

abbrev pub ledger_run : List Event → Ledger → Ledger
ledger_run [] a = a
ledger_run (e ∷ es) a = ledger_run es (ledger_step e a)

-- The count of an element is missing or is a number that stoul reads.
abbrev pub HasReadableCount : Option Bytes → Type 0
HasReadableCount none = Unit {0}
HasReadableCount (some h) = (v : ℕ) × (stoul h ≡ some v)

abbrev pub IsReadable : Event → Type 0
IsReadable (acks e) = HasReadableCount e.h
IsReadable (resumes e) = HasReadableCount e.h
IsReadable _ = Unit {0}

-- Stanzas numbered from `k` on.
abbrev pub number : ℕ → List Stanza → List (ℕ × Stanza)
number k [] = []
number k (st ∷ sts) = (k, st) ∷ number (suc k) sts

-- The session implements the ledger: its counter is the number of stanzas sent, and its queue
-- holds the pending ones, in order, each under its place among those sent, counted from 1.
pub record Refines (s : Session) (a : Ledger) : Type 0 where
  pub enabled : s.sm_enabled ≡ true
  pub outbound : s.sm_h_outbound ≡ length a.sent
  pub queue : s.sm_outqueue ≡ number (suc a.acked) (pending a)
  pub bound : a.acked ≤ length a.sent
