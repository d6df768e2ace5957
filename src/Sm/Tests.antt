-- ===== src/Sm/Tests.antt =====
-- Runs of a session, and each theorem at an input.
use weechat_xmpp_improved.Prelude.{
  ◌≡◌, refl, Option, none, some, List, [], ◌∷◌, ◌++◌, Bytes, codes, arith, true, false, String,
  stoul, to_string, read_digits, is_space,
}
use weechat_xmpp_improved.Sm.{
  Stanza, Session, Incoming, send, on_enabled, on_resumed, on_request, on_failed, close_stream,
  connect, enable, sm_handler, sm_ns, answer, retransmitting, count_received, on_ack, open_stream,
  resume, is_counted, prune,
}
use weechat_xmpp_improved.Sm.Spec.{
  Event, sends, receives, acks, resumes, reconnects, step, run, Ledger, Refines, pending,
  ledger_run, ledger_step, number,
}
use weechat_xmpp_improved.Sm.Life.{Life, inside, closes, connects, live, live_all}
use weechat_xmpp_improved.Sm.Refine.{on_resumed-Refines}
use weechat_xmpp_improved.Sm.Runs.{run-on_enabled-Refines}
use weechat_xmpp_improved.Sm.Inbound.{on_request-answer}
use weechat_xmpp_improved.Sm.Ends.{IsOff, on_failed-IsOff, close_stream_stale}

abbrev fresh : Session
fresh = record {
  sm_enabled = false;
  sm_available = true;
  sm_id = [];
  sm_h_inbound = 0;
  sm_h_outbound = 0;
  sm_last_ack = 0;
  sm_ack_timer_hook = none;
  sm_outqueue = [];
  wire = [];
  printed = [];
}

abbrev element : String → Option Bytes → Incoming
element name h = record {
  ns = some sm_ns;
  name = some name;
  id = some (codes "s1");
  h = h;
  unexpected_request = none;
  item_not_found = none;
}

abbrev message : String → Stanza
message t = record { name = some "message"; attributes = []; text = codes t }

abbrev history : List Event
history =
    sends (message "a")
    ∷ sends (message "b")
    ∷ receives
    ∷ acks (element "a" (some (codes "1")))
    ∷ reconnects
    ∷ resumes (element "resumed" (some (codes "1")))
    ∷ []

abbrev start : Session
start = on_enabled (some 7) (element "enabled" none) fresh

abbrev counted : Session
counted = record fresh { sm_enabled = true; sm_h_outbound = 1; sm_outqueue = (1, message "a") ∷ [] }

abbrev one_pending : Ledger
one_pending = record { sent = message "a" ∷ []; acked = 0 }

counted-Refines : Refines counted one_pending
counted-Refines = record { enabled = refl; outbound = refl; queue = refl; bound = omega arith }

abbrev empty : Ledger
empty = record { sent = []; acked = 0 }

run-on_enabled-Refines_example :
    (t : Session) × (run history start ≡ some t) × Refines t (ledger_run history empty)
unfolding is_counted stoul is_space read_digits
run-on_enabled-Refines_example =
    run-on_enabled-Refines (some 7) (element "enabled" none) fresh history
      (tt, (tt, (tt, ((1, refl), (tt, ((1, refl), tt)))))) (omega arith)

abbrev resumption : Incoming
resumption = element "resumed" (some (codes "0"))

abbrev again : Session
again = record counted { wire = message "a" ∷ []; printed = retransmitting 1 ∷ [] }

on_resumed-Refines_example :
    Refines again (ledger_step (resumes resumption) one_pending)
    × (again.wire ≡ [] ++ pending (ledger_step (resumes resumption) one_pending))
    × (again.sm_h_inbound ≡ counted.sm_h_inbound)
    × (again.sm_h_outbound ≡ counted.sm_h_outbound)
    × (again.sm_id ≡ counted.sm_id)
unfolding on_resumed stoul is_space read_digits prune
on_resumed-Refines_example =
    on_resumed-Refines resumption counted again one_pending refl counted-Refines

on_request-answer_example :
    ((on_request (record start { sm_h_inbound = 2 })).wire ≡ answer 2 ∷ [])
    × ((answer 2).attributes ≡ ("xmlns", codes sm_ns) ∷ ("h", to_string 2) ∷ [])
    × (stoul (to_string 2) ≡ some 2)
unfolding run step count_received on_enabled
on_request-answer_example =
    on_request-answer (receives ∷ receives ∷ []) start (record start { sm_h_inbound = 2 }) refl refl
      (omega arith)

abbrev off : Session
off = on_failed (element "failed" none) counted

abbrev failed_life : List Life
failed_life = inside receives ∷ closes ∷ connects false ∷ []

on_failed-IsOff_example :
    IsOff (close_stream off)
    × (open_stream (connect false (close_stream off)) ≡ close_stream off)
    × ((open_stream (connect true (close_stream off))).wire
        ≡ (close_stream off).wire ++ (enable true 300 ∷ []))
unfolding live_all live step count_received on_failed connect
on_failed-IsOff_example =
    on_failed-IsOff (element "failed" none) counted (close_stream off) failed_life
      (tt, (tt, (refl, tt))) refl

close_stream_stale_example :
    ((close_stream counted).sm_h_outbound ≡ 0)
    × ((close_stream counted).sm_h_inbound ≡ 0)
    × ((close_stream counted).sm_enabled ≡ true)
    × ((close_stream counted).sm_outqueue ≡ number 1 (pending one_pending))
    × (¬ ((b : Ledger) × Refines (close_stream counted) b))
close_stream_stale_example = close_stream_stale counted one_pending counted-Refines (cc)

run-history :
    run history start
    ≡ some (record start {
      sm_h_inbound = 1;
      sm_h_outbound = 2;
      sm_last_ack = 1;
      sm_outqueue = (2, message "b") ∷ [];
      wire = message "a" ∷ message "b" ∷ resume 1 (codes "s1") ∷ message "b" ∷ [];
      printed = retransmitting 1 ∷ [];
    })
unfolding run step on_enabled send is_counted count_received on_ack on_resumed stoul is_space
    read_digits prune open_stream resume
run-history = refl

handled :
    (sm_handler (some 7) (element "enabled" none) fresh ≡ some start)
    × (sm_handler none (element "a" (some (codes "x"))) fresh ≡ none)
    × (sm_handler none (element "bogus" none) fresh ≡ some fresh)
unfolding sm_handler on_enabled on_ack stoul is_space
handled = (refl, refl, refl)
