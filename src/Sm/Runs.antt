-- ===== src/Sm/Runs.antt =====
-- Whole sessions: no exception as long as the counts can be read, and the ledger implemented.
use weechat_xmpp_improved.Prelude.{
  ℕ, ◌≤◌, ◌<◌, ◌≡◌, refl, ◌∙◌, Option, none, some, List, [], ◌∷◌, length, length-append, arith, All,
  Option-cases, some_of_ne_none, ◌≢◌, inl, inr, u32_mod,
}
use weechat_xmpp_improved.Sm.{Session, Incoming, on_enabled, on_resumed, on_ack}
use weechat_xmpp_improved.Sm.Refine.{step-Refines}
use weechat_xmpp_improved.Sm.Spec.{
  Ledger, Event, sends, receives, acks, resumes, requests, timer, reconnects, ledger_step,
  ledger_run, Refines, step, run, HasReadableCount, IsReadable,
}

length-ledger_step : (e : Event) (a : Ledger) → length a.sent ≤ length (ledger_step e a).sent
length-ledger_step (sends st) a = ground (arith, length-append a.sent (st ∷ []))
length-ledger_step (acks e) a = ground arith
length-ledger_step (resumes e) a = ground arith
length-ledger_step _ a = omega arith

length-ledger_run : (es : List Event) (a : Ledger) → length a.sent ≤ length (ledger_run es a).sent
length-ledger_run [] a = omega arith
length-ledger_run (e ∷ es) a =
    omega (arith, length-ledger_step e a, length-ledger_run es (ledger_step e a))

on_ack-ne-none : (e : Incoming) (s : Session) → HasReadableCount e.h → on_ack e s ≢ none
unfolding on_ack
on_ack-ne-none e s c = elim (Option-cases e.h) [
  | inl p ↦ ground arith
  | inr (h, p) ↦ let (v, q) = rw p at c in ground arith
]

on_resumed-ne-none : (e : Incoming) (s : Session) → HasReadableCount e.h → on_resumed e s ≢ none
unfolding on_resumed
on_resumed-ne-none e s c = elim (Option-cases e.h) [
  | inl p ↦ ground arith
  | inr (h, p) ↦ let (v, q) = rw p at c in ground arith
]

step_total : (e : Event) (s : Session) → IsReadable e → (t : Session) × (step e s ≡ some t)
unfolding step
step_total (sends st) s h = (_, refl)
step_total receives s h = (_, refl)
step_total (acks e) s h = some_of_ne_none _ (on_ack-ne-none e s h)
step_total (resumes e) s h = some_of_ne_none _ (on_resumed-ne-none e s h)
step_total requests s h = (_, refl)
step_total (timer connected) s h = (_, refl)
step_total reconnects s h = (_, refl)

run-step :
    (e : Event) (es : List Event) (s : Session) {s' : Session}
    → step e s ≡ some s'
    → run (e ∷ es) s ≡ run es s'
unfolding run
run-step e es s p = rw (p, run)

-- Every run of a session whose counts can be read ends without an exception, and its counter and
-- its queue implement the ledger.
pub run-Refines :
    (es : List Event) (s : Session) (a : Ledger)
    → All IsReadable es
    → length (ledger_run es a).sent < u32_mod
    → Refines s a
    → (t : Session) × (run es s ≡ some t) × Refines t (ledger_run es a)
unfolding run
run-Refines [] s a h fits r = (s, refl, r)
run-Refines (e ∷ es) s a h fits r =
    let (s', stepped) = step_total e s h.0 in
    let fits' : length (ledger_step e a).sent < u32_mod =
      omega (arith, length-ledger_run es (ledger_step e a)) in
    let (t, ran, r') =
      run-Refines es s' (ledger_step e a) h.1 fits (step-Refines e s s' a stepped fits' r) in
    (t, run-step e es s stepped ∙ ran, r')

-- From `enabled` on, whatever the session was before, every run of sends, receipts, acknowledgements,
-- resumptions, requests, timers and reconnects whose counts can be read and in which fewer than
-- 2 ^ 32 stanzas are sent ends without an exception, and its counter and its retransmission queue
-- are those of a ledger that records each stanza sent and how many of them are acknowledged.
pub run-on_enabled-Refines :
    (hook : Option ℕ) (e : Incoming) (s : Session) (es : List Event)
    → All IsReadable es
    → length (ledger_run es (record { sent = []; acked = 0 })).sent < u32_mod
    → (t : Session) × (run es (on_enabled hook e s) ≡ some t)
      × Refines t (ledger_run es (record { sent = []; acked = 0 }))
unfolding on_enabled
run-on_enabled-Refines hook e s es h fits =
    run-Refines es _ _ h fits
      (record { enabled = refl; outbound = refl; queue = refl; bound = omega arith })
