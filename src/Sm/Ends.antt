-- ===== src/Sm/Ends.antt =====
-- How a session ends: elements that are not of stream management, `failed`, and a clean close.
use weechat_xmpp_improved.Prelude.{
  ℕ, ◌≡◌, ◌≢◌, refl, sym, ap, ◌∙◌, Option, none, some, List, [], ◌∷◌, ◌++◌, length, drop, drop-nil,
  suc, arith, true, false, All, Option-cases, inl, inr, String,
}
use text.Mathlib.TextEquality.{eq_iff}
use weechat_xmpp_improved.Sm.{
  Stanza, Session, Incoming, send, count_received, on_resumed, on_ack, on_request, on_failed,
  open_stream, close_stream, connect, ack_timer, sm_handler, sm_ns, answer, retransmit, prune,
  enable,
}
use weechat_xmpp_improved.Sm.Life.{Life, inside, enables, fails, closes, connects, live, live_all}
use weechat_xmpp_improved.Sm.Spec.{
  Event, sends, receives, acks, resumes, requests, timer, reconnects, step, Ledger, Refines,
  pending, number,
}

-- Stream management is off: nothing is counted, nothing is queued, nothing will be offered.
pub record IsOff (s : Session) : Type 0 where
  pub disabled : s.sm_enabled ≡ false
  pub unavailable : s.sm_available ≡ false
  pub no_id : s.sm_id ≡ []
  pub queue : s.sm_outqueue ≡ []
  pub inbound : s.sm_h_inbound ≡ 0
  pub outbound : s.sm_h_outbound ≡ 0

send-IsOff :
    (st : Stanza) (s : Session)
    → IsOff s
    → IsOff (send st s) × ((send st s).wire ≡ s.wire ++ (st ∷ []))
unfolding send
send-IsOff st s o = ground arith

step-IsOff : (e : Event) (s t : Session) → step e s ≡ some t → IsOff s → IsOff t
unfolding step
step-IsOff (sends st) s t eq o = ground (arith, send-IsOff st s o)
step-IsOff receives s t eq o = unfold count_received in ground arith
step-IsOff (acks e) s t eq o = unfold on_ack prune in ground arith
step-IsOff (resumes e) s t eq o = unfold on_resumed prune retransmit in ground arith
step-IsOff requests s t eq o =
    unfold on_request in ground (arith, send-IsOff (answer s.sm_h_inbound) s o)
step-IsOff (timer c) s t eq o = unfold ack_timer in ground arith
step-IsOff reconnects s t eq o = unfold open_stream in ground arith

-- No event that turns stream management on again: no `enabled`, and no connection by hand.
abbrev pub IsQuiet : Life → Type 0
IsQuiet (inside e) = Unit {0}
IsQuiet (enables hook e) = false ≡ true
IsQuiet (fails e) = Unit {0}
IsQuiet closes = Unit {0}
IsQuiet (connects manual) = manual ≡ false

IsOff-after_failed : (e : Incoming) (s : Session) → IsOff (on_failed e s)
unfolding on_failed
IsOff-after_failed e s = record {
  disabled = refl;
  unavailable = refl;
  no_id = refl;
  queue = refl;
  inbound = refl;
  outbound = refl;
}

live-IsOff : (e : Life) (s t : Session) → IsQuiet e → live e s ≡ some t → IsOff s → IsOff t
unfolding live
live-IsOff (inside e) s t q eq o = step-IsOff e s t eq o
live-IsOff (enables hook e) s t q eq o = cc
live-IsOff (fails e) s t q eq o = ground (arith, IsOff-after_failed e s)
live-IsOff closes s t q eq o = unfold close_stream in ground arith
live-IsOff (connects manual) s t q eq o = unfold connect in ground arith

live_all-IsOff :
    (es : List Life) (s t : Session) → All IsQuiet es → live_all es s ≡ some t → IsOff s → IsOff t
unfolding live_all
live_all-IsOff [] s t q eq o = ground arith
live_all-IsOff (e ∷ es) s t (q, qs) eq o = elim (Option-cases (live e s)) [
  | inl p ↦ ground arith
  | inr (s', p) ↦ live_all-IsOff es s' t qs (rw (p, live_all) at eq) (live-IsOff e s s' q p o)
]

IsOff-open :
    (t : Session)
    → IsOff t
    → (open_stream (connect false t) ≡ t)
      × ((open_stream (connect true t)).wire ≡ t.wire ++ (enable true 300 ∷ []))
unfolding open_stream connect send
IsOff-open t o = (rw (o.unavailable) refl, rw (o.no_id, o.disabled) refl)

-- After `failed`, until another `enabled` is received or the user connects by hand, stream
-- management stays off, whatever is sent, received or announced, and however often the stream is
-- closed and opened: the counters stay 0 and the queue empty. The stream of an automatic connection
-- offers nothing then, and that of a connection by hand asks for a new session.
pub on_failed-IsOff :
    (e : Incoming) (s t : Session) (es : List Life)
    → All IsQuiet es
    → live_all es (on_failed e s) ≡ some t
    → IsOff t
      × (open_stream (connect false t) ≡ t)
      × ((open_stream (connect true t)).wire ≡ t.wire ++ (enable true 300 ∷ []))
on_failed-IsOff e s t es quiet eq =
    let o = live_all-IsOff es (on_failed e s) t quiet eq (IsOff-after_failed e s) in
    let (automatic, manual) = IsOff-open t o in (o, automatic, manual)

-- A stanza of another namespace, or without one, changes nothing and sends nothing, whatever its
-- name is.
pub sm_handler-foreign :
    (hook : Option ℕ) (e : Incoming) (s : Session)
    → e.ns ≢ some sm_ns
    → sm_handler hook e s ≡ some s
unfolding sm_handler
sm_handler-foreign hook e s h = go e.ns refl
  where
    go : (o : Option String) → e.ns ≡ o → sm_handler hook e s ≡ some s
    go none p = ground arith
    go (some ns) p = ground (arith, eq_iff ns sm_ns)

number-ne-nil : (k : ℕ) (ys : List Stanza) → ys ≢ [] → number k ys ≢ []
number-ne-nil k [] ne = absurd (ne refl)
number-ne-nil k (y ∷ ys) ne = cc

drop_of_length_zero {ℓ} : {A : Type ℓ} (k : ℕ) (ys : List A) → length ys ≡ 0 → drop k ys ≡ []
drop_of_length_zero k [] e = drop-nil k
drop_of_length_zero k (y ∷ ys) e = absurd (omega arith)

-- A clean close with stanzas pending restarts the counters and leaves stream management on and the
-- pending stanzas in the queue under their old numbers, so that no account of sent stanzas describes
-- the session.
pub close_stream_stale :
    (s : Session) (a : Ledger)
    → Refines s a
    → pending a ≢ []
    → let t = close_stream s in
      (t.sm_h_outbound ≡ 0)
      × (t.sm_h_inbound ≡ 0)
      × (t.sm_enabled ≡ true)
      × (t.sm_outqueue ≡ number (suc a.acked) (pending a))
      × (¬ ((b : Ledger) × Refines t b))
unfolding close_stream
close_stream_stale s a r ne = (
  refl,
  refl,
  r.enabled,
  r.queue,
  λ (b, q).
      let emptied = drop_of_length_zero b.acked b.sent (sym q.outbound) in
      number-ne-nil (suc a.acked) (pending a) ne
        (sym r.queue ∙ q.queue ∙ ap (number (suc b.acked)) emptied),
)
