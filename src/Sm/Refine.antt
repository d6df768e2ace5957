-- ===== src/Sm/Refine.antt =====
-- The session's queue and counter implement the ledger of XEP-0198.
use weechat_xmpp_improved.Prelude.{
  ℕ, suc, ◌+◌, ◌%◌, ◌≤◌, ◌<◌, ◌≡◌, refl, ap, ◌∙◌, some, List, [], ◌∷◌, ◌++◌, length, length-append,
  drop-append, length-drop, Bytes, arith, true, false, Bool-cases, Option-cases, append-nil, inl,
  inr, u32_mod, stoul,
}
use weechat_xmpp_improved.Sm.{
  Stanza, Session, Incoming, is_counted, send, count_received, prune, resume_from, on_resumed,
  on_ack, on_request, open_stream, ack_timer, answer, request, enable, resume,
}
use weechat_xmpp_improved.Sm.Prune.{prune-pending, stanzas-number}
use weechat_xmpp_improved.Sm.Spec.{
  Ledger, Event, sends, receives, acks, resumes, requests, timer, reconnects, acknowledge, pending,
  ledger_step, number, Refines, step,
}

number-append :
    (k : ℕ) (ys : List Stanza) (st : Stanza)
    → number k (ys ++ (st ∷ [])) ≡ number k ys ++ ((k + length ys, st) ∷ [])
number-append k [] st = ap (λ m. (m, st) ∷ []) (omega arith)
number-append k (y ∷ ys) st =
    ap (◌∷◌ (k, y)) (number-append (suc k) ys st ∙ ap (λ m. number (suc k) ys ++ ((m, st) ∷ [])) e)
  where
    e : suc k + length ys ≡ k + length (y ∷ ys)
    e = omega arith

send_other :
    (st : Stanza) (s : Session) (a : Ledger)
    → is_counted st.name ≡ false
    → Refines s a
    → Refines (send st s) a
unfolding send
send_other st s a other r = ground arith

send_counted :
    (st : Stanza) (s : Session) (a : Ledger)
    → is_counted st.name ≡ true
    → suc (length a.sent) < u32_mod
    → Refines s a
    → Refines (send st s) (record a { sent = a.sent ++ (st ∷ []) })
unfolding send
send_counted st s a counted fits r = ground (
  arith,
  length-append a.sent (st ∷ []),
  drop-append a.acked a.sent (st ∷ []),
  number-append (suc a.acked) (pending a) st,
  length-drop a.acked a.sent,
)

on_ack-Refines :
    (e : Incoming) (s t : Session) (a : Ledger)
    → on_ack e s ≡ some t
    → Refines s a
    → Refines t (ledger_step (acks e) a)
unfolding on_ack
on_ack-Refines e s t a eq r = elim (Option-cases e.h) [
  | inl p ↦ ground arith
  | inr (h, p) ↦ elim (Option-cases (stoul h)) [
    | inl q ↦ ground arith
    | inr (v, q) ↦ ground (arith, prune-pending (v % u32_mod) a r.bound)
  ]
]

resume_from-Refines :
    (h : ℕ) (s : Session) (a : Ledger)
    → Refines s a
    → Refines (resume_from s h) (acknowledge h a)
      × ((resume_from s h).wire ≡ s.wire ++ pending (acknowledge h a))
      × ((resume_from s h).sm_h_inbound ≡ s.sm_h_inbound)
      × ((resume_from s h).sm_h_outbound ≡ s.sm_h_outbound)
      × ((resume_from s h).sm_id ≡ s.sm_id)
unfolding resume_from
resume_from-Refines h s a r = go (pending (acknowledge h a)) refl
  where
    b : Ledger
    b = acknowledge h a

    kept : prune h s.sm_outqueue ≡ number (suc b.acked) (pending b)
    kept = ap (prune h) r.queue ∙ prune-pending h a r.bound

    go :
        (ys : List Stanza)
        → pending b ≡ ys
        → Refines (resume_from s h) b
          × ((resume_from s h).wire ≡ s.wire ++ pending b)
          × ((resume_from s h).sm_h_inbound ≡ s.sm_h_inbound)
          × ((resume_from s h).sm_h_outbound ≡ s.sm_h_outbound)
          × ((resume_from s h).sm_id ≡ s.sm_id)
    go [] e = ground (arith, kept, append-nil s.wire)
    go (y ∷ ys) e = ground (arith, kept, stanzas-number (suc b.acked) (y ∷ ys))

acknowledge_none : (a : Ledger) → a.acked ≤ length a.sent → acknowledge 0 a ≡ a
acknowledge_none a le = ground arith

-- A resumption acknowledges the stanzas that it counts, transmits all the pending ones again, in
-- order, and nothing else, and leaves both counters and the session's id.
pub on_resumed-Refines :
    (e : Incoming) (s t : Session) (a : Ledger)
    → on_resumed e s ≡ some t
    → Refines s a
    → let b = ledger_step (resumes e) a in
      Refines t b
      × (t.wire ≡ s.wire ++ pending b)
      × (t.sm_h_inbound ≡ s.sm_h_inbound)
      × (t.sm_h_outbound ≡ s.sm_h_outbound)
      × (t.sm_id ≡ s.sm_id)
unfolding on_resumed
on_resumed-Refines e s t a eq r = elim (Option-cases e.h) [
  | inl p ↦ ground (arith, resume_from-Refines 0 s a r, acknowledge_none a r.bound)
  | inr (h, p) ↦ elim (Option-cases (stoul h)) [
    | inl q ↦ ground arith
    | inr (v, q) ↦ ground (
      arith,
      resume_from-Refines (v % u32_mod) (record s { sm_last_ack = v % u32_mod }) a
          (record { enabled = r.enabled; outbound = r.outbound; queue = r.queue; bound = r.bound }),
    )
  ]
]

uncounted :
    (h : ℕ) (id : Bytes)
    → (is_counted (answer h).name ≡ false)
      × (is_counted request.name ≡ false)
      × (is_counted (enable true 300).name ≡ false)
      × (is_counted (resume h id).name ≡ false)
unfolding is_counted answer request enable resume
uncounted h id = (refl, refl, refl, refl)

open_stream-Refines : (s : Session) (a : Ledger) → Refines s a → Refines (open_stream s) a
unfolding open_stream
open_stream-Refines s a r = go s.sm_id refl
  where
    go : (id : Bytes) → s.sm_id ≡ id → Refines (open_stream s) a
    go [] e = ground (arith, send_other (enable true 300) s a (uncounted 0 []).2 r)
    go (c ∷ id) e = ground (
      arith,
      send_other (resume s.sm_h_inbound (c ∷ id)) s a (uncounted s.sm_h_inbound (c ∷ id)).3 r,
    )

pub step-Refines :
    (e : Event) (s t : Session) (a : Ledger)
    → step e s ≡ some t
    → length (ledger_step e a).sent < u32_mod
    → Refines s a
    → Refines t (ledger_step e a)
unfolding step
step-Refines (sends st) s t a eq fits r = elim (Bool-cases (is_counted st.name)) [
  | inl c ↦ ground (arith, send_counted st s a c, length-append a.sent (st ∷ []))
  | inr c ↦ ground (arith, send_other st s a c r)
]
step-Refines receives s t a eq fits r = unfold count_received in ground arith
step-Refines (acks e) s t a eq fits r = on_ack-Refines e s t a eq r
step-Refines (resumes e) s t a eq fits r = (on_resumed-Refines e s t a eq r).0
step-Refines requests s t a eq fits r =
    let other = send_other (answer s.sm_h_inbound) s a (uncounted s.sm_h_inbound []).0 r in
    unfold on_request in ground (arith, other)
step-Refines (timer connected) s t a eq fits r =
    let other = send_other request s a (uncounted 0 []).1 r in
    unfold ack_timer in ground (arith, other)
step-Refines reconnects s t a eq fits r = ground (arith, open_stream-Refines s a r)
