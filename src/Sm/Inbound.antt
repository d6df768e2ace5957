-- ===== src/Sm/Inbound.antt =====
-- The inbound counter, and the answer that reports it to the server.
use weechat_xmpp_improved.Prelude.{
  ℕ, suc, ◌+◌, ◌%◌, ◌<◌, ◌≡◌, refl, ap, ◌∙◌, some, List, [], ◌∷◌, ◌++◌, codes, arith, true, u32_mod,
  stoul, to_string, stoul-to_string, Option-cases, inl, inr,
}
use weechat_xmpp_improved.Sm.{
  Stanza, Session, send, count_received, on_resumed, on_ack, on_request, open_stream, ack_timer,
  sm_ns, answer, request, enable, resume, retransmit,
}
use weechat_xmpp_improved.Sm.Spec.{
  Event, sends, receives, acks, resumes, requests, timer, reconnects, step, run,
}

abbrev pub received : List Event → ℕ
received [] = 0
received (receives ∷ es) = suc (received es)
received (sends st ∷ es) = received es
received (acks e ∷ es) = received es
received (resumes e ∷ es) = received es
received (requests ∷ es) = received es
received (timer c ∷ es) = received es
received (reconnects ∷ es) = received es

-- What an operation that counts nothing leaves alone.
abbrev Kept : Session → Session → Type 0
Kept s t = (t.sm_h_inbound ≡ s.sm_h_inbound) × (t.sm_enabled ≡ s.sm_enabled)

send-Kept : (st : Stanza) (s : Session) → Kept s (send st s)
unfolding send
send-Kept st s = ground arith

step-Kept :
    (e : Event) (s t : Session)
    → step e s ≡ some t
    → s.sm_enabled ≡ true
    → s.sm_h_inbound < u32_mod
    → (t.sm_enabled ≡ true) × (t.sm_h_inbound ≡ (s.sm_h_inbound + received (e ∷ [])) % u32_mod)
unfolding step
step-Kept (sends st) s t eq en lt = ground (arith, send-Kept st s)
step-Kept receives s t eq en lt = unfold count_received in ground arith
step-Kept (acks e) s t eq en lt = unfold on_ack in ground arith
step-Kept (resumes e) s t eq en lt = unfold on_resumed retransmit in ground arith
step-Kept requests s t eq en lt =
    unfold on_request in ground (arith, send-Kept (answer s.sm_h_inbound) s)
step-Kept (timer c) s t eq en lt = unfold ack_timer in ground (arith, send-Kept request s)
step-Kept reconnects s t eq en lt =
    unfold open_stream in
    ground (arith, send-Kept (enable true 300) s, send-Kept (resume s.sm_h_inbound s.sm_id) s)

received_cons : (e : Event) (es : List Event) → received (e ∷ es) ≡ received (e ∷ []) + received es
received_cons receives es = omega arith
received_cons (sends st) es = omega arith
received_cons (acks e) es = omega arith
received_cons (resumes e) es = omega arith
received_cons requests es = omega arith
received_cons (timer c) es = omega arith
received_cons reconnects es = omega arith

run-inbound :
    (es : List Event) (s t : Session)
    → run es s ≡ some t
    → s.sm_enabled ≡ true
    → s.sm_h_inbound < u32_mod
    → t.sm_h_inbound ≡ (s.sm_h_inbound + received es) % u32_mod
unfolding run
run-inbound [] s t eq en lt = ground arith
run-inbound (e ∷ es) s t eq en lt = elim (Option-cases (step e s)) [
  | inl none_left ↦ ground arith
  | inr (s', stepped) ↦
      let (en', inbound') = step-Kept e s s' stepped en lt in
      let ran : run es s' ≡ some t = rw (stepped, run) at eq in
      omega (arith, run-inbound es s' t ran en' (omega arith), received_cons e es)
]

send-wire : (st : Stanza) (s : Session) → (send st s).wire ≡ s.wire ++ (st ∷ [])
unfolding send
send-wire st s = ground arith

-- After any run of a session, a request of the server is answered by the number of stanzas that
-- the session has received, modulo 2 ^ 32, in a text that reads back as that number.
pub on_request-answer :
    (es : List Event) (s t : Session)
    → run es s ≡ some t
    → s.sm_enabled ≡ true
    → s.sm_h_inbound < u32_mod
    → let n = (s.sm_h_inbound + received es) % u32_mod in
      ((on_request t).wire ≡ t.wire ++ (answer n ∷ []))
      × ((answer n).attributes ≡ ("xmlns", codes sm_ns) ∷ ("h", to_string n) ∷ [])
      × (stoul (to_string n) ≡ some n)
unfolding on_request
on_request-answer es s t eq en lt =
    let e = run-inbound es s t eq en lt in
    (
      send-wire (answer t.sm_h_inbound) t ∙ ap (λ n. t.wire ++ (answer n ∷ [])) e,
      unfold answer in refl,
      stoul-to_string _ (omega arith),
    )
