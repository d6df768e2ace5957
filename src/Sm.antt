-- ===== src/Sm.antt =====
-- Stream management (XEP-0198): the sm_ fields of weechat::account, the counting in
-- connection::send and in the stanza handlers, connection::sm_handler and the parts of
-- conn_handler that open and close a session.
pub mod Spec
pub mod Prune
pub mod Refine
pub mod Runs
pub mod Inbound
pub mod Life
pub mod Ends
mod Tests
mod Elements
unfoldable pub use Elements.*
use weechat_xmpp_improved.Prelude.{
  ℕ, ◌+◌, ◌%◌, ◌≡◌, Bool, true, false, ◌||◌, not, ◌&&◌, Option, none, some, List, [], ◌∷◌, ◌++◌,
  map, String, str_eq, Bytes, codes, leb, if◌then◌else◌, u32_mod, stoul, to_string, length,
}

-- What weechat_printf is given; the texts are left out.
pub data Notice : Type 0 where
  retransmitting : ℕ → Notice
  sm_error : Option String → Notice
  failed disabled missing_h : Notice
  closed : Bytes → Notice

-- `wire` is what libstrophe has been given to send, oldest first, and `printed` the notices.
pub record Session : Type 0 where
  pub sm_enabled : Bool
  pub sm_available : Bool
  pub sm_id : Bytes
  pub sm_h_inbound : ℕ
  pub sm_h_outbound : ℕ
  pub sm_last_ack : ℕ
  pub sm_ack_timer_hook : Option ℕ
  pub sm_outqueue : List (ℕ × Stanza)
  pub wire : List Stanza
  pub printed : List Notice

-- What the accessors of libstrophe return on an incoming stanza: `unexpected_request` and
-- `item_not_found` are the children of these names, each with its own name.
pub record Incoming : Type 0 where
  pub ns : Option String
  pub name : Option String
  pub id : Option Bytes
  pub h : Option Bytes
  pub unexpected_request : Option (Option String)
  pub item_not_found : Option (Option String)

abbrev pub transmit : Stanza → Session → Session
transmit st s = record s { wire = s.wire ++ (st ∷ []) }

-- The stanzas that stream management counts.
unfoldable pub is_counted : Option String → Bool
is_counted none = false
is_counted (some n) = str_eq n "message" || str_eq n "presence" || str_eq n "iq"

record_sent : Stanza → Session → Session
record_sent st s =
    let seq = (s.sm_h_outbound + 1) % u32_mod in
    record s { sm_h_outbound = seq; sm_outqueue = s.sm_outqueue ++ ((seq, st) ∷ []) }

unfoldable pub send : Stanza → Session → Session
unfolding record_sent
send st s = transmit st (if s.sm_enabled && is_counted st.name then record_sent st s else s)

-- The count that the handlers of presence, message and iq make before they handle the stanza.
unfoldable pub count_received : Session → Session
count_received s =
    if s.sm_enabled then record s { sm_h_inbound = (s.sm_h_inbound + 1) % u32_mod } else s

-- The loop that pops acknowledged stanzas off the front.
unfoldable pub prune : ℕ → List (ℕ × Stanza) → List (ℕ × Stanza)
prune ack [] = []
prune ack ((seq, st) ∷ q) = let rest = prune ack q in if leb seq ack then rest else (seq, st) ∷ q

abbrev pub stanzas : List (ℕ × Stanza) → List Stanza
stanzas = map λ e. e.1

abbrev pub or_else {ℓ} : {A : Type ℓ} → Option A → A → A
or_else none d = d
or_else (some a) d = a

-- `hook` is what weechat_hook_timer returns.
unfoldable pub on_enabled : Option ℕ → Incoming → Session → Session
on_enabled hook e s = record s {
  sm_enabled = true;
  sm_h_inbound = 0;
  sm_h_outbound = 0;
  sm_last_ack = 0;
  sm_outqueue = [];
  sm_id = or_else e.id s.sm_id;
  sm_ack_timer_hook = hook;
}

pub retransmit : Session → List (ℕ × Stanza) → Session
retransmit s [] = record s { sm_outqueue = [] }
retransmit s (e ∷ q) = record s {
  sm_outqueue = e ∷ q;
  wire = s.wire ++ stanzas (e ∷ q);
  printed = s.printed ++ (retransmitting (length (e ∷ q)) ∷ []);
}

pub resume_from : Session → ℕ → Session
unfolding retransmit
resume_from s ack_h = retransmit s (prune ack_h s.sm_outqueue)

-- `none` is the exception of stoul, which leaves the handler before anything is changed.
unfoldable pub on_resumed : Incoming → Session → Option Session
unfolding resume_from
on_resumed e s = elim e.h [
  | none ↦ some (resume_from s 0)
  | some h ↦ elim (stoul h) [
    | none ↦ none
    | some v ↦ some (resume_from (record s { sm_last_ack = v % u32_mod }) (v % u32_mod))
  ]
]

failure : Option (Option String) → Notice
failure none = failed
failure (some name) = sm_error name

abbrev first_of_two {ℓ} : {A : Type ℓ} → Option A → Option A → Option A
first_of_two none b = b
first_of_two (some a) b = some a

unfoldable pub on_failed : Incoming → Session → Session
unfolding failure
on_failed e s = record s {
  sm_enabled = false;
  sm_id = [];
  sm_h_inbound = 0;
  sm_h_outbound = 0;
  sm_last_ack = 0;
  sm_outqueue = [];
  sm_available = false;
  printed =
      s.printed ++ (failure (first_of_two e.unexpected_request e.item_not_found) ∷ disabled ∷ []);
}

-- The debug line about unacknowledged stanzas is left out.
unfoldable pub on_ack : Incoming → Session → Option Session
on_ack e s = elim e.h [
  | none ↦ some (record s { printed = s.printed ++ (missing_h ∷ []) })
  | some h ↦ elim (stoul h) [
    | none ↦ none
    | some v ↦
        some
          (record s { sm_last_ack = v % u32_mod; sm_outqueue = prune (v % u32_mod) s.sm_outqueue })
  ]
]

unfoldable pub on_request : Session → Session
on_request s = send (answer s.sm_h_inbound) s

dispatch : Option ℕ → String → Incoming → Session → Option Session
dispatch hook name e s =
    if str_eq name "enabled"
    then some (on_enabled hook e s)
    else if str_eq name "resumed"
    then on_resumed e s
    else if str_eq name "failed"
    then some (on_failed e s)
    else if str_eq name "a"
    then on_ack e s
    else if str_eq name "r"
    then some (on_request s)
    else some s

-- The handler always asks to be kept.
unfoldable pub sm_handler : Option ℕ → Incoming → Session → Option Session
unfolding dispatch
sm_handler hook e s = elim e.ns [
  | none ↦ some s
  | some ns ↦
      if not (str_eq ns sm_ns)
      then some s
      else elim e.name [ none ↦ some s | some name ↦ dispatch hook name e s ]
]

-- conn_handler on event::connect: the element that opens or resumes a session.
unfoldable pub open_stream : Session → Session
open_stream s =
    if s.sm_available
    then elim s.sm_id [
      | [] ↦ send (enable true 300) s
      | c ∷ id ↦ send (resume s.sm_h_inbound (c ∷ id)) s
    ]
    else s

-- conn_handler on event::disconnect with no error.
unfoldable pub close_stream : Session → Session
close_stream s = record s {
  sm_id = [];
  sm_h_inbound = 0;
  sm_h_outbound = 0;
  sm_last_ack = 0;
  printed = elim s.sm_id [ [] ↦ s.printed | c ∷ id ↦ s.printed ++ (closed (c ∷ id) ∷ []) ];
}

-- What account::connect does to the session: a connection by hand allows another attempt.
unfoldable pub connect : Bool → Session → Session
connect manual s = if manual then record s { sm_available = true } else s

-- account::sm_ack_timer_cb; the flag is xmpp_conn_is_connected.
unfoldable pub ack_timer : Bool → Session → Session
ack_timer connected s = if not connected then s else if not s.sm_enabled then s else send request s
