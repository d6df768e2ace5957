-- ===== src/Sm/Life.antt =====
-- What happens to the fields of an account in its life: the events of a session, and those that begin
-- and end one (sm_handler, conn_handler and account::connect).
use weechat_xmpp_improved.Prelude.{Bool, ℕ, Option, none, some, List, [], ◌∷◌}
use weechat_xmpp_improved.Sm.{Session, Incoming, on_enabled, on_failed, close_stream, connect}
use weechat_xmpp_improved.Sm.Spec.{Event, step}

pub data Life : Type 0 where
  inside : Event → Life
  enables : Option ℕ → Incoming → Life
  fails : Incoming → Life
  closes : Life
  connects : Bool → Life

unfoldable pub live : Life → Session → Option Session
live (inside e) s = step e s
live (enables hook e) s = some (on_enabled hook e s)
live (fails e) s = some (on_failed e s)
live closes s = some (close_stream s)
live (connects manual) s = some (connect manual s)

-- `none`: an exception left a handler.
unfoldable pub live_all : List Life → Session → Option Session
live_all [] s = some s
live_all (e ∷ es) s = elim (live e s) [ none ↦ none | some s' ↦ live_all es s' ]
