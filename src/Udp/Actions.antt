-- ===== src/Udp/Actions.antt =====
-- What the goroutines of the UDP listener do, in any order.
use cosnet.Prelude.{ℕ, Option, List, [], ◌∷◌, Error}
use cosnet.Prelude.Bytes.{Bytes}
use cosnet.Udp.{
  Listener, close_conn, close_listener, accept, route, deliver, receive, take_packet, write,
}

-- What a goroutine may do next. `looks_up` and `delivers` are the two halves of a round of `readLoop`,
-- between which others may run.
pub data Action : Type 0 where
  receives : ℕ → Bytes → Action
  looks_up : ℕ → Action
  delivers : ℕ → Bytes → Action
  accepts : Action
  takes : ℕ → Action
  closes : ℕ → Action
  writes : Option Error → ℕ → Bytes → Action
  shuts : Action

unfoldable pub act : Action → Listener → Listener
act (receives key b) l = (receive key b l).0
act (looks_up key) l = (route key l).0
act (delivers i b) l = (deliver i b l).0
act accepts l = (accept l).0
act (takes i) l = (take_packet i l).0
act (closes i) l = (close_conn i l).0
act (writes failed i b) l = (write failed i b l).0
act shuts l = (close_listener l).0

unfoldable pub acts : List Action → Listener → Listener
acts [] l = l
acts (a ∷ as') l = acts as' (act a l)
