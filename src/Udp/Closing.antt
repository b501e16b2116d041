-- ===== src/Udp/Closing.antt =====
-- How connections and the listener are closed, and what happens to packets then.
use cosnet.Prelude.{
  ℕ, ◌≡◌, ◌≢◌, refl, true, false, none, some, List, [], ◌∷◌, ok, panic, ◌==◌, length, arith, eq→==,
}
use cosnet.Prelude.Bytes.{Bytes}
use cosnet.Udp.{
  Options, Listener, done, waits, find, remove_conn, close_conn, close_all, close_listener,
  new_conn, route, deliver, receive,
}
use cosnet.Udp.Represents.{IsOpen, free_of, free-IsOpen}
use cosnet.Udp.Found.{route_found}
use cosnet.Udp.Refinement.{close_conn_found}

-- Where the mutex is held, every packet and every `Close` of a connection waits for it.
abbrev pub Stuck : Listener → Type 0
Stuck l =
    ((key : ℕ) (packet : Bytes) → packet ≢ [] → receive key packet l ≡ (l, waits))
    × ((i : ℕ) → close_conn i l ≡ (l, waits))

nonempty : (packet : Bytes) → packet ≢ [] → (length packet == 0) ≡ false
nonempty [] full = absurd (full refl)
nonempty (c ∷ packet) full = ground arith

locked-Stuck : (l : Listener) → l.locked ≡ true → Stuck l
unfolding receive route close_conn remove_conn
locked-Stuck l held =
    (λ key packet full. ground (arith, held, nonempty packet full), λ i. ground (arith, held))

-- The listener after a `Close` that returned.
abbrev down_of : Listener → Listener
down_of l = record l { conn_ch_closed = true; conns = none; locked = false; down = true }

-- The listener as its `Close` leaves it.
abbrev pub closing : Listener → Listener
closing l = record l { conn_ch_closed = true; locked = true }

-- `Close` of an open listener with a connection in its map never returns: the connection's `Close`
-- waits for the mutex that the listener's holds. From then on every packet and every `Close` of a
-- connection waits too, and another `Close` of the listener panics.
pub close_listener-Stuck :
    (k i : ℕ) (rest : List (ℕ × ℕ)) (l : Listener)
    → l.conns ≡ some ((k, i) ∷ rest)
    → l.conn_ch_closed ≡ false
    → l.locked ≡ false
    → (close_listener l ≡ (closing l, waits))
      × Stuck (closing l)
      × (close_listener (closing l) ≡ (closing l, done panic))
unfolding close_listener close_all close_conn remove_conn
close_listener-Stuck k i rest l mapped accepting free =
    (ground (arith, mapped, accepting, free), locked-Stuck (closing l) refl, refl)

-- `Close` of a listener with no connection returns; a packet that was read before then panics, under
-- the mutex, which stays locked.
pub close_listener_idle :
    (l : Listener) (key : ℕ) (packet : Bytes)
    → l.conns ≡ some []
    → l.conn_ch_closed ≡ false
    → l.locked ≡ false
    → packet ≢ []
    → ((close_listener l).1 ≡ done (ok tt))
      × ((receive key packet (close_listener l).0).1 ≡ done panic)
      × Stuck (receive key packet (close_listener l).0).0
unfolding close_listener close_all receive route new_conn
close_listener_idle l key packet mapped accepting free full =
    rw (closed_idle, panicked)
      (refl, refl, locked-Stuck (record (down_of l) { locked = true }) refl)
  where
    closed_idle : close_listener l ≡ (down_of l, done (ok tt))
    closed_idle = ground (arith, mapped, accepting, free)

    panicked : receive key packet (down_of l) ≡ (record (down_of l) { locked = true }, done panic)
    panicked = ground (arith, nonempty packet full)

-- A packet is on its way to a connection of an open listener, which was looked up for it, while the
-- connection is closed: the send on its channel panics in `readLoop`.
pub deliver-closed :
    (o : Options) (m : List (ℕ × ℕ)) (l : Listener) (key i : ℕ) (packet : Bytes)
    → IsOpen o m l
    → find key m ≡ some i
    → ((route key l).1 ≡ done (ok i))
      × ((close_conn i (route key l).0).1 ≡ done (ok tt))
      × ((deliver i packet (close_conn i (route key l).0).0).1 ≡ done panic)
unfolding deliver
deliver-closed o m l key i packet h e =
    rw
      (
        route_found o m l h key i e,
        close_conn_found o m (free_of l) (free-IsOpen o m l h) key i e,
        eq→== i i refl,
      )
      (refl, refl, refl)
