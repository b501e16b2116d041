-- ===== src/Udp/Mailboxes.antt =====
-- What the UDP listener promises: for each address with a connection a queue of packets, in the order
-- in which they came, and a queue of addresses that wait for `Accept`, both bounded.
use cosnet.Prelude.{
  ℕ, Option, none, some, List, [], ◌∷◌, ◌++◌, ok, err, panic, ◌==◌, ltb, if◌then◌else◌, length,
}
use cosnet.Prelude.Bytes.{Bytes}
use cosnet.Udp.{
  Options, Conn, Listener, Outcome, done, waits, conn_of, close_conn, accept, receive, take_packet,
}

pub record Mailboxes : Type 0 where
  pub waiting : List ℕ
  pub inbox : ℕ → Option (List Bytes)

abbrev pub no_mail : Mailboxes
no_mail = record { waiting = []; inbox = λ _. none }

-- A packet comes from an address, a connection is accepted, or the connection of an address is asked
-- for a packet or closed.
pub data Event : Type 0 where
  arrives : ℕ → Bytes → Event
  accepts : Event
  takes : ℕ → Event
  closes : ℕ → Event

-- `pends` is a call that waits, `absent` an address without a connection, `fails` an error or a panic.
pub data Output : Type 0 where
  nothing pends absent fails : Output
  accepted : ℕ → Output
  taken : Bytes → Output

abbrev pub put : ℕ → Option (List Bytes) → (ℕ → Option (List Bytes)) → ℕ → Option (List Bytes)
put key v inbox k = if key == k then v else inbox k

-- A queue takes a packet if there is room.
abbrev pub offer : Options → Bytes → List Bytes → List Bytes
offer o packet q = if ltb (length q) o.msg_chan_size then q ++ (packet ∷ []) else q

abbrev pub arrived : Options → ℕ → Bytes → Option (List Bytes) → Mailboxes → Mailboxes
arrived o key packet (some q) s = record s { inbox = put key (some (offer o packet q)) s.inbox }
arrived o key packet none s =
    if ltb (length s.waiting) o.conn_chan_size
    then record s {
      waiting = s.waiting ++ (key ∷ []);
      inbox = put key (some (offer o packet [])) s.inbox;
    }
    else s

abbrev pub accepted_by : List ℕ → Mailboxes → Mailboxes × Output
accepted_by [] s = (s, pends)
accepted_by (key ∷ rest) s = (record s { waiting = rest }, accepted key)

abbrev pub taken_from : ℕ → Option (List Bytes) → Mailboxes → Mailboxes × Output
taken_from key none s = (s, absent)
taken_from key (some []) s = (s, pends)
taken_from key (some (b ∷ rest)) s = (record s { inbox = put key (some rest) s.inbox }, taken b)

abbrev pub closed_at : ℕ → Option (List Bytes) → Mailboxes → Mailboxes × Output
closed_at key none s = (s, absent)
closed_at key (some q) s = (record s { inbox = put key none s.inbox }, nothing)

-- What each event means.
unfoldable pub promise : Options → Event → Mailboxes → Mailboxes × Output
promise o (arrives key packet) s =
    (if length packet == 0 then s else arrived o key packet (s.inbox key) s, nothing)
promise o accepts s = accepted_by s.waiting s
promise o (takes key) s = taken_from key (s.inbox key) s
promise o (closes key) s = closed_at key (s.inbox key) s

abbrev pub unit_output : Listener × Outcome (Unit {0}) → Listener × Output
unit_output (l, done (ok a)) = (l, nothing)
unit_output (l, done (err e)) = (l, fails)
unit_output (l, done panic) = (l, fails)
unit_output (l, waits) = (l, pends)

abbrev pub accept_output : Listener × Outcome ℕ → Listener × Output
accept_output (l, done (ok i)) = (l, accepted (Conn.addr (l.heap i)))
accept_output (l, done (err e)) = (l, fails)
accept_output (l, done panic) = (l, fails)
accept_output (l, waits) = (l, pends)

abbrev pub packet_output : Listener × Outcome (Option Bytes) → Listener × Output
packet_output (l, done (ok (some b))) = (l, taken b)
packet_output (l, done (ok none)) = (l, fails)
packet_output (l, done (err e)) = (l, fails)
packet_output (l, done panic) = (l, fails)
packet_output (l, waits) = (l, pends)

abbrev pub take_at : Option ℕ → Listener → Listener × Output
take_at none l = (l, absent)
take_at (some i) l = packet_output (take_packet i l)

abbrev pub close_at : Option ℕ → Listener → Listener × Output
close_at none l = (l, absent)
close_at (some i) l = unit_output (close_conn i l)

-- What the listener does on it.
unfoldable pub perform : Event → Listener → Listener × Output
perform (arrives key packet) l = unit_output (receive key packet l)
perform accepts l = accept_output (accept l)
perform (takes key) l = take_at (conn_of key l) l
perform (closes key) l = close_at (conn_of key l) l

-- The outputs of a sequence of events, and the state at its end.
unfoldable pub promises : Options → List Event → Mailboxes → Mailboxes × List Output
promises o [] s = (s, [])
promises o (e ∷ es) s =
    let (s1, out) = promise o e s in let (s2, outs) = promises o es s1 in (s2, out ∷ outs)

unfoldable pub performs : List Event → Listener → Listener × List Output
performs [] l = (l, [])
performs (e ∷ es) l =
    let (l1, out) = perform e l in let (l2, outs) = performs es l1 in (l2, out ∷ outs)
