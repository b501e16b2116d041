-- ===== src/Udp.antt =====
-- udp/listener.go and udp/conn.go: connections by remote address over one UDP socket. An address is
-- the number that stands for its text, and a connection is an index of `heap`, where each one that
-- was ever made stays; `conns` has `none` for the nil map.
pub mod State
pub mod Mailboxes
pub mod Represents
pub mod Found
pub mod Arrivals
pub mod Refinement
pub mod Loop
pub mod Actions
pub mod Routing
pub mod Closing
pub mod Delivery
use cosnet.Prelude.{
  ℕ, suc, Bool, true, false, Option, none, some, List, [], ◌∷◌, ◌++◌, Error, Result, ok, err, panic,
  ◌==◌, ltb, if◌then◌else◌, length, eof, unexpected_eof, listener_closed, conn_chan_full,
  not_implemented,
}
use cosnet.Prelude.Bytes.{Bytes}
use cosnet.Message.Env.{Env}
use cosnet.Message.Head.{message_head_size}
use cosnet.Message.Object.{Message}
use cosnet.Message.Transfer.{bytes, reset}
unfoldable pub use State.*

-- `removeConn(key)`
unfoldable pub remove_conn : ℕ → Listener → Listener × Outcome (Unit {0})
remove_conn key l = if l.locked then (l, waits) else (
  record l { conns = elim l.conns [ none ↦ none | some m ↦ some (delete key m) ] },
  done (ok tt),
)

-- `close(c.msgChan)`
unfoldable pub close_msg_chan : ℕ → Listener → Listener × Outcome (Unit {0})
close_msg_chan i l =
    if Conn.closed (l.heap i)
    then (l, done panic)
    else (set_conn i (record (l.heap i) { closed = true }) l, done (ok tt))

-- One call after another, where the first gives no value.
abbrev pub then_do :
    (Listener → Listener × Outcome (Unit {0}))
    → Listener × Outcome (Unit {0})
    → Listener × Outcome (Unit {0})
then_do f (l, done (ok a)) = f l
then_do f (l, done (err e)) = (l, done (err e))
then_do f (l, done panic) = (l, done panic)
then_do f (l, waits) = (l, waits)

-- `Conn.Close()`
unfoldable pub close_conn : ℕ → Listener → Listener × Outcome (Unit {0})
close_conn i l = then_do (close_msg_chan i) (remove_conn (Conn.addr (l.heap i)) l)

-- The loop of `Listener.Close` over the connections.
unfoldable pub close_all : List (ℕ × ℕ) → Listener → Listener × Outcome (Unit {0})
close_all [] l = (l, done (ok tt))
close_all ((k, i) ∷ rest) l = then_do (close_all rest) (close_conn i l)

abbrev pub active : Listener → List (ℕ × ℕ)
active l = elim l.conns [ none ↦ [] | some m ↦ m ]

-- `Listener.Close()`
unfoldable pub close_listener : Listener → Listener × Outcome (Unit {0})
close_listener l =
    if l.conn_ch_closed
    then (l, done panic)
    else (let l1 = record l { conn_ch_closed = true } in
        if l.locked
        then (l1, waits)
        else then_do (λ l2. (record l2 { conns = none; locked = false; down = true }, done (ok tt)))
            (close_all (active l) (record l1 { locked = true })))

-- `Listener.Accept()`
unfoldable pub accept_from : List ℕ → Listener → Listener × Outcome ℕ
accept_from (i ∷ rest) l = (record l { conn_ch = rest }, done (ok i))
accept_from [] l = if l.conn_ch_closed then (l, done (err listener_closed)) else (l, waits)

unfoldable pub accept : Listener → Listener × Outcome ℕ
accept l = accept_from l.conn_ch l

-- The write to the map at the end of `newConn`.
abbrev pub record_conn : ℕ → ℕ → Option (List (ℕ × ℕ)) → Listener → Listener × Result ℕ
record_conn key i none l = (l, panic)
record_conn key i (some m) l = (record l { conns = some ((key, i) ∷ m) }, ok i)

-- `newConn`, under the mutex. A send on the closed channel panics.
unfoldable pub new_conn : ℕ → Listener → Listener × Result ℕ
new_conn key l =
    if l.conn_ch_closed
    then (l, panic)
    else if ltb (length l.conn_ch) l.options.conn_chan_size
    then record_conn key l.next l.conns (
        set_conn l.next (record { addr = key; msg_chan = []; closed = false })
          (record l { conn_ch = l.conn_ch ++ (l.next ∷ []); next = suc l.next }))
    else (l, err conn_chan_full)

-- The mutex is released, but not by a panic.
abbrev pub unlocked : Listener × Result ℕ → Listener × Outcome ℕ
unlocked (l, ok i) = (record l { locked = false }, done (ok i))
unlocked (l, err e) = (record l { locked = false }, done (err e))
unlocked (l, panic) = (l, done panic)

-- The part of a round of `readLoop` under the mutex: the connection for the sender.
abbrev pub known_or_new : ℕ → Option ℕ → Listener → Listener × Result ℕ
known_or_new key (some i) l = (l, ok i)
known_or_new key none l = new_conn key l

unfoldable pub route : ℕ → Listener → Listener × Outcome ℕ
route key l =
    if l.locked
    then (l, waits)
    else unlocked (known_or_new key (conn_of key l) (record l { locked = true }))

-- `conn.msgChan <- data`, or the packet is dropped.
unfoldable pub deliver : ℕ → Bytes → Listener → Listener × Outcome (Unit {0})
deliver i packet l =
    if Conn.closed (l.heap i)
    then (l, done panic)
    else if ltb (length (Conn.msg_chan (l.heap i))) l.options.msg_chan_size
    then (
      set_conn i (record (l.heap i) { msg_chan = Conn.msg_chan (l.heap i) ++ (packet ∷ []) }) l,
      done (ok tt),
    )
    else (l, done (ok tt))

-- A packet for which there is no connection is dropped.
abbrev pub routed : Bytes → Listener × Outcome ℕ → Listener × Outcome (Unit {0})
routed packet (l, done (ok i)) = deliver i packet l
routed packet (l, done (err e)) = (l, done (ok tt))
routed packet (l, done panic) = (l, done panic)
routed packet (l, waits) = (l, waits)

-- A round of `readLoop`, with what `ReadFromUDP` returned.
unfoldable pub receive : ℕ → Bytes → Listener → Listener × Outcome (Unit {0})
receive key packet l = if length packet == 0 then (l, done (ok tt)) else routed packet (route key l)

-- `readLoop`, over what each turn finds, until it waits for the next packet: `none` is
-- `scc.Stopped()`, which ends it, and `some` what `ReadFromUDP` returns, where an error ends it.
unfoldable pub read_loop :
    List (Option (Result (ℕ × Bytes))) → Listener → Listener × Outcome (Unit {0})
read_loop [] l = (l, waits)
read_loop (none ∷ rest) l = (l, done (ok tt))
read_loop (some (ok (key, packet)) ∷ rest) l = then_do (read_loop rest) (receive key packet l)
read_loop (some (err e) ∷ rest) l = (l, done (ok tt))
read_loop (some panic ∷ rest) l = (l, done panic)

-- `<-c.msgChan`: `none` is the end of a closed channel.
unfoldable pub take_packet_from : List Bytes → ℕ → Listener → Listener × Outcome (Option Bytes)
take_packet_from (b ∷ rest) i l =
    (set_conn i (record (l.heap i) { msg_chan = rest }) l, done (ok (some b)))
take_packet_from [] i l = if Conn.closed (l.heap i) then (l, done (ok none)) else (l, waits)

unfoldable pub take_packet : ℕ → Listener → Listener × Outcome (Option Bytes)
take_packet i l = take_packet_from (Conn.msg_chan (l.heap i)) i l

-- `Conn.Read` of a byte slice.
unfoldable read : Listener → Listener × Result ℕ
read l = (l, err not_implemented)

-- `WriteToUDP`, with the error that the network reports, if it does.
unfoldable pub write_to_udp : Option Error → ℕ → Bytes → Listener → Listener × Result (Unit {0})
write_to_udp none i b l = (record l { sent = l.sent ++ ((Conn.addr (l.heap i), b) ∷ []) }, ok tt)
write_to_udp (some e) i b l = (l, err e)

-- `Conn.Write`: an error also takes the connection out of the map.
abbrev pub written : ℕ → Listener × Result (Unit {0}) → Listener × Outcome (Unit {0})
written i (l, err e) = then_do (λ l1. (l1, done (err e))) (remove_conn (Conn.addr (l.heap i)) l)
written i (l, ok a) = (l, done (ok a))
written i (l, panic) = (l, done panic)

unfoldable pub write : Option Error → ℕ → Bytes → Listener → Listener × Outcome (Unit {0})
write failed i b l = written i (write_to_udp failed i b l)

module _ {V : Type 0} (env : Env V) where
  -- The packet is parsed; it is a new slice, with no bytes behind its length.
  unfoldable pub parse_packet : Option Bytes → Message → Message × Result (Unit {0})
  parse_packet none m = (m, err eof)
  parse_packet (some b) m =
      if ltb (length b) message_head_size
      then (m, err unexpected_eof)
      else reset env (record { content = b; spare = [] }) m

  abbrev pub parsed :
      Message → Listener × Outcome (Option Bytes) → (Listener × Message) × Outcome (Unit {0})
  parsed m (l, done (ok b)) = let (m', r) = parse_packet b m in ((l, m'), done r)
  parsed m (l, done (err e)) = ((l, m), done (err e))
  parsed m (l, done panic) = ((l, m), done panic)
  parsed m (l, waits) = ((l, m), waits)

  -- `Conn.ReadMessage`
  unfoldable pub read_message : ℕ → Message → Listener → (Listener × Message) × Outcome (Unit {0})
  read_message i m l = parsed m (take_packet i l)

  abbrev pub written_message :
      Option Error → ℕ → Result Bytes → Listener → Listener × Result (Unit {0})
  written_message failed i (ok b) l = write_to_udp failed i b l
  written_message failed i (err e) l = (l, err e)
  written_message failed i panic l = (l, panic)

  -- `Conn.WriteMessage`
  unfoldable pub write_message :
      Option Error → ℕ → Message → Listener → Listener × Result (Unit {0})
  write_message failed i m l = written_message failed i (bytes env true m) l
