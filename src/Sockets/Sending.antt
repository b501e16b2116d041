-- ===== src/Sockets/Sending.antt =====
-- `Write`, `Send` and `SendWithMagic` of a socket: a message is filled and queued.
pub mod Ownership
use cosnet.Prelude.{
  ℕ, zero, suc, Bool, true, false, Option, none, some, List, [], ◌∷◌, ◌++◌, Error, Result, ok, err,
  panic, ◌==◌, ltb, if◌then◌else◌, length, not_ready, socket_closed, write_chan_full, send_marshal,
  send_write,
}
use cosnet.Prelude.Int.{ℤ}
use cosnet.Message.Env.{Env}
use cosnet.Message.Object.{Message, PathOrCode, Payload}
use cosnet.Message.Marshal.{marshal}
use cosnet.Sockets.State.{Stop, closed, Socket, Sockets, set_socket}
use cosnet.Sockets.Lifecycle.{is_ready}

-- What a call comes to: a result, or it waits for the queue or the end of the socket.
pub data Outcome : Type 0 where
  done : Result (Unit {0}) → Outcome
  waits : Outcome

-- The case that `select` takes; `pick_stop` decides where both channels are ready.
pub data Chosen : Type 0 where
  queues ends neither : Chosen

unfoldable pub select : Bool → Bool → Bool → Chosen
select true true pick_stop = if pick_stop then ends else queues
select true false pick_stop = queues
select false true pick_stop = ends
select false false pick_stop = neither

abbrev pub is_closed : Stop → Bool
is_closed closed = true
is_closed _ = false

-- Whether the queue takes another message.
abbrev pub has_room : ℕ → Sockets → Bool
has_room id w = ltb (length (Socket.cwrite (w.heap id))) w.options.write_chan_size

abbrev pub queue : Message → ℕ → Sockets → Sockets
queue m id w =
    set_socket id (record (w.heap id) { cwrite = Socket.cwrite (w.heap id) ++ (m ∷ []) }) w

unfoldable pub write_chosen : Chosen → Bool → Message → ℕ → Sockets → Sockets × Outcome
write_chosen queues safe m id w = (queue m id w, done (ok tt))
write_chosen ends safe m id w = (w, done (err socket_closed))
write_chosen neither true m id w = (w, waits)
write_chosen neither false m id w = (w, done (err write_chan_full))

-- `Write(m, safe)`, with `safe` true where it is left out.
unfoldable pub write : Bool → Bool → Message → ℕ → Sockets → Sockets × Outcome
write safe pick_stop m id w =
    if is_ready (w.heap id)
    then write_chosen (select (has_room id w) (is_closed (Socket.stop (w.heap id))) pick_stop) safe
        m id w
    else (w, done (err not_ready))

-- `message.Release(m)`
abbrev pub recycle : Message → Sockets → Sockets
recycle m w = record w { recycled = w.recycled ++ (m ∷ []) }

unfoldable pub after_write : Message → Sockets × Outcome → Sockets × Outcome
after_write m (w, done (err e)) = (recycle m w, done (err (send_write e)))
after_write m (w, done (ok a)) = (w, done (ok a))
after_write m (w, done panic) = (w, done panic)
after_write m (w, waits) = (w, waits)

-- `SendWithMagic` once the message is filled, or is not.
unfoldable pub send_marshalled :
    Bool → Bool → Message × Result (Unit {0}) → ℕ → Sockets → Sockets × Outcome
send_marshalled safe pick_stop (m, ok a) id w = after_write m (write safe pick_stop m id w)
send_marshalled safe pick_stop (m, err e) id w = (recycle m w, done (err (send_marshal e)))
send_marshalled safe pick_stop (m, panic) id w = (w, done panic)

module _ {V : Type 0} (env : Env V) where
  -- `SendWithMagic`, with the message that `Require` gave.
  unfoldable pub send_with_magic :
      Bool → Bool → ℕ → ℕ → ℤ → PathOrCode → Payload V → Message → ℕ → Sockets → Sockets × Outcome
  send_with_magic safe pick_stop magic flag index p b m id w =
      send_marshalled safe pick_stop (marshal env magic flag index p b m) id w

  -- `Send`: the magic number of the socket, or the default one.
  unfoldable send :
      Bool → Bool → ℕ → ℤ → PathOrCode → Payload V → Message → ℕ → Sockets → Sockets × Outcome
  send safe pick_stop flag index p b m id w =
      send_with_magic safe pick_stop
        (if Socket.magic (w.heap id) == 0 then env.options.magic else Socket.magic (w.heap id)) flag
        index p b m id w

-- `Async`: the goroutine is pending, or has closed its channel and left the error of `Write`, which
-- does not panic.
pub data AsyncResult : Type 0 where
  pending : AsyncResult
  finished : Result (Unit {0}) → AsyncResult

abbrev finish : Sockets × Outcome → Sockets × AsyncResult
finish (w, done r) = (w, finished r)
finish (w, waits) = (w, pending)

unfoldable pub async : Bool → Bool → Message → ℕ → Sockets → Sockets × AsyncResult
async safe pick_stop m id w = finish (write safe pick_stop m id w)

-- `Wait()`, with `none` while the channel is open.
unfoldable pub wait : AsyncResult → Option (Result (Unit {0}))
wait pending = none
wait (finished r) = some r

-- `Magic(magic...)` of a socket, and `Is(target)`
unfoldable pub set_magic : Option ℕ → ℕ → Sockets → Sockets × ℕ
set_magic none id w = (w, Socket.magic (w.heap id))
set_magic (some n) id w = (set_socket id (record (w.heap id) { magic = n }) w, n)

unfoldable pub is_same : ℕ → Option ℕ → Bool
is_same id none = false
is_same id (some target) = id == target
