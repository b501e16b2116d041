-- ===== src/Goroutines.antt =====
-- socket.go: `readMsg`, `writeMsg` and `writeMsgTrue`, the two goroutines of a socket, with the
-- connection's methods as arguments.
pub mod Writing
pub mod Reading
use cosnet.Prelude.{
  ℕ, zero, suc, Bool, true, false, Option, List, [], ◌∷◌, ◌++◌, Error, Result, ok, err, panic,
  Method, if◌then◌else◌, eof, err_closed,
}
use cosnet.Prelude.Bytes.{Bytes}
use cosnet.Config.{event_error}
use cosnet.Message.Magic.{BinderName}
use cosnet.Message.Env.{Env}
use cosnet.Message.Object.{Message}
use cosnet.Sockets.State.{
  Stop, unset, opened, closed, Socket, Sockets, error, recovered, emit, set_socket,
}
use cosnet.Sockets.Lifecycle.{disconnect}
use cosnet.Sockets.Sending.{Outcome, done, waits, recycle}
use cosnet.Handler.{Reply, Node}
use cosnet.Handler.Incoming.{Registered, read_msg_true}

-- How a goroutine is left: it has returned, it waits, or it has panicked.
pub data End : Type 0 where
  returned waiting panicked : End

-- An error that ends the connection without an error event.
unfoldable pub quiet : Error → Bool
quiet eof = true
quiet err_closed = true
quiet _ = false

unfoldable pub report : Error → ℕ → Sockets → Sockets
report e id w = if quiet e then w else emit event_error id (error e) w

-- The deferred `disconnect`.
abbrev pub leave : End → ℕ → Sockets → Sockets × End
leave end id w = ((disconnect id w).0, end)

module _ (id : ℕ) where
  -- The message was handled: it is released, and the loop goes on.
  unfoldable pub after_message :
      Message → (Sockets → Sockets × End) → Sockets × Outcome → Sockets × End
  after_message m next (w, done (ok a)) = next (recycle m w)
  after_message m next (w, done (err e)) = next (recycle m w)
  after_message m next (w, done panic) = leave panicked id w
  after_message m next (w, waits) = (w, waiting)

  -- `ReadMessage` has returned.
  unfoldable pub after_read :
      {S : Type 0}
      → (Message → Sockets → Sockets × Outcome)
      → (S → Sockets → Sockets × End)
      → (Message × S) × Result (Unit {0})
      → Sockets
      → Sockets × End
  after_read handle next ((m, s), ok a) w = after_message m (next s) (handle m w)
  after_read handle next ((m, s), err e) w = leave returned id (report e id (recycle m w))
  after_read handle next ((m, s), panic) w = leave panicked id w

-- `search` is the registry's, `read` the connection's `ReadMessage`, with the state of the connection,
-- and `require` has the message that `Require` gives in each round.
module _ {V S : Type 0} (env : Env V) (binder_marshal : BinderName → Reply V → Result Bytes)
    (search : Bytes → Option (Node V × Registered V)) (pick_stop : Bool) (fresh : Message)
    (read : Method (Message × S) (Unit {0})) (require : ℕ → Message) (id : ℕ) where
  -- `readMsg`, with the number of rounds after which the program stops.
  unfoldable pub read_msg : ℕ → S → Sockets → Sockets × End
  read_msg zero s w = leave returned id w
  read_msg (suc n) s w =
      after_read id (read_msg_true env binder_marshal search pick_stop fresh id) (read_msg n)
        (read (require n, s)) w

-- What the connection is handed, and the error of its `Write`.
module _ (id : ℕ) where
  -- `writeMsgTrue`, once `WriteMessage` has returned; a panic is recovered.
  unfoldable pub after_write_message : Message → Bytes → Result Bytes → Sockets → Sockets × Bytes
  after_write_message m out (ok wire) w = (recycle m w, out ++ wire)
  after_write_message m out (err e) w = (recycle m (emit event_error id (error e) w), out)
  after_write_message m out panic w = (recycle m (emit event_error id recovered w), out)

  abbrev pub set_queue : List Message → Sockets → Sockets
  set_queue q w = set_socket id (record (w.heap id) { cwrite = q }) w

  -- `select` of `writeMsg` with an empty queue: the closed channel `stop` ends the goroutine; an open
  -- one, as a nil one, lets it wait.
  unfoldable pub after_drain : Stop → Sockets → Bytes → (Sockets × Bytes) × End
  after_drain closed w out = (((disconnect id w).0, out), returned)
  after_drain opened w out = ((w, out), waiting)
  after_drain unset w out = ((w, out), waiting)

  -- `<-sock.cwrite`
  unfoldable pub after_receive :
      (Message → Result Bytes)
      → (Sockets × Bytes → (Sockets × Bytes) × End)
      → List Message
      → Sockets
      → Bytes
      → (Sockets × Bytes) × End
  after_receive write next [] w out = after_drain (Socket.stop (w.heap id)) w out
  after_receive write next (m ∷ q) w out =
      next (after_write_message m out (write m) (set_queue q w))

  -- `writeMsg`, with the number of rounds after which `select` chooses the end of the socket or of
  -- the program over a message that is there.
  unfoldable pub write_msg :
      (Message → Result Bytes) → ℕ → Sockets × Bytes → (Sockets × Bytes) × End
  write_msg write zero (w, out) = (((disconnect id w).0, out), returned)
  write_msg write (suc n) (w, out) =
      after_receive write (write_msg write n) (Socket.cwrite (w.heap id)) w out
