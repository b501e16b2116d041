-- ===== src/Handler/Incoming.antt =====
-- socket.go: `readMsgTrue` and `handle`, by which the goroutine that reads hands a message to the
-- program.
pub mod Steady
use cosnet.Prelude.{
  ℕ, Bool, true, false, Option, none, some, List, [], ◌∷◌, ◌++◌, ◌≡◌, refl, ap, Error, Result, ok,
  err, panic, ◌==◌, ◌⊎◌, inl, inr, ◌≢◌, Bool-cases, if◌then◌else◌,
}
use cosnet.Prelude.Bytes.{Bytes}
use cosnet.Config.{event_error, event_message}
use cosnet.Message.Magic.{BinderName, Magic}
use cosnet.Message.Env.{Env}
use cosnet.Message.Head
use cosnet.Message.Object.{Message, path, raw}
use cosnet.Message.Marshal.{marshal}
use cosnet.Message.Read.{path_of, confirm}
use cosnet.Sockets.State.{Sockets, nothing, text, error, message, recovered, emit}
use cosnet.Sockets.Lifecycle.{keep_alive}
use cosnet.Sockets.Invariant.{Inv}
use cosnet.Sockets.Touched.{emit-Inv, keep_alive-Inv}
use cosnet.Sockets.Sending.{
  Outcome, done, waits, send_with_magic, send_marshalled, after_write, write,
}
use cosnet.Handler.{
  Context, Reply, Node, Handler, handle, reply, reply_confirmed, reply_bytes, send_reply,
  wants_reply, reply_flag,
}

-- What `node.Handler()` is: a `*Handler`, a nil one, or another value, at which the assertion
-- panics.
pub data Registered (V : Type 0) : Type 0 where
  handler : Handler V → Registered V
  nil_handler : Registered V
  other_value : Registered V

-- The `recover` of `handle`, whose event is an error.
unfoldable pub guarded : ℕ → Sockets × Outcome → Sockets × Outcome
guarded id (w, done panic) = (emit event_error id recovered w, done (ok tt))
guarded id (w, done (ok a)) = (w, done (ok a))
guarded id (w, done (err e)) = (w, done (err e))
guarded id (w, waits) = (w, waits)

-- An error of `reply` becomes an event.
unfoldable pub after_reply : ℕ → Sockets × Outcome → Sockets × Outcome
after_reply id (w, done (err e)) = (emit event_error id (error e) w, done (ok tt))
after_reply id (w, done (ok a)) = (w, done (ok a))
after_reply id (w, done panic) = (w, done panic)
after_reply id (w, waits) = (w, waits)

-- `search` is the registry's, at the method of cosnet. Where the text of an error event is formatted, the
-- event has its error or its path.
module _ {V : Type 0} (env : Env V) (binder_marshal : BinderName → Reply V → Result Bytes)
    (search : Bytes → Option (Node V × Registered V)) (pick_stop : Bool) (fresh : Message) where
  -- The method has returned, or has panicked.
  unfoldable pub answer_with : Handler V → Context → Sockets × Option (Reply V) → Sockets × Outcome
  answer_with h c (w, some r) =
      after_reply c.socket (reply env binder_marshal pick_stop fresh h c r w)
  answer_with h c (w, none) = (w, done panic)

  unfoldable pub dispatch_node :
      Option (Node V × Registered V) → Bytes → Context → Sockets → Sockets × Outcome
  dispatch_node none p c w = (emit event_message c.socket (message c.message) w, done (ok tt))
  dispatch_node (some (node, handler h)) p c w = answer_with h c (handle h node c w)
  dispatch_node (some (node, nil_handler)) p c w =
      (emit event_error c.socket (text p) w, done (ok tt))
  dispatch_node (some (node, other_value)) p c w = (w, done panic)

  unfoldable pub handle_path : ℕ → Message × Result (Bytes × Bytes) → Sockets → Sockets × Outcome
  handle_path id (m, ok (p, q)) w =
      dispatch_node (search p) p (record { socket = id; message = m }) w
  handle_path id (m, err e) w = (emit event_error id (error e) w, done (ok tt))
  handle_path id (m, panic) w = (w, done panic)

  -- `sock.handle(sock, msg)`
  unfoldable pub handle_message : ℕ → Message → Sockets → Sockets × Outcome
  handle_message id m w = guarded id (handle_path id (path_of env m) w)

  -- A message whose magic number is unknown, or is registered under the key 0, is dropped.
  unfoldable pub handle_known : ℕ → Message → Option Magic → Sockets → Sockets × Outcome
  handle_known id m none w = (w, done (ok tt))
  handle_known id m (some magic) w =
      if magic.key == 0 then (w, done (ok tt)) else handle_message id m w

  -- `sock.readMsgTrue(msg)`
  unfoldable pub read_msg_true : ℕ → Message → Sockets → Sockets × Outcome
  read_msg_true id m w = handle_known id m (Head.magic_of env m.head) (keep_alive id w)
