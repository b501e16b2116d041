-- ===== src/Handler/Incoming/Steady.antt =====
-- The goroutine that reads outlives every message, and the manager stays consistent.
use cosnet.Prelude.{
  ℕ, Bool, true, Option, none, some, ◌≡◌, refl, Result, ok, err, panic, ◌==◌, ◌⊎◌, inl, inr,
  Bool-cases,
}
use cosnet.Prelude.Bytes.{Bytes}
use cosnet.Config.{event_error, event_message}
use cosnet.Message.Magic.{BinderName, Magic}
use cosnet.Message.Env.{Env}
use cosnet.Message.Head
use cosnet.Message.Object.{Message, path, raw}
use cosnet.Message.Marshal.{marshal}
use cosnet.Message.Read.{path_of, confirm}
use cosnet.Sockets.State.{Sockets, text, error, message, recovered}
use cosnet.Sockets.Lifecycle.{keep_alive}
use cosnet.Sockets.Invariant.{Inv, settled}
use cosnet.Sockets.Touched.{emit-Inv, keep_alive-Inv}
use cosnet.Sockets.Sending.{
  Outcome, done, waits, send_with_magic, send_marshalled, after_write, write, recycle,
}
use cosnet.Sockets.Sending.Ownership.{write-Inv}
use cosnet.Handler.{
  Context, Reply, Node, Handler, handle, reply, reply_confirmed, reply_bytes, send_reply,
  wants_reply, reply_flag,
}
use cosnet.Handler.Incoming.{
  Registered, handler, nil_handler, other_value, guarded, after_reply, answer_with, dispatch_node,
  handle_path, handle_message, handle_known, read_msg_true,
}

recycle-Inv : (m : Message) (w : Sockets) → Inv w → Inv (recycle m w)
unfolding settled
recycle-Inv m w inv = inv

after_write-Inv : (m : Message) (r : Sockets × Outcome) → Inv r.0 → Inv (after_write m r).0
unfolding after_write
after_write-Inv m (w, done (err e)) inv = recycle-Inv m w inv
after_write-Inv m (w, done (ok a)) inv = inv
after_write-Inv m (w, done panic) inv = inv
after_write-Inv m (w, waits) inv = inv

send_marshalled-Inv :
    (safe pick_stop : Bool) (r : Message × Result (Unit {0})) (id : ℕ) (w : Sockets)
    → Inv w
    → Inv (send_marshalled safe pick_stop r id w).0
unfolding send_marshalled
send_marshalled-Inv safe pick_stop (m, ok a) id w inv =
    after_write-Inv m (write safe pick_stop m id w) (write-Inv safe pick_stop m id w inv)
send_marshalled-Inv safe pick_stop (m, err e) id w inv = recycle-Inv m w inv
send_marshalled-Inv safe pick_stop (m, panic) id w inv = inv

after_reply-Inv : (id : ℕ) (r : Sockets × Outcome) → Inv r.0 → Inv (after_reply id r).0
unfolding after_reply
after_reply-Inv id (w, done (err e)) inv = emit-Inv event_error id (error e) w inv
after_reply-Inv id (w, done (ok a)) inv = inv
after_reply-Inv id (w, done panic) inv = inv
after_reply-Inv id (w, waits) inv = inv

guarded-Inv : (id : ℕ) (r : Sockets × Outcome) → Inv r.0 → Inv (guarded id r).0
unfolding guarded
guarded-Inv id (w, done panic) inv = emit-Inv event_error id recovered w inv
guarded-Inv id (w, done (ok a)) inv = inv
guarded-Inv id (w, done (err e)) inv = inv
guarded-Inv id (w, waits) inv = inv

-- The call comes back with no error and no panic, or waits for the queue.
abbrev pub Survives : Outcome → Type 0
Survives o = (o ≡ done (ok tt)) ⊎ (o ≡ waits)

-- Neither an error, nor a panic that is not yet recovered.
abbrev NoError : Outcome → Type 0
NoError o = Survives o ⊎ (o ≡ done panic)

after_reply-NoError : (id : ℕ) (r : Sockets × Outcome) → NoError (after_reply id r).1
unfolding after_reply
after_reply-NoError id (w, done (err e)) = inl (inl refl)
after_reply-NoError id (w, done (ok a)) = inl (inl refl)
after_reply-NoError id (w, done panic) = inr refl
after_reply-NoError id (w, waits) = inl (inr refl)

guarded-Survives : (id : ℕ) (r : Sockets × Outcome) → NoError r.1 → Survives (guarded id r).1
unfolding guarded
guarded-Survives id (w, done panic) h = inl refl
guarded-Survives id (w, done (ok a)) h = inl refl
guarded-Survives id (w, done (err e)) (inl (inl h)) = absurd (cc)
guarded-Survives id (w, done (err e)) (inl (inr h)) = absurd (cc)
guarded-Survives id (w, done (err e)) (inr h) = absurd (cc)
guarded-Survives id (w, waits) h = inr refl

module _ {V : Type 0} (env : Env V) (binder_marshal : BinderName → Reply V → Result Bytes)
    (pick_stop : Bool) (fresh : Message) where
  send_reply-Inv :
      (c : Context) (o : Option Magic) (p : Bytes) (r : Result Bytes) (w : Sockets)
      → Inv w
      → Inv (send_reply env binder_marshal pick_stop fresh c o p r w).0
  unfolding send_reply send_with_magic
  send_reply-Inv c (some magic) p (ok b) w inv =
      send_marshalled-Inv true pick_stop
        (marshal env magic.key (reply_flag c.message.head.flag) c.message.head.index (path p)
          (raw b) fresh)
        c.socket w inv
  send_reply-Inv c none p (ok b) w inv = inv
  send_reply-Inv c none p (err e) w inv = inv
  send_reply-Inv c (some magic) p (err e) w inv = inv
  send_reply-Inv c none p panic w inv = inv
  send_reply-Inv c (some magic) p panic w inv = inv

  reply_confirmed-Inv :
      (h : Handler V) (id : ℕ) (r : Reply V) (confirmed : Message × Result Bytes) (w : Sockets)
      → Inv w
      → Inv (reply_confirmed env binder_marshal pick_stop fresh h id r confirmed w).0
  unfolding reply_confirmed
  reply_confirmed-Inv h id r (m, ok p) w inv =
      let c : Context = record { socket = id; message = m } in
      send_reply-Inv c (Head.magic_of env m.head) p (reply_bytes env binder_marshal h c r) w inv
  reply_confirmed-Inv h id r (m, err e) w inv = inv
  reply_confirmed-Inv h id r (m, panic) w inv = inv

  reply-Inv :
      (h : Handler V) (c : Context) (r : Reply V) (w : Sockets)
      → Inv w
      → Inv (reply env binder_marshal pick_stop fresh h c r w).0
  unfolding reply
  reply-Inv h c r w inv = elim (Bool-cases (wants_reply c.message.head.flag)) [
    | inl wanted ↦ rw wanted (reply_confirmed-Inv h c.socket r (confirm env c.message) w inv)
    | inr unwanted ↦ rw unwanted inv
  ]

-- The methods that the registry finds keep the manager consistent.
abbrev pub KeepsInv : {V : Type 0} → Option (Node V × Registered V) → Type 0
KeepsInv {V} found =
    (node : Node V) (h : Handler V)
    → found ≡ some (node, handler h)
    → (c : Context) (w : Sockets) → Inv w
    → Inv (handle h node c w).0

-- What holds of a call that may still be recovered from.
abbrev Steady : Sockets × Outcome → Type 0
Steady r = Inv r.0 × NoError r.1

module _ {V : Type 0} (env : Env V) (binder_marshal : BinderName → Reply V → Result Bytes)
    (search : Bytes → Option (Node V × Registered V)) (pick_stop : Bool) (fresh : Message) where
  answer_with-Steady :
      (h : Handler V) (c : Context) (r : Sockets × Option (Reply V))
      → Inv r.0
      → Steady (answer_with env binder_marshal search pick_stop fresh h c r)
  unfolding answer_with
  answer_with-Steady h c (w, some r) inv =
      let replied = reply env binder_marshal pick_stop fresh h c r w in
      (
        after_reply-Inv c.socket replied (reply-Inv env binder_marshal pick_stop fresh h c r w inv),
        after_reply-NoError c.socket replied,
      )
  answer_with-Steady h c (w, none) inv = (inv, inr refl)

  dispatch_node-Steady :
      (found : Option (Node V × Registered V)) (p : Bytes) (c : Context) (w : Sockets)
      → KeepsInv found
      → Inv w
      → Steady (dispatch_node env binder_marshal search pick_stop fresh found p c w)
  unfolding dispatch_node
  dispatch_node-Steady none p c w keeps inv =
      (emit-Inv event_message c.socket (message c.message) w inv, inl (inl refl))
  dispatch_node-Steady (some (node, handler h)) p c w keeps inv =
      answer_with-Steady h c (handle h node c w) (keeps node h refl c w inv)
  dispatch_node-Steady (some (node, nil_handler)) p c w keeps inv =
      (emit-Inv event_error c.socket (text p) w inv, inl (inl refl))
  dispatch_node-Steady (some (node, other_value)) p c w keeps inv = (inv, inr refl)

  handle_path-Steady :
      (id : ℕ) (r : Message × Result (Bytes × Bytes)) (w : Sockets)
      → ((p : Bytes) → KeepsInv (search p))
      → Inv w
      → Steady (handle_path env binder_marshal search pick_stop fresh id r w)
  unfolding handle_path
  handle_path-Steady id (m, ok (p, q)) w keeps inv =
      dispatch_node-Steady (search p) p (record { socket = id; message = m }) w (keeps p) inv
  handle_path-Steady id (m, err e) w keeps inv =
      (emit-Inv event_error id (error e) w inv, inl (inl refl))
  handle_path-Steady id (m, panic) w keeps inv = (inv, inr refl)

  handle_message-Steady :
      (id : ℕ) (m : Message) (w : Sockets)
      → ((p : Bytes) → KeepsInv (search p))
      → Inv w
      → Inv (handle_message env binder_marshal search pick_stop fresh id m w).0
        × Survives (handle_message env binder_marshal search pick_stop fresh id m w).1
  unfolding handle_message
  handle_message-Steady id m w keeps inv =
      let (kept, calm) = handle_path-Steady id (path_of env m) w keeps inv in
      let r = handle_path env binder_marshal search pick_stop fresh id (path_of env m) w in
      (guarded-Inv id r kept, guarded-Survives id r calm)

  handle_known-Steady :
      (id : ℕ) (m : Message) (found : Option Magic) (w : Sockets)
      → ((p : Bytes) → KeepsInv (search p))
      → Inv w
      → Inv (handle_known env binder_marshal search pick_stop fresh id m found w).0
        × Survives (handle_known env binder_marshal search pick_stop fresh id m found w).1
  unfolding handle_known
  handle_known-Steady id m none w keeps inv = (inv, inl refl)
  handle_known-Steady id m (some magic) w keeps inv = elim (Bool-cases (magic.key == 0)) [
    | inl zero_key ↦ rw zero_key (inv, inl refl)
    | inr proper ↦ rw proper (handle_message-Steady id m w keeps inv)
  ]

  -- Whatever message a connection delivers, and even if its path is malformed, the registry holds
  -- another value than a handler, the method panics, or the answer fails: if the methods keep the
  -- manager's invariant, then `readMsgTrue` keeps it, and comes back without an error or a panic,
  -- or waits for room in the queue.
  pub read_msg_true-Steady :
      (id : ℕ) (m : Message) (w : Sockets)
      → ((p : Bytes) → KeepsInv (search p))
      → Inv w
      → Inv (read_msg_true env binder_marshal search pick_stop fresh id m w).0
        × Survives (read_msg_true env binder_marshal search pick_stop fresh id m w).1
  unfolding read_msg_true
  read_msg_true-Steady id m w keeps inv =
      handle_known-Steady id m (Head.magic_of env m.head) (keep_alive id w) keeps
        (keep_alive-Inv id w inv)
