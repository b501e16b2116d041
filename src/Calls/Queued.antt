-- ===== src/Calls/Queued.antt =====
-- Calls one behind the other on a connection, and the queue of their answers.
use cosnet.Prelude.{
  ℕ, suc, ◌+◌, ◌≤◌, ◌≡◌, refl, ap, ◌∙◌, Bool, true, Option, List, [], ◌∷◌, ◌++◌, ok, Result, arith,
  length, length-append, Returns, if◌then◌else◌,
}
use cosnet.Prelude.Int.{pos}
use cosnet.Prelude.Bytes.{Bytes}
use cosnet.Message.Flag.{flag_heartbeat}
use cosnet.Message.Flag
use cosnet.Message.Magic.{Magic, BinderName}
use cosnet.Message.Env.{Env}
use cosnet.Message.Head.{Head}
use cosnet.Message.Object.{Message, new_message, path, raw}
use cosnet.Message.Marshal.{marshal}
use cosnet.Message.RoundTrip.{read_parts, ReadsBack, marshalled_head}
use cosnet.Tcp.{read_message, write_message}
use cosnet.Sockets.State.{Socket, Sockets, opened}
use cosnet.Sockets.Lifecycle.{is_ready, keep_alive}
use cosnet.Sockets.Frame.{update_at}
use cosnet.Sockets.Sending.{queue, recycle}
use cosnet.Handler.{Reply, Node}
use cosnet.Handler.Incoming.{Registered}
use cosnet.Goroutines.{End, read_msg}
use cosnet.Calls.{Call, IsServed, answer_path}
use cosnet.Calls.Carried.{IsOpen, IsFilled}
use cosnet.Calls.Answered.{keep_alive-IsOpen}

-- A ready socket whose queue has room for `k` messages.
abbrev pub HasRoomFor : ℕ → ℕ → Sockets → Type 0
HasRoomFor k id w =
    (is_ready (w.heap id) ≡ true)
    × (Socket.stop (w.heap id) ≡ opened)
    × (length (Socket.cwrite (w.heap id)) + k ≤ w.options.write_chan_size)

module _ {V : Type 0} (env : Env V) (mc : Magic) where
  abbrev pub Served : (Bytes → Option (Node V × Registered V)) → List (Call V) → Type 0
  Served search [] = Unit
  Served search (c ∷ cs) = IsServed env mc search c × Served search cs

  -- What `WriteMessage` writes for requests, one behind the other.
  abbrev pub Sent : List (Call V) → Bytes → Type 0
  Sent [] stream = stream ≡ []
  Sent (c ∷ cs) stream =
      (s : Message) × (wire : Bytes) × (rest : Bytes) × (marshal env mc.key c.flag c.index
          (path c.path) (raw c.body) new_message
        ≡ (s, ok tt))
      × (write_message env s ≡ ok wire)
      × Sent cs rest
      × (stream ≡ wire ++ rest)

  -- The head of the answer to a call.
  abbrev pub answer_head : Call V → Head
  answer_head c =
      marshalled_head mc mc.key (if Flag.has c.flag flag_heartbeat then 5 else 1) c.index
        (answer_path env c.path) (c.method c.body)

  -- Messages that hold, and read as, the answers to the calls, in their order.
  abbrev pub Answers : List (Call V) → List Message → Type 0
  Answers [] [] = Unit
  Answers [] (a ∷ answers) = ⊥
  Answers (c ∷ cs) [] = ⊥
  Answers (c ∷ cs) (a ∷ answers) =
      (IsFilled mc (answer_head c) (answer_path env c.path) (c.method c.body) a
        × Returns (ReadsBack (answer_path env c.path) (c.method c.body) (answer_head c))
            (read_parts env a))
      × Answers cs answers

pub IsOpen-HasRoomFor : (k id : ℕ) (w : Sockets) → HasRoomFor (suc k) id w → IsOpen id w
IsOpen-HasRoomFor k id w (ready, stop, room) = record {
  ready = ready;
  room = ground arith;
  stop = stop;
}

-- The socket after a message was heard, answered and released.
abbrev pub after_answer : Message → Message → ℕ → Sockets → Sockets
after_answer m a id w = recycle m (queue a id (keep_alive id w))

keep_alive_keeps :
    (id : ℕ) (w : Sockets)
    → is_ready (w.heap id) ≡ true
    → (Socket.cwrite (Sockets.heap (keep_alive id w) id) ≡ Socket.cwrite (w.heap id))
      × (Sockets.options (keep_alive id w) ≡ w.options)
      × (Sockets.events (keep_alive id w) ≡ w.events)
unfolding keep_alive is_ready
keep_alive_keeps id w ready =
    rw ready (
      ap Socket.cwrite (update_at w.heap id (record (w.heap id) { heartbeat = pos 0 })),
      refl,
      refl,
    )

pub after_answer-HasRoomFor :
    (m a : Message) (k id : ℕ) (w : Sockets)
    → HasRoomFor (suc k) id w
    → HasRoomFor k id (after_answer m a id w)
      × (Socket.cwrite (Sockets.heap (after_answer m a id w) id)
          ≡ Socket.cwrite (w.heap id) ++ (a ∷ []))
      × (Sockets.events (after_answer m a id w) ≡ w.events)
after_answer-HasRoomFor m a k id w h =
    let w1 = keep_alive id w in
    let kept = keep_alive-IsOpen id w (IsOpen-HasRoomFor k id w h) in
    let (same_queue, same_options, same_events) = keep_alive_keeps id w h.0 in
    let s = record (w1.heap id) { cwrite = Socket.cwrite (w1.heap id) ++ (a ∷ []) } in
    let at = update_at w1.heap id s in
    let queued : Socket.cwrite (Sockets.heap (after_answer m a id w) id)
        ≡ Socket.cwrite (w.heap id) ++ (a ∷ []) =
      ap Socket.cwrite at ∙ ap (λ q. q ++ (a ∷ [])) same_queue in
    (
      (
        ap is_ready at ∙ unfold is_ready in kept.ready,
        ap Socket.stop at ∙ kept.stop,
        omega (
          arith,
          ap length queued,
          length-append (Socket.cwrite (w.heap id)) (a ∷ []),
          ap (λ o. o.write_chan_size) same_options,
          h.2,
        ),
      ),
      queued,
      same_events,
    )

-- The goroutine that reads, and what it comes to.
module _ {V : Type 0} (env : Env V) (binder_marshal : BinderName → Reply V → Result Bytes)
    (search : Bytes → Option (Node V × Registered V)) (pick_stop : Bool) (fresh : Message)
    (require : ℕ → Message) (id : ℕ) where
  abbrev pub loop : ℕ → Bytes → Sockets → Sockets × End
  loop = read_msg env binder_marshal search pick_stop fresh (read_message env) require id

  -- The loop is where it was, behind the calls, with their answers in the queue, no event, and the channel
  -- open.
  abbrev pub Answered : Magic → ℕ → List (Call V) → Bytes → Sockets → Sockets × End → Type 0
  Answered mc n cs rest w r =
      (w' : Sockets) × (answers : List Message) × (r ≡ loop n rest w')
      × (Socket.cwrite (w'.heap id) ≡ Socket.cwrite (w.heap id) ++ answers)
      × Answers env mc cs answers
      × (w'.events ≡ w.events)
      × (Socket.stop (w'.heap id) ≡ opened)
