-- ===== src/Goroutines/Writing.antt =====
-- The goroutine that writes, on a TCP stream, and what reaches the other end.
use cosnet.Prelude.{
  ℕ, zero, suc, ◌<◌, ◌≡◌, refl, ap, sym, ◌∙◌, List, [], ◌∷◌, ◌++◌, append_assoc, append-nil, Result,
  ok, Bool, none, length, arith,
}
use cosnet.Prelude.Int.{pos}
use cosnet.Prelude.Bytes.{Bytes}
use cosnet.Message.Magic.{BinderName}
use cosnet.Message.Env.{Env}
use cosnet.Message.Object.{Message}
use cosnet.Tcp
use cosnet.Tcp.Stream.{read_message-write_message}
use cosnet.Sockets.State.{opened, Socket, Sockets}
use cosnet.Sockets.Frame.{update_at}
use cosnet.Sockets.Sending.{recycle}
use cosnet.Handler.{Reply}
use cosnet.Goroutines.{
  End, waiting, set_queue, after_write_message, after_receive, after_drain, write_msg, read_msg,
}
use cosnet.Goroutines.Reading.{Requests, Wires, Delivers, read_msg-Delivers}

-- Every request can be written.
wires :
    {V : Type 0} (env : Env V) (ms : List Message) → Requests env ms → (s : Bytes) × Wires env ms s
wires env [] qs = ([], refl)
wires env (m ∷ ms) (q, qs) =
    let (wire, written, r) =
      read_message-write_message env q.magic m q.sendable m [] q.plain q.not_empty in
    let (rest, handed) = wires env ms qs in (wire ++ rest, (wire, rest, written, handed, refl))

-- The queue is empty, its messages were released, and nothing was reported.
abbrev pub Drained : List Message → ℕ → Sockets → Sockets → Type 0
Drained ms id w w' =
    (Socket.cwrite (w'.heap id) ≡ []) × (w'.recycled ≡ w.recycled ++ ms) × (w'.events ≡ w.events)

module _ {V : Type 0} (env : Env V) (id : ℕ) where
  abbrev loop : ℕ → Sockets × Bytes → (Sockets × Bytes) × End
  loop = write_msg id (Tcp.write_message env)

  write_step :
      (n : ℕ) (m : Message) (ms : List Message) (wire out : Bytes) (w : Sockets)
      → Socket.cwrite (w.heap id) ≡ m ∷ ms
      → Tcp.write_message env m ≡ ok wire
      → loop (suc n) (w, out) ≡ loop n (recycle m (set_queue id ms w), out ++ wire)
  unfolding write_msg after_receive after_write_message
  write_step n m ms wire out w queued written =
      ap (λ q. after_receive id (Tcp.write_message env) (loop n) q w out) queued
      ∙ ap (λ r. loop n (after_write_message id m out r (set_queue id ms w))) written

  write_msg-Drained :
      (n : ℕ) (ms : List Message) (stream out : Bytes) (w : Sockets)
      → length ms < n
      → Socket.cwrite (w.heap id) ≡ ms
      → Socket.stop (w.heap id) ≡ opened
      → Wires env ms stream
      → (w' : Sockets) × (loop n (w, out) ≡ ((w', out ++ stream), waiting)) × Drained ms id w w'
  unfolding write_msg after_receive after_drain
  write_msg-Drained zero ms stream out w enough queued live handed = absurd (omega arith)
  write_msg-Drained (suc n) [] stream out w enough queued live handed = (
    w,
    ap (λ q. after_receive id (Tcp.write_message env) (loop n) q w out) queued
        ∙ ap (λ stop. after_drain id stop w out) live
        ∙ ap (λ b. ((w, b), waiting)) (sym (append-nil out) ∙ ap (λ b. out ++ b) (sym handed)),
    (queued, sym (append-nil w.recycled), refl),
  )
  write_msg-Drained (suc n) (m ∷ ms) stream out w enough queued live
        (wire, rest, written, handed, whole) =
      let w1 = recycle m (set_queue id ms w) in
      let (w', runs, (empty, released, quiet)) =
        write_msg-Drained n ms rest (out ++ wire) w1 (omega arith)
          (ap Socket.cwrite (update_at w.heap id (record (w.heap id) { cwrite = ms })))
          (ap Socket.stop (update_at w.heap id (record (w.heap id) { cwrite = ms })) ∙ live)
          handed in
      (
        w',
        write_step n m ms wire out w queued written
            ∙ runs
            ∙ ap (λ b. ((w', b), waiting))
                (append_assoc out wire rest ∙ ap (λ b. out ++ b) (sym whole)),
        (empty, released ∙ append_assoc w.recycled (m ∷ []) ms, quiet),
      )

-- The queue of a socket with an open channel holds requests (see `IsRequest`), and both programs run for more rounds than
-- there are. Then the goroutine that writes empties the queue, releases every message, reports no
-- error, and waits for more; and the goroutine that reads what it wrote, at the other end of the
-- TCP connection, with no method registered and messages without a cached code from `Require`,
-- emits one event for each message, in the order of the queue, with its head and bytes, and
-- nothing else, and disconnects at the end of the stream.
pub queue_delivered :
    {V : Type 0} (env : Env V) (binder_marshal : BinderName → Reply V → Result Bytes)
    (pick_stop : Bool) (fresh : Message) (require : ℕ → Message) (n k id peer : ℕ)
    (ms : List Message) (sender w : Sockets)
    → length ms < n
    → length ms < k
    → ((i : ℕ) → Message.code (require i) ≡ pos 0)
    → Requests env ms
    → Socket.cwrite (sender.heap id) ≡ ms
    → Socket.stop (sender.heap id) ≡ opened
    → (stream : Bytes) × (sender' : Sockets) × (write_msg id (Tcp.write_message env) n (sender, [])
        ≡ ((sender', stream), waiting))
      × Drained ms id sender sender'
      × Delivers env binder_marshal pick_stop fresh require peer ms w (
          read_msg env binder_marshal
            (λ _. none)
            pick_stop
            fresh
            (Tcp.read_message env)
            require
            peer
            k
            stream
            w)
queue_delivered env binder_marshal pick_stop fresh require n k id peer ms sender w enough enough'
      clean qs queued live =
    let (stream, handed) = wires env ms qs in
    let (sender', runs, drained) =
      write_msg-Drained env id n ms stream [] sender enough queued live handed in
    (
      stream,
      sender',
      runs,
      drained,
      read_msg-Delivers env binder_marshal pick_stop fresh require peer k ms stream w enough' clean
          qs handed,
    )
