-- ===== src/Goroutines/Reading.antt =====
-- The goroutine that reads, on a TCP stream: every request of the stream reaches the program.
use cosnet.Prelude.{
  ℕ, zero, suc, ◌%◌, ◌^◌, ◌<◌, ◌≡◌, ◌≢◌, refl, ap, sym, ◌∙◌, Bool, false, Option, none, some, List,
  [], ◌∷◌, ◌++◌, map, append_assoc, append-nil, Result, ok, err, ◌==◌, length, eof, arith,
  Bool-cases, inl, inr, returned,
}
use cosnet.Prelude.Int.{pos}
use cosnet.Prelude.Bytes.{Bytes}
use cosnet.Config.{EventType, event_message}
use cosnet.Message.Magic.{Magic, BinderName, magic_type_path}
use cosnet.Message.Magic
use cosnet.Message.Env.{Env}
use cosnet.Message.Head.{Head}
use cosnet.Message.Head
use cosnet.Message.Object.{Message}
use cosnet.Message.Read.{path_of, split_query}
use cosnet.Message.Read.Prefixed.{path_of-path}
use cosnet.Message.Marshal.Layout.{path_prefix}
use cosnet.Prelude.Bytes.{put_uint32}
use cosnet.Message.Transfer.Sendable.{IsSendable}
use cosnet.Message.Transfer.Packet.{Arrived}
use cosnet.Tcp
use cosnet.Tcp.{read_head_bytes}
use cosnet.Tcp.Stream.{read_message-write_message}
use cosnet.Sockets.State.{Socket, Sockets, Attached, message, emit}
use cosnet.Sockets.Lifecycle.{keep_alive, is_connected, disconnect}
use cosnet.Sockets.Sending.{done, recycle}
use cosnet.Handler.{Reply, Node}
use cosnet.Handler.Incoming.{
  Registered, guarded, handle_path, handle_message, handle_known, read_msg_true, dispatch_node,
}
use cosnet.Goroutines.{End, quiet, report, leave, after_message, after_read, read_msg}

-- A message that `Marshal` filled from a path, on a magic number of path type, whose body is not
-- compressed.
pub record IsRequest {V : Type 0} (env : Env V) (m : Message) : Type 0 where
  pub magic : Magic
  pub path : Bytes
  pub body : Bytes
  pub sendable : IsSendable env magic m
  pub plain : Head.auto_compress env m.head ≡ false
  pub typed : magic.type ≡ magic_type_path
  pub keyed : (magic.key == 0) ≡ false
  pub named : path ≢ []
  pub short : length path < 2 ^ 31
  pub filled : m.bytes.content ≡ path_prefix magic path ++ body
  pub not_empty : 0 < length m.bytes.content

-- The messages that events carry are those sent, in the same order, by head and bytes.
abbrev pub Same : List Message → List Message → Type 0
Same [] [] = Unit
Same [] (m' ∷ ms') = ⊥
Same (m ∷ ms) [] = ⊥
Same (m ∷ ms) (m' ∷ ms') = ((m'.head ≡ m.head) × (m'.bytes.content ≡ m.bytes.content)) × Same ms ms'

abbrev pub Requests : {V : Type 0} → Env V → List Message → Type 0
Requests env [] = Unit
Requests env (m ∷ ms) = IsRequest env m × Requests env ms

-- What `WriteMessage` hands to the connection for each of them.
abbrev pub Wires : {V : Type 0} → Env V → List Message → Bytes → Type 0
Wires env [] s = s ≡ []
Wires env (m ∷ ms) s =
    (wire : Bytes) × (rest : Bytes) × (Tcp.write_message env m ≡ ok wire)
    × Wires env ms rest
    × (s ≡ wire ++ rest)

abbrev pub reported : ℕ → Message → EventType × ℕ × Attached
reported id m = (event_message, id, message m)

events-keep_alive : (id : ℕ) (w : Sockets) → Sockets.events (keep_alive id w) ≡ w.events
unfolding keep_alive
events-keep_alive id w = elim (Bool-cases (is_connected (Socket.status (w.heap id)))) [
  | inl e ↦ rw e refl
  | inr e ↦ rw e refl
]

-- The end of the stream is quiet.
read_nothing :
    {V : Type 0} (env : Env V) (m : Message) → Tcp.read_message env (m, []) ≡ ((m, []), err eof)
unfolding Tcp.read_message read_head_bytes
read_nothing env m = refl

module _ {V : Type 0} (env : Env V) (binder_marshal : BinderName → Reply V → Result Bytes)
    (pick_stop : Bool) (fresh : Message) (require : ℕ → Message) (id : ℕ) where
  -- No method is registered: every message becomes an event.
  abbrev pub nothing_found : Bytes → Option (Node V × Registered V)
  nothing_found p = none

  -- The message after its path was read, as the event carries it.
  abbrev with_code : Bytes → Message → Message
  with_code p m = record m { code = pos (length p) }

  handled :
      (m m' : Message) (w : Sockets) (q : IsRequest env m)
      → Arrived m (pos 0) m' tt
      → read_msg_true env binder_marshal nothing_found pick_stop fresh id m' w
        ≡ (emit event_message id (message (with_code q.path m')) (keep_alive id w), done (ok tt))
  unfolding read_msg_true handle_known handle_message handle_path dispatch_node guarded
      Head.magic_of
  handled m m' w q (head, content, code) =
      let known : Magic.get env.magics m'.head.magic ≡ some q.magic =
        ap (λ (h : Head). Magic.get env.magics h.magic) head ∙ q.sendable.known in
      let located : path_of env m' ≡ (with_code q.path m', ok (split_query q.path)) =
        path_of-path env q.magic q.path q.body m' known
          (content
            ∙ q.filled
            ∙ append_assoc (put_uint32 q.magic.binary (length q.path % 2 ^ 32)) q.path q.body)
          q.typed q.short q.named code in
      rw (known, q.keyed, located) refl

  abbrev loop : ℕ → Bytes → Sockets → Sockets × End
  loop = read_msg env binder_marshal nothing_found pick_stop fresh (Tcp.read_message env) require id

  -- What the loop comes to.
  abbrev pub Delivers : List Message → Sockets → Sockets × End → Type 0
  Delivers ms w r =
      (ms' : List Message) × (w' : Sockets) × Same ms ms'
      × (w'.events ≡ w.events ++ map (reported id) ms')
      × (r ≡ ((disconnect id w').0, End.returned))

  loop_end :
      (n : ℕ) (w : Sockets) → loop (suc n) [] w ≡ leave End.returned id (recycle (require n) w)
  unfolding read_msg after_read report quiet
  loop_end n w = rw (read_nothing env (require n)) refl

  loop_step :
      (n : ℕ) (m : Message) (rest wire : Bytes) (w : Sockets) (q : IsRequest env m)
      → Message.code (require n) ≡ pos 0
      → Tcp.write_message env m ≡ ok wire
      → (m' : Message) × ((m'.head ≡ m.head) × (m'.bytes.content ≡ m.bytes.content))
        × (loop (suc n) (wire ++ rest) w
            ≡ loop n rest (
                recycle m'
                  (emit event_message id (message (with_code q.path m')) (keep_alive id w))))
  unfolding read_msg after_read after_message
  loop_step n m rest wire w q clean written =
      let (wire', handed, r) =
        read_message-write_message env q.magic m q.sendable (require n) rest q.plain q.not_empty in
      let ((m', s'), u, read, ((head, content, code), behind)) =
        returned (λ after _. Arrived m (Message.code (require n)) after.0 tt × (after.1 ≡ rest))
          (Tcp.read_message env (require n, wire' ++ rest)) r in
      let same : wire ≡ wire' = cc in
      let handle = read_msg_true env binder_marshal nothing_found pick_stop fresh id in
      (
        m',
        (head, content),
        ap (λ x. after_read id handle (loop n) (Tcp.read_message env (require n, x ++ rest)) w) same
            ∙ ap (λ x. after_read id handle (loop n) x w) read
            ∙ ap (λ x. after_message id m' (loop n s') x)
                (handled m m' w q (head, content, code ∙ clean))
            ∙ ap
                (λ x. loop n x (
                  recycle m'
                    (emit event_message id (message (with_code q.path m')) (keep_alive id w))))
                behind,
      )

  events_step :
      (m m' : Message) (w : Sockets)
      → Sockets.events (recycle m' (emit event_message id (message m) (keep_alive id w)))
        ≡ w.events ++ (reported id m ∷ [])
  unfolding emit
  events_step m m' w = ap (λ es. es ++ (reported id m ∷ [])) (events-keep_alive id w)

  -- No method is registered, and the messages that `Require` gives have no cached code. If the
  -- stream of a TCP connection is what `WriteMessage` hands over for a list of requests (see
  -- `IsRequest`), one after another, and the program runs for more rounds than there are requests,
  -- then the goroutine that reads emits one event for each of them, in their order, with the head
  -- and the bytes that were sent, and nothing else, and at the end of the stream it disconnects and
  -- returns.
  pub read_msg-Delivers :
      (n : ℕ) (ms : List Message) (stream : Bytes) (w : Sockets)
      → length ms < n
      → ((k : ℕ) → Message.code (require k) ≡ pos 0)
      → Requests env ms
      → Wires env ms stream
      → Delivers ms w (
          read_msg env binder_marshal nothing_found pick_stop fresh
            (Tcp.read_message env)
            require
            id
            n
            stream
            w)
  read_msg-Delivers zero ms stream w enough clean qs wires = absurd (omega arith)
  read_msg-Delivers (suc n) [] stream w enough clean qs wires = (
    [],
    recycle (require n) w,
    tt,
    sym (append-nil w.events),
    ap (λ x. loop (suc n) x w) wires ∙ loop_end n w,
  )
  read_msg-Delivers (suc n) (m ∷ ms) stream w enough clean (q, qs)
        (wire, rest, written, wires, whole) =
      let (m', same, step) = loop_step n m rest wire w q (clean n) written in
      let w1 =
        recycle m' (emit event_message id (message (with_code q.path m')) (keep_alive id w)) in
      let (ms', w', sames, events, ends) =
        read_msg-Delivers n ms rest w1 (omega arith) clean qs wires in
      (
        with_code q.path m' ∷ ms',
        w',
        (same, sames),
        events
            ∙ ap (λ es. es ++ map (reported id) ms') (events_step (with_code q.path m') m' w)
            ∙ append_assoc w.events (reported id (with_code q.path m') ∷ [])
                (map (reported id) ms'),
        ap (λ x. loop (suc n) x w) whole ∙ step ∙ ends,
      )
