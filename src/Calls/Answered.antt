-- ===== src/Calls/Answered.antt =====
-- The whole call: the answer has what the method makes of the body, under the index of the request.
use cosnet.Prelude.{
  ℕ, ◌%◌, ◌^◌, ◌≤◌, ◌≡◌, refl, ap, ◌∙◌, Bool, true, false, Bool-cases, inl, inr, Option, some, ◌++◌,
  ok, Result, length, append_assoc, ◌==◌, if◌then◌else◌, Returns,
}
use cosnet.Prelude.Int.{pos}
use cosnet.Prelude.Bytes.{Bytes, put_uint32}
use cosnet.Message.Flag.{flag_heartbeat}
use cosnet.Message.Flag
use cosnet.Message.Magic.{Magic, BinderName, magic_type_path}
use cosnet.Message.Magic
use cosnet.Message.Env.{Env}
use cosnet.Message.Head.{Head}
use cosnet.Message.Head
use cosnet.Message.Object.{Message, path, raw}
use cosnet.Message.Read.{path_of, body_of, confirm, split_query, is_empty, path_or_empty}
use cosnet.Message.Read.Prefixed.{path_of-path, path_of_cached, body_of-path}
use cosnet.Message.RoundTrip.{read_parts, ReadsBack, read_parts-path, marshalled_head}
use cosnet.Tcp.{read_message, write_message}
use cosnet.Sockets.State.{Socket, Sockets}
use cosnet.Sockets.Lifecycle.{is_ready, keep_alive}
use cosnet.Sockets.Frame.{update_at}
use cosnet.Sockets.Sending.{done, queue, send_with_magic}
use cosnet.Handler.{Context, Reply, bytes, Node, reply, wants_reply, reply_flag, reply_bytes}
use cosnet.Handler.Answers.{reply-eq-send, reply_flag_lem}
use cosnet.Handler.Incoming.{
  Registered, guarded, after_reply, answer_with, dispatch_node, handle_path, handle_message,
  handle_known, read_msg_true,
}
use cosnet.Calls.{Call, IsServed, answer_path}
use cosnet.Calls.Carried.{IsOpen, IsFilled, carried}

-- `KeepAlive` changes the counter only.
pub keep_alive-IsOpen : (id : ℕ) (w : Sockets) → IsOpen id w → IsOpen id (keep_alive id w)
unfolding keep_alive is_ready
keep_alive-IsOpen id w h =
    let s = record (w.heap id) { heartbeat = pos 0 } in
    let at = update_at w.heap id s in
    rw h.ready (record {
      ready = ap is_ready at ∙ h.ready;
      room = rw at h.room;
      stop = ap Socket.stop at ∙ h.stop;
    })

module _ {V : Type 0} (env : Env V) (binder_marshal : BinderName → Reply V → Result Bytes)
    (search : Bytes → Option (Node V × Registered V)) (pick_stop : Bool) (mc : Magic)
    (known : Magic.get env.magics mc.key ≡ some mc) (typed : mc.type ≡ magic_type_path)
    (keyed : (mc.key == 0) ≡ false) (cap_ok : 4 ≤ env.options.capacity) where
  -- A request as it was received, once its path was read.
  module _ (c : Call V) (is : IsServed env mc search c) (m : Message)
      (filled : IsFilled mc
        (marshalled_head mc mc.key c.flag c.index c.path c.body)
        c.path
        c.body
        m) where
    abbrev located : Message
    located = record m { code = pos (length c.path) }

    known_here : Magic.get env.magics m.head.magic ≡ some mc
    known_here = ap (λ (h : Head). Magic.get env.magics h.magic) filled.0 ∙ known

    content_here :
        m.bytes.content ≡ put_uint32 mc.binary (length c.path % 2 ^ 32) ++ (c.path ++ c.body)
    content_here =
        filled.1 ∙ append_assoc (put_uint32 mc.binary (length c.path % 2 ^ 32)) c.path c.body

    path_here : path_of env m ≡ (located, ok (split_query c.path))
    unfolding Head.magic_of
    path_here =
        path_of-path env mc c.path c.body m known_here content_here typed is.request.short
          is.request.named filled.2

    body_here : body_of env located ≡ (located, ok c.body)
    unfolding Head.magic_of
    body_here =
        body_of-path env mc c.path c.body located known_here content_here typed is.request.short
          is.request.named refl

    confirm_here : confirm env located ≡ (located, ok (answer_path env c.path))
    unfolding confirm Head.magic_of
    confirm_here = elim (Bool-cases (is_empty env.options.s2c_confirm)) [
      | inl e ↦ rw e (
          ap path_or_empty (
            path_of_cached env mc c.path c.body located known_here content_here typed
              is.request.short is.request.named refl))
      | inr e ↦ rw e refl
    ]

    -- What is queued for it.
    pub handled :
        (fresh : Message) (id : ℕ) (w : Sockets) (a : Message)
        → send_with_magic env true pick_stop mc.key
            (if Flag.has c.flag flag_heartbeat then 5 else 1)
            c.index
            (path (answer_path env c.path))
            (raw (c.method c.body))
            fresh
            id
            (keep_alive id w)
          ≡ (queue a id (keep_alive id w), done (ok tt))
        → read_msg_true env binder_marshal search pick_stop fresh id m w
          ≡ (queue a id (keep_alive id w), done (ok tt))
    unfolding read_msg_true handle_known handle_message handle_path dispatch_node answer_with
        after_reply guarded Head.magic_of reply_bytes
    handled fresh id w a queued =
        let w1 = keep_alive id w in
        let q = answer_path env c.path in
        let b = c.method c.body in
        let here : Context = record { socket = id; message = located } in
        let replied : reply env binder_marshal pick_stop fresh c.handler here (bytes b) w1
            ≡ (queue a id w1, done (ok tt)) =
          reply-eq-send env binder_marshal mc pick_stop fresh c.handler here (bytes b) located q b
            w1 (ap (λ (x : Head). wants_reply x.flag) filled.0 ∙ is.wanted) confirm_here known_here
            refl
          ∙ ap
              (λ (x : Head).
                send_with_magic env true pick_stop mc.key (reply_flag x.flag) x.index (path q)
                  (raw b) fresh id w1)
              filled.0
          ∙ ap
              (λ k.
                send_with_magic env true pick_stop mc.key k c.index (path q) (raw b) fresh id w1)
              (reply_flag_lem c.flag)
          ∙ queued in
        rw
          (
            known_here,
            keyed,
            path_here,
            is.found,
            is.served here located c.body w1 body_here,
            replied,
          )
          refl

  -- With a capacity of at least four bytes and a magic number that is registered under its own key,
  -- which is not 0, with path type, a call is served (see `IsServed`): TCP carries its path and
  -- body, and those of its answer (see `Fits`), its flag wants a reply, and the registry finds for
  -- its path without the query a method that makes the call's `method` of the body and leaves the
  -- manager. `SendWithMagic` on a client's socket that takes a message (see `IsOpen`) queues a
  -- message, and `WriteMessage` writes it. `ReadMessage` at the server takes it off the front of
  -- the stream into a message without a cached code, and `readMsgTrue` on a socket that takes a
  -- message queues one message there and changes nothing else but the counter of heartbeats.
  -- `WriteMessage` writes that message, and what `ReadMessage` takes off the front of the client's
  -- stream, into a message without a cached code, reads as the answer's path (the configured one,
  -- or the request's without its query), split at its first question mark, and `method` of the
  -- body, under a head with the magic number, the index of the request and the flag of a
  -- confirmation, which is a heartbeat's too exactly if the request is. Both streams go on with
  -- what came behind.
  pub call_answered :
      (c : Call V) (fresh fresh' m m' : Message) (rest rest' : Bytes) (client server : Sockets)
      (cid sid : ℕ)
      → IsServed env mc search c
      → IsOpen cid client
      → IsOpen sid server
      → m.code ≡ pos 0
      → m'.code ≡ pos 0
      → (s : Message) × (wire : Bytes) × (send_with_magic env true pick_stop mc.key c.flag c.index
            (path c.path)
            (raw c.body)
            fresh
            cid
            client
          ≡ (queue s cid client, done (ok tt)))
        × (write_message env s ≡ ok wire)
        × (received : Message) × (read_message env (m, wire ++ rest) ≡ ((received, rest), ok tt))
        × (a : Message) × (wire' : Bytes) × (read_msg_true env binder_marshal search pick_stop
              fresh' sid received server
            ≡ (queue a sid (keep_alive sid server), done (ok tt)))
        × (write_message env a ≡ ok wire')
        × (back : Message) × (read_message env (m', wire' ++ rest') ≡ ((back, rest'), ok tt))
        × Returns
            (ReadsBack (answer_path env c.path) (c.method c.body) (
              marshalled_head mc mc.key
                (if Flag.has c.flag flag_heartbeat then 5 else 1)
                c.index
                (answer_path env c.path)
                (c.method c.body)))
            (read_parts env back)
  call_answered c fresh fresh' m m' rest rest' client server cid sid is at_client at_server clean
        clean' =
      let q = answer_path env c.path in
      let flag' : ℕ = if Flag.has c.flag flag_heartbeat then 5 else 1 in
      let b = c.method c.body in
      let (s, wire, sent, written, received, read, filled) =
        carried env mc mc.key c.flag c.index c.path c.body known typed cap_ok is.request pick_stop
          fresh m rest cid client at_client clean in
      let (a, wire', sent', written', back, read', (head, content, code)) =
        carried env mc mc.key flag' c.index q b known typed cap_ok is.answer pick_stop fresh' m'
          rest' sid (keep_alive sid server) (keep_alive-IsOpen sid server at_server) clean' in
      (
        s,
        wire,
        sent,
        written,
        received,
        read,
        a,
        wire',
        handled c is received filled fresh' sid server a sent',
        written',
        back,
        read',
        rw
            (read_parts-path env mc q b back
              (ap (λ (x : Head). Magic.get env.magics x.magic) head ∙ known) typed is.answer.named
              is.answer.short content code)
            (refl, head),
      )
