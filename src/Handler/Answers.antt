-- ===== src/Handler/Answers.antt =====
-- The answer to a message: what is queued for it, and that it is not answered in turn.
use cosnet.Prelude.{
  ℕ, ◌^◌, ◌≤◌, ◌<◌, ◌≡◌, ◌≢◌, refl, ap, sym, ◌∙◌, Bool, true, false, Bool-cases, inl, inr, some, [],
  ok, err, panic, arith, length, Result, Returns, Returns-mono, if◌then◌else◌,
}
use cosnet.Prelude.Int.{pos}
use cosnet.Prelude.Bytes.{Bytes}
use cosnet.Message.Flag
use cosnet.Message.Flag.{flag_confirm, flag_noreply, flag_heartbeat}
use cosnet.Message.Magic.{Magic, BinderName, magic_type_path}
use cosnet.Message.Magic
use cosnet.Message.Env.{Env}
use cosnet.Message.Head
use cosnet.Message.Object.{Message, path, raw}
use cosnet.Message.Read.{confirm, path_of, code_of, path_by, path_or_empty, is_empty}
use cosnet.Message.Marshal.{marshal_body}
use cosnet.Message.RoundTrip.{read_parts, ReadsBack, marshalled_head}
use cosnet.Sockets.State.{Sockets, Socket, opened}
use cosnet.Sockets.Lifecycle.{is_ready}
use cosnet.Sockets.Sending.{done, queue, has_room, send_with_magic}
use cosnet.Sockets.Sending.Ownership.{send_with_magic-ReadsBack}
use cosnet.Handler.{
  Context, Reply, Handler, reply_flag, wants_reply, reply_bytes, send_reply, reply_confirmed, reply,
}

-- An answer is not answered.
answered : (flag : ℕ) → wants_reply (reply_flag flag) ≡ false
unfolding wants_reply reply_flag Flag.has Flag.set
answered flag = elim (Bool-cases (Flag.has flag flag_heartbeat)) [
  | inl beat ↦ rw beat refl
  | inr plain ↦ rw plain refl
]

pub reply_flag_lem : (flag : ℕ) → reply_flag flag ≡ (if Flag.has flag flag_heartbeat then 5 else 1)
unfolding reply_flag Flag.set
reply_flag_lem flag = refl

module _ {V : Type 0} (env : Env V) (binder_marshal : BinderName → Reply V → Result Bytes) where
  -- `reply` on this message does nothing, whatever the method returns and wherever it runs.
  abbrev pub Unanswered : Message → Type 0
  Unanswered m =
      (pick_stop : Bool) (fresh : Message) (h : Handler V) (id : ℕ) (r : Reply V) (w : Sockets)
      → reply env binder_marshal pick_stop fresh h (record { socket = id; message = m }) r w
        ≡ (w, done (ok tt))

  Unanswered-flag : (m : Message) → wants_reply m.head.flag ≡ false → Unanswered m
  unfolding reply
  Unanswered-flag m off pick_stop fresh h id r w = rw off refl

  -- The path and the body are read, under this head, and the message is not answered.
  abbrev pub LastAnswer : Bytes → Bytes → Head.Head → Message → (Bytes × Bytes) × Bytes → Type 0
  LastAnswer p body head m read = ReadsBack p body head m read × Unanswered m

  path_of-head : (m : Message) → (path_of env m).0.head ≡ m.head
  unfolding path_of code_of path_by
  path_of-head m = ground arith

  path_or_empty-head : (r : Message × Result (Bytes × Bytes)) → (path_or_empty r).0 ≡ r.0
  path_or_empty-head (m, ok (p, q)) = refl
  path_or_empty-head (m, err e) = refl
  path_or_empty-head (m, panic) = refl

  -- `Confirm` leaves the head.
  confirm-head : (m : Message) → (confirm env m).0.head ≡ m.head
  unfolding confirm
  confirm-head m = elim (Bool-cases (is_empty env.options.s2c_confirm)) [
    | inl none_set ↦
        rw none_set (ap Message.head (path_or_empty-head (path_of env m)) ∙ path_of-head m)
    | inr configured ↦ rw configured refl
  ]

  pub reply-eq-send :
      (mc : Magic) (pick_stop : Bool) (fresh : Message) (h : Handler V) (c : Context) (r : Reply V)
      (m : Message) (p body : Bytes) (w : Sockets)
      → wants_reply c.message.head.flag ≡ true
      → confirm env c.message ≡ (m, ok p)
      → Magic.get env.magics c.message.head.magic ≡ some mc
      → reply_bytes env binder_marshal h (record { socket = c.socket; message = m }) r ≡ ok body
      → reply env binder_marshal pick_stop fresh h c r w
        ≡ send_with_magic env true pick_stop mc.key
            (reply_flag c.message.head.flag)
            c.message.head.index
            (path p)
            (raw body)
            fresh
            c.socket
            w
  unfolding reply reply_confirmed send_reply Head.magic_of
  reply-eq-send mc pick_stop fresh h c r m p body w wanted confirmed known serialized =
      let same : m.head ≡ c.message.head =
        sym (ap (λ (x : Message × Result Bytes). x.0.head) confirmed) ∙ confirm-head c.message in
      rw (wanted, confirmed)
        (ap
            (λ x.
              send_reply env binder_marshal pick_stop fresh
                (record { socket = c.socket; message = m }) x p
                (reply_bytes env binder_marshal h (record { socket = c.socket; message = m }) r) w)
            (ap (λ (x : Head.Head). Magic.get env.magics x.magic) same ∙ known)
          ∙ ap
              (λ x.
                send_reply env binder_marshal pick_stop fresh
                  (record { socket = c.socket; message = m }) (some mc) p x w)
              serialized
          ∙ ap
              (λ (x : Head.Head).
                send_with_magic env true pick_stop mc.key (reply_flag x.flag) x.index (path p)
                  (raw body) fresh c.socket w)
              same)

  -- With a capacity of at least four bytes, a message that is neither a confirmation nor one
  -- without reply, whose magic number is registered, of path type and under its own key, whose
  -- `Confirm` gives a path of 1 to 2^31 - 1 bytes, and for which the method's result is serialized
  -- to `body`, is answered on a ready socket with an open channel and room in its queue, where
  -- `Require` gives a message without a cached code: a message is put at the end of the queue, with
  -- no error. Read there, it has that path, split at its first question mark, and `body`, under a
  -- head with the magic number and the index of the message that is answered and the flag of a
  -- confirmation, which is a heartbeat's too exactly if that message is; and a `reply` to it,
  -- whatever is returned for it, does nothing.
  pub reply-Correlates :
      (mc : Magic) (pick_stop : Bool) (fresh : Message) (h : Handler V) (c : Context) (r : Reply V)
      (m : Message) (p body : Bytes) (w : Sockets)
      → 4 ≤ env.options.capacity
      → wants_reply c.message.head.flag ≡ true
      → confirm env c.message ≡ (m, ok p)
      → Magic.get env.magics c.message.head.magic ≡ some mc
      → mc.key ≡ c.message.head.magic
      → mc.type ≡ magic_type_path
      → p ≢ []
      → length p < 2 ^ 31
      → reply_bytes env binder_marshal h (record { socket = c.socket; message = m }) r ≡ ok body
      → fresh.code ≡ pos 0
      → is_ready (w.heap c.socket) ≡ true
      → has_room c.socket w ≡ true
      → Socket.stop (w.heap c.socket) ≡ opened
      → (m' : Message) × (reply env binder_marshal pick_stop fresh h c r w
          ≡ (queue m' c.socket w, done (ok tt)))
        × Returns
            (LastAnswer p body (
              marshalled_head mc c.message.head.magic
                (if Flag.has c.message.head.flag flag_heartbeat then 5 else 1)
                c.message.head.index
                p
                body))
            (read_parts env m')
  unfolding marshal_body
  reply-Correlates mc pick_stop fresh h c r m p body w cap_ok wanted confirmed known keyed typed
        nonempty short serialized clean ready room stop =
      let flag : reply_flag c.message.head.flag
          ≡ (if Flag.has c.message.head.flag flag_heartbeat then 5 else 1) =
        reply_flag_lem c.message.head.flag in
      let (m', sent, read) =
        send_with_magic-ReadsBack env mc true pick_stop c.message.head.magic
          (reply_flag c.message.head.flag) c.message.head.index p (raw body) fresh body c.socket w
          cap_ok known typed refl clean nonempty short ready room stop in
      (
        m',
        reply-eq-send mc pick_stop fresh h c r m p body w wanted confirmed known serialized
            ∙ ap
                (λ k.
                  send_with_magic env true pick_stop k (reply_flag c.message.head.flag)
                    c.message.head.index (path p) (raw body) fresh c.socket w)
                keyed
            ∙ sent,
        Returns-mono
            (ReadsBack p body (
              marshalled_head mc c.message.head.magic (reply_flag c.message.head.flag)
                c.message.head.index p body))
            (LastAnswer p body (
              marshalled_head mc c.message.head.magic
                (if Flag.has c.message.head.flag flag_heartbeat then 5 else 1) c.message.head.index
                p body))
            (read_parts env m') read
            (λ m'' parts (split, head). (
              (
                split,
                head
                    ∙ ap
                        (λ k. marshalled_head mc c.message.head.magic k c.message.head.index p body)
                        flag,
              ),
              Unanswered-flag m''
                  (ap (λ (x : Head.Head). wants_reply x.flag) head ∙ answered c.message.head.flag),
            )),
      )
