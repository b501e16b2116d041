-- ===== src/Calls/Pipelined.antt =====
-- Calls one behind the other on a connection: the goroutine that reads queues their answers in order.
use cosnet.Prelude.{
  ℕ, zero, suc, ◌+◌, ◌≤◌, ◌≡◌, refl, sym, ap, ◌∙◌, Bool, Option, List, [], ◌∷◌, ◌++◌, append_assoc,
  append-nil, ok, Result, arith, length, if◌then◌else◌, ◌==◌, false, some,
}
use cosnet.Prelude.Int.{pos}
use cosnet.Prelude.Bytes.{Bytes}
use cosnet.Message.Flag.{flag_heartbeat}
use cosnet.Message.Flag
use cosnet.Message.Magic.{Magic, BinderName, magic_type_path}
use cosnet.Message.Magic
use cosnet.Message.Env.{Env}
use cosnet.Message.Head.{Head}
use cosnet.Message.Object.{Message, new_message, path, raw}
use cosnet.Message.Marshal.{marshal}
use cosnet.Message.RoundTrip.{read_parts-path}
use cosnet.Tcp.{read_message, write_message}
use cosnet.Sockets.State.{Socket, Sockets}
use cosnet.Sockets.Lifecycle.{keep_alive}
use cosnet.Handler.{Reply, Node}
use cosnet.Handler.Incoming.{Registered, read_msg_true}
use cosnet.Goroutines.{after_read, after_message, read_msg}
use cosnet.Calls.{Call, IsServed, answer_path}
use cosnet.Calls.Carried.{marshals, sends, delivers}
use cosnet.Calls.Answered.{keep_alive-IsOpen, handled}
use cosnet.Calls.Queued.{
  HasRoomFor, Served, Sent, Answers, IsOpen-HasRoomFor, after_answer, after_answer-HasRoomFor, loop,
  Answered,
}

module _ {V : Type 0} (env : Env V) (binder_marshal : BinderName → Reply V → Result Bytes)
    (search : Bytes → Option (Node V × Registered V)) (pick_stop : Bool) (fresh : Message)
    (require : ℕ → Message) (id : ℕ) (mc : Magic) (known : Magic.get env.magics mc.key ≡ some mc)
    (typed : mc.type ≡ magic_type_path) (keyed : (mc.key == 0) ≡ false)
    (cap_ok : 4 ≤ env.options.capacity) (fresh_clean : fresh.code ≡ pos 0)
    (clean : (i : ℕ) → Message.code (require i) ≡ pos 0) where
  -- One call.
  loop_step :
      (k n : ℕ) (c : Call V) (s : Message) (rest wire : Bytes) (w : Sockets)
      → IsServed env mc search c
      → HasRoomFor (suc k) id w
      → marshal env mc.key c.flag c.index (path c.path) (raw c.body) new_message ≡ (s, ok tt)
      → write_message env s ≡ ok wire
      → (m a : Message) × (loop env binder_marshal search pick_stop fresh require id
            (suc n)
            (wire ++ rest)
            w
          ≡ loop env binder_marshal search pick_stop fresh require id n rest
              (after_answer m a id w))
        × Answers env mc (c ∷ []) (a ∷ [])
  unfolding read_msg after_read after_message
  loop_step k n c s rest wire w is room filled written =
      let (s', same, headed, content, code) =
        marshals env mc mc.key c.flag c.index c.path c.body known typed cap_ok is.request
          new_message in
      let is_s : s' ≡ s = cc in
      let (wire', written', m, read, received) =
        delivers env mc mc.key c.flag c.index c.path c.body known typed cap_ok is.request s
          (require n) rest (ap Message.head (sym is_s) ∙ headed)
          (ap (λ (x : Message). x.bytes.content) (sym is_s) ∙ content) (clean n) in
      let is_wire : wire ≡ wire' = cc in
      let flag' : ℕ = if Flag.has c.flag flag_heartbeat then 5 else 1 in
      let (a, queued, headed', content', code') =
        sends env mc mc.key flag' c.index (answer_path env c.path) (c.method c.body) known typed
          cap_ok is.answer pick_stop fresh id (keep_alive id w)
          (keep_alive-IsOpen id w (IsOpen-HasRoomFor k id w room)) in
      let handle = read_msg_true env binder_marshal search pick_stop fresh id in
      (
        m,
        a,
        ap
              (λ x.
                after_read id handle (loop env binder_marshal search pick_stop fresh require id n)
                  (read_message env (require n, x ++ rest)) w)
              is_wire
            ∙ ap
                (λ x.
                  after_read id handle (loop env binder_marshal search pick_stop fresh require id n)
                    x w)
                read
            ∙ ap
                (λ x.
                  after_message id m
                    (loop env binder_marshal search pick_stop fresh require id n rest) x)
                (handled env binder_marshal search pick_stop mc known typed keyed cap_ok c is m
                  received fresh id w a queued),
        (
          (
            (headed', content', code' ∙ fresh_clean),
            rw
                (read_parts-path env mc (answer_path env c.path) (c.method c.body) a
                  (ap (λ (x : Head). Magic.get env.magics x.magic) headed' ∙ known) typed
                  is.answer.named is.answer.short content' (code' ∙ fresh_clean))
                (refl, headed'),
          ),
          tt,
        ),
      )

  calls-Answered :
      (n k : ℕ) (cs : List (Call V)) (stream rest : Bytes) (w : Sockets)
      → k ≡ length cs + n
      → Served env mc search cs
      → Sent env mc cs stream
      → HasRoomFor (length cs) id w
      → Answered env binder_marshal search pick_stop fresh require id mc n cs rest w
          (loop env binder_marshal search pick_stop fresh require id k (stream ++ rest) w)
  calls-Answered n k [] stream rest w rounds served empty room = (
    w,
    [],
    (let same : k ≡ n = omega (arith, rounds) in
        ap (λ x. loop env binder_marshal search pick_stop fresh require id x (stream ++ rest) w)
          same
        ∙ ap (λ x. loop env binder_marshal search pick_stop fresh require id n (x ++ rest) w)
            empty),
    sym (append-nil (Socket.cwrite (w.heap id))),
    tt,
    refl,
    room.1,
  )
  calls-Answered n zero (c ∷ cs) stream rest w rounds served sent room =
      absurd (omega (arith, rounds))
  calls-Answered n (suc k) (c ∷ cs) stream rest w rounds (is, served)
        (s, wire, rest', filled, written, sent, whole) room =
      let (m, a, step, (answer, u)) =
        loop_step (length cs) k c s (rest' ++ rest) wire w is room filled written in
      let w1 = after_answer m a id w in
      let (room', queued, quiet) = after_answer-HasRoomFor m a (length cs) id w room in
      let (w', answers, runs, queue', all, quiet', live) =
        calls-Answered n k cs rest' rest w1 (omega (arith, rounds)) served sent room' in
      (
        w',
        a ∷ answers,
        ap (λ x. loop env binder_marshal search pick_stop fresh require id (suc k) x w)
              (ap (λ x. x ++ rest) whole ∙ append_assoc wire rest' rest)
            ∙ step
            ∙ runs,
        queue'
            ∙ ap (λ q. q ++ answers) queued
            ∙ append_assoc (Socket.cwrite (w.heap id)) (a ∷ []) answers,
        (answer, all),
        quiet' ∙ quiet,
        live,
      )

  -- Every request can be written.
  requests-Sent :
      (cs : List (Call V)) → Served env mc search cs → (stream : Bytes) × Sent env mc cs stream
  requests-Sent [] served = ([], refl)
  requests-Sent (c ∷ cs) (is, served) =
      let (s, filled, headed, content, code) =
        marshals env mc mc.key c.flag c.index c.path c.body known typed cap_ok is.request
          new_message in
      let (wire, written, m, read, received) =
        delivers env mc mc.key c.flag c.index c.path c.body known typed cap_ok is.request s
          (require 0) [] headed content (clean 0) in
      let (rest, sent) = requests-Sent cs served in
      (wire ++ rest, (s, wire, rest, filled, written, sent, refl))

  -- With a capacity of at least four bytes, a magic number that is registered under its own key,
  -- which is not 0, with path type, and messages without a cached code from `Require`: calls that
  -- are served (see `IsServed`) are written one behind the other into a stream. On a ready socket
  -- with an open channel, whose queue has room for as many messages, the goroutine that reads takes
  -- the requests off the front of the stream, and goes on with what comes behind them, for as many
  -- rounds as are left, on a manager where the answers stand at the end of the queue in the order of
  -- the calls: each reads as the answer's path (the configured one, or the request's without its
  -- query), split at its first question mark, and what the method makes of the body, under a head
  -- with the magic number, the index of its request and the flag of a confirmation, which is a
  -- heartbeat's too exactly if the request is. No event is emitted, and the channel is open.
  pub requests-Answered :
      (n : ℕ) (cs : List (Call V)) (rest : Bytes) (w : Sockets)
      → Served env mc search cs
      → HasRoomFor (length cs) id w
      → (stream : Bytes) × Sent env mc cs stream
        × Answered env binder_marshal search pick_stop fresh require id mc n cs rest w (
            read_msg env binder_marshal search pick_stop fresh
              (read_message env)
              require
              id
              (length cs + n)
              (stream ++ rest)
              w)
  requests-Answered n cs rest w served room =
      let (stream, sent) = requests-Sent cs served in
      (stream, sent, calls-Answered n (length cs + n) cs stream rest w refl served sent room)
