-- ===== src/Calls/Exchanged.antt =====
-- Calls and their answers through the goroutines of both ends.
use cosnet.Prelude.{
  ℕ, ◌+◌, ◌≤◌, ◌<◌, ◌≡◌, refl, ap, ◌∙◌, Bool, false, Option, none, List, [], ◌∷◌, ◌++◌, Result,
  arith, length, ◌==◌, some, if◌then◌else◌,
}
use cosnet.Prelude.Int.{pos}
use cosnet.Prelude.Bytes.{Bytes}
use cosnet.Message.Flag.{flag_heartbeat}
use cosnet.Message.Flag
use cosnet.Message.Magic.{Magic, BinderName, magic_type_path}
use cosnet.Message.Magic
use cosnet.Message.Env.{Env}
use cosnet.Message.Head
use cosnet.Message.Object.{Message}
use cosnet.Tcp.{read_message, write_message}
use cosnet.Tcp.Delivery.{marshalled_IsSendable, nonempty_prefix}
use cosnet.Sockets.State.{Socket, Sockets}
use cosnet.Handler.{Reply, Node}
use cosnet.Handler.Incoming.{Registered}
use cosnet.Goroutines.{waiting, read_msg, write_msg}
use cosnet.Goroutines.Reading.{IsRequest, Requests, Delivers}
use cosnet.Goroutines.Writing.{Drained, queue_delivered}
use cosnet.Calls.{Call, answer_path}
use cosnet.Calls.Queued.{HasRoomFor, Served, Sent, Answers, loop}
use cosnet.Calls.Pipelined.{requests-Answered}

module _ {V : Type 0} (env : Env V) (mc : Magic) (known : Magic.get env.magics mc.key ≡ some mc)
    (typed : mc.type ≡ magic_type_path) (keyed : (mc.key == 0) ≡ false)
    (search : Bytes → Option (Node V × Registered V)) where
  -- The answers can be written and read like requests.
  Answers-Requests :
      (cs : List (Call V)) (answers : List Message)
      → Served env mc search cs
      → Answers env mc cs answers
      → (length answers ≡ length cs) × Requests env answers
  Answers-Requests [] [] served all = (refl, tt)
  Answers-Requests [] (a ∷ answers) served all = absurd all
  Answers-Requests (c ∷ cs) [] served all = absurd all
  Answers-Requests (c ∷ cs) (a ∷ answers) (is, served) (((headed, content, code), read), all) =
      let (same, qs) = Answers-Requests cs answers served all in
      let flag : ℕ = if Flag.has c.flag flag_heartbeat then 5 else 1 in
      let q = answer_path env c.path in
      let b = c.method c.body in
      let fits = is.answer in
      let sendable =
        marshalled_IsSendable env mc mc.key flag c.index q b known fits.flag_byte fits.plain
          fits.index_fits fits.size_fits fits.within_limit a headed content in
      let filled =
        nonempty_prefix env mc mc.key flag c.index q b known fits.flag_byte fits.plain
          fits.index_fits fits.size_fits fits.within_limit in
      let request : IsRequest env a = record {
        magic = mc;
        path = q;
        body = b;
        sendable = sendable;
        plain = ap (Head.auto_compress env) headed ∙ fits.uncompressed;
        typed = typed;
        keyed = keyed;
        named = fits.named;
        short = fits.short;
        filled = content;
        not_empty = rw content filled;
      } in
      (omega (arith, same), (request, qs))

-- With a capacity of at least four bytes, a magic number that is registered under its own key,
-- which is not 0, with path type, and messages without a cached code from `Require`: calls that are
-- served (see `IsServed`) are written one behind the other into a stream. On a ready socket of the
-- server with an open channel, an empty queue and room for as many messages, the goroutine that
-- reads takes them off the front of the stream, and goes on with what comes behind them on a
-- manager with as many answers (see `Answers`) in the queue. There the goroutine that writes, with
-- more rounds than there are calls, empties the queue, releases every message, reports no error and
-- waits for more. At the client, with no method registered and more rounds than calls, the
-- goroutine that reads emits one event for each call, in the order of the calls, with the head and
-- the bytes of the answer, and nothing else, and disconnects at the end of what was written.
pub calls-Delivers :
    {V : Type 0} (env : Env V) (binder_marshal : BinderName → Reply V → Result Bytes)
    (search : Bytes → Option (Node V × Registered V)) (pick_stop : Bool) (fresh : Message)
    (require : ℕ → Message) (server client : ℕ) (mc : Magic) (n k j : ℕ) (cs : List (Call V))
    (rest : Bytes) (w v : Sockets)
    → Magic.get env.magics mc.key ≡ some mc
    → mc.type ≡ magic_type_path
    → (mc.key == 0) ≡ false
    → 4 ≤ env.options.capacity
    → fresh.code ≡ pos 0
    → ((i : ℕ) → Message.code (require i) ≡ pos 0)
    → Served env mc search cs
    → HasRoomFor (length cs) server w
    → Socket.cwrite (w.heap server) ≡ []
    → length cs < k
    → length cs < j
    → (stream : Bytes) × Sent env mc cs stream
      × (w' : Sockets) × (answers : List Message) × (read_msg env binder_marshal search pick_stop
            fresh
            (read_message env)
            require
            server
            (length cs + n)
            (stream ++ rest)
            w
          ≡ loop env binder_marshal search pick_stop fresh require server n rest w')
      × Answers env mc cs answers
      × (back : Bytes) × (w'' : Sockets) × (write_msg server (write_message env) k (w', [])
          ≡ ((w'', back), waiting))
      × Drained answers server w' w''
      × Delivers env binder_marshal pick_stop fresh require client answers v (
          read_msg env binder_marshal
            (λ _. none)
            pick_stop
            fresh
            (read_message env)
            require
            client
            j
            back
            v)
calls-Delivers env binder_marshal search pick_stop fresh require server client mc n k j cs rest w v
      known typed keyed cap_ok fresh_clean clean served room empty enough enough' =
    let (stream, sent, (w', answers, runs, queue, all, quiet, live)) =
      requests-Answered env binder_marshal search pick_stop fresh require server mc known typed
        keyed cap_ok fresh_clean clean n cs rest w served room in
    let (same, qs) = Answers-Requests env mc known typed keyed search cs answers served all in
    let (back, w'', writes, drained, delivers) =
      queue_delivered env binder_marshal pick_stop fresh require k j server client answers w' v
        (omega (arith, same)) (omega (arith, same)) clean qs (queue ∙ ap (λ q. q ++ answers) empty)
        live in
    (stream, sent, w', answers, runs, all, back, w'', writes, drained, delivers)
