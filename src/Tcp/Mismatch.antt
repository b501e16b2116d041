-- ===== src/Tcp/Mismatch.antt =====
-- A compressed message through a TCP stream: the head counts the bytes before compression, and
-- the reader takes that many bytes of the stream for the compressed body.
use cosnet.Prelude.{
  ℕ, ◌-◌, ◌≤◌, ◌<◌, ◌≡◌, refl, ◌∙◌, ap, true, [], ◌++◌, Result, Error, ok, err, panic, read_body,
  short_buffer, arith, length, drop, length-append, append_assoc, drop_beyond,
}
use cosnet.Prelude.Bytes.{Bytes}
use cosnet.Message.Magic.{Magic}
use cosnet.Message.Env.{Env}
use cosnet.Message.Head.{Head}
use cosnet.Message.Head
use cosnet.Message.Object.{Message}
use cosnet.Message.Transfer.{write, body_on_wire}
use cosnet.Message.Transfer.Sendable.{IsSendable, wire_head, bytes-wire_head}
use cosnet.Message.Transfer.Packet.{body-compressed}
use cosnet.Message.Transfer.Reading.{write_lem, write_short}
use cosnet.Tcp.{wrapped, read_message, write_message}
use cosnet.Tcp.Stream.{headed, read_message-wire, read_msg_true-write}

wrapped-state :
    (f : Error → Error) (r : (Message × Bytes) × Result (Unit {0})) → (wrapped f r).0.1 ≡ r.0.1
wrapped-state f (s, ok a) = refl
wrapped-state f (s, err e) = refl
wrapped-state f (s, panic) = refl

module _ {V : Type 0} (env : Env V) (mc : Magic) (m : Message) (s : IsSendable env mc m)
    (on : Head.auto_compress env m.head ≡ true)
    (smaller : length (env.gzip m.bytes.content) < length m.bytes.content) where
  -- The bytes of the next message that the reader takes as well.
  abbrev pub shortfall : ℕ
  shortfall = length m.bytes.content - length (env.gzip m.bytes.content)

  goes_on :
      (m' : Message) (rest : Bytes)
      → read_message env
          (m', (wire_head env mc m s ++ body_on_wire env (Head.auto_compress env m.head) m) ++ rest)
        ≡ wrapped read_body (write env (headed env mc m s m', env.gzip m.bytes.content ++ rest))
  goes_on m' rest =
      rw
        (
          body-compressed env mc m s on,
          append_assoc (wire_head env mc m s) (env.gzip m.bytes.content) rest,
          read_message-wire env mc m s m' (env.gzip m.bytes.content ++ rest),
        )
        (read_msg_true-write env mc m s (headed env mc m s m') _ (omega arith) refl)

  -- A sendable message that is compressed on the way out, and that the compressor makes smaller, is
  -- not framed by its head: where fewer bytes follow it on the stream than were saved,
  -- `ReadMessage` fails with a short buffer and uses the stream up.
  pub read_compressed_short :
      (m' : Message) (rest : Bytes)
      → length rest < shortfall
      → (wire : Bytes) × (write_message env m ≡ ok wire)
        × (after : Message) × (read_message env (m', wire ++ rest)
            ≡ ((after, []), err (read_body short_buffer)))
  unfolding write_message
  read_compressed_short m' rest few =
      let (after, e) =
        write_short env (length m.bytes.content) (headed env mc m s m')
          (env.gzip m.bytes.content ++ rest) s.size_counts
          (omega (arith, length-append (env.gzip m.bytes.content) rest)) in
      (_, bytes-wire_head env mc m s, after, goes_on m' rest ∙ ap (wrapped read_body) e)

  -- A sendable message that is compressed on the way out, and that the compressor makes smaller, is
  -- not framed by its head: where at least as many bytes follow it on the stream as were saved,
  -- `ReadMessage` takes that many of them from what follows.
  pub read_compressed_overrun :
      (m' : Message) (rest : Bytes)
      → shortfall ≤ length rest
      → (wire : Bytes) × (write_message env m ≡ ok wire)
        × ((read_message env (m', wire ++ rest)).0.1 ≡ drop shortfall rest)
  unfolding write_message
  read_compressed_overrun m' rest many =
      let (b, c, e) =
        write_lem env (length m.bytes.content) (headed env mc m s m')
          (env.gzip m.bytes.content ++ rest) s.size_counts (omega arith)
          (omega (arith, length-append (env.gzip m.bytes.content) rest)) in
      (
        _,
        bytes-wire_head env mc m s,
        ap (λ (r : (Message × Bytes) × Result (Unit {0})). r.0.1) (goes_on m' rest)
            ∙ wrapped-state read_body
                (write env (headed env mc m s m', env.gzip m.bytes.content ++ rest))
            ∙ ap (λ (r : (Message × Bytes) × Result (Unit {0})). r.0.1) e
            ∙ drop_beyond (length m.bytes.content) (env.gzip m.bytes.content) rest (omega arith),
      )
