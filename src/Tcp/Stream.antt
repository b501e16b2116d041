-- ===== src/Tcp/Stream.antt =====
-- A message that is not compressed, through a TCP stream.
use cosnet.Prelude.{
  ◌<◌, ◌≡◌, refl, ◌∙◌, false, [], ◌∷◌, ◌++◌, ok, Returns, read_body, arith, length, length-append,
  append_assoc, take-append_eq, drop-append_eq,
}
use cosnet.Prelude.Bytes.{Bytes}
use cosnet.Message.Magic.{Magic}
use cosnet.Message.Env.{Env}
use cosnet.Message.Head.{Head}
use cosnet.Message.Head
use cosnet.Message.Head.Wire.{wire_flag}
use cosnet.Message.Object.{Message}
use cosnet.Message.Transfer.{write}
use cosnet.Message.Transfer.Sendable.{
  IsSendable, wire_head, length-wire_head, parse-wire_head, bytes-wire_head,
}
use cosnet.Message.Transfer.Packet.{Arrived, body-plain, decompress-plain}
use cosnet.Message.Transfer.Reading.{write_lem}
use cosnet.Tcp.{wrapped, read_head_bytes, read_msg_true, read_message, write_message}

pub read_head_bytes_lem : (w rest : Bytes) → length w ≡ 10 → read_head_bytes (w ++ rest) ≡ ok w
unfolding read_head_bytes
read_head_bytes_lem [] rest h = absurd (omega arith)
read_head_bytes_lem (c ∷ w) rest h =
    ground (arith, length-append (c ∷ w) rest, take-append_eq 10 (c ∷ w) rest h)

module _ {V : Type 0} (env : Env V) (mc : Magic) (m : Message) (s : IsSendable env mc m) where
  -- After the head the reader goes on with the head's fields and what follows it.
  pub read_message-wire :
      (m' : Message) (rest : Bytes)
      → read_message env (m', wire_head env mc m s ++ rest)
        ≡ read_msg_true env
            (record m' { head = record (m.head) { flag = wire_flag env m.head } }, rest)
  unfolding read_message
  read_message-wire m' rest =
      let w = wire_head env mc m s in
      ground (
        arith,
        read_head_bytes_lem w rest (length-wire_head env mc m s),
        drop-append_eq 10 w rest (length-wire_head env mc m s),
        parse-wire_head env mc m s m'.head,
      )

  -- A positive size means that the body is read.
  pub read_msg_true-write :
      (m' : Message) (rest : Bytes)
      → 0 < length m.bytes.content
      → m'.head.size ≡ m.head.size
      → read_msg_true env (m', rest) ≡ wrapped read_body (write env (m', rest))
  unfolding read_msg_true
  read_msg_true-write m' rest positive size = ground (arith, size, s.size_counts)

  -- The reader's message once the head is parsed.
  abbrev pub headed : Message → Message
  headed m' = record m' { head = record (m.head) { flag = wire_flag env m.head } }

  received :
      (m' : Message) (rest : Bytes)
      → Head.auto_compress env m.head ≡ false
      → 0 < length m.bytes.content
      → Returns
          (λ after _. Arrived m m'.code after.0 tt × (after.1 ≡ rest))
          (read_msg_true env (headed m', m.bytes.content ++ rest))
  received m' rest off positive =
      let body = m.bytes.content in
      let same : (headed m').head ≡ m.head = rw off in
      let (b, c, e) =
        write_lem env (length body) (headed m') (body ++ rest) s.size_counts positive
          (omega (arith, length-append body rest)) in
      rw
        (
          read_msg_true-write (headed m') (body ++ rest) positive refl,
          e,
          decompress-plain env mc m s (record (headed m') { bytes = b }) same,
        )
        ((same, c ∙ take-append_eq _ body rest refl, refl), drop-append_eq _ body rest refl)

  -- For a sendable message with a body that is not compressed on the way out, what `WriteMessage`
  -- hands to the connection is read back by `ReadMessage` from the front of a stream into any
  -- message: head and bytes are the sender's, the cached code stays, and the stream goes on with
  -- what came behind.
  pub read_message-write_message :
      (m' : Message) (rest : Bytes)
      → Head.auto_compress env m.head ≡ false
      → 0 < length m.bytes.content
      → (wire : Bytes) × (write_message env m ≡ ok wire)
        × Returns
            (λ after _. Arrived m m'.code after.0 tt × (after.1 ≡ rest))
            (read_message env (m', wire ++ rest))
  unfolding write_message
  read_message-write_message m' rest off positive = (
    _,
    bytes-wire_head env mc m s,
    rw
        (
          body-plain env mc m s off,
          append_assoc (wire_head env mc m s) m.bytes.content rest,
          read_message-wire m' (m.bytes.content ++ rest),
        )
        (received m' rest off positive),
  )
