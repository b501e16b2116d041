-- ===== src/Message/Transfer/Packet.antt =====
-- A message as one packet: what `Bytes` writes, `Reset` reads. This is the path over UDP and
-- WebSocket.
use cosnet.Prelude.{
  ◌≡◌, refl, ◌∙◌, ap, true, false, ◌++◌, ok, arith, length, length_zero, length-append,
  take-append_eq, drop-append_eq, Bool-cases, inl, inr, Returns,
}
use cosnet.Prelude.Int.{ℤ}
use cosnet.Prelude.Bytes.{Bytes}
use cosnet.Message.Flag
use cosnet.Message.Flag.{flag_compressed}
use cosnet.Message.Flag.Bits.{delete-set_compressed}
use cosnet.Message.Magic.{Magic}
use cosnet.Message.Env.{Env, IsLossless}
use cosnet.Message.Head.{Head, message_head_size}
use cosnet.Message.Head
use cosnet.Message.Head.Wire.{wire_flag}
use cosnet.Message.Object.{Message}
use cosnet.Message.Read.{is_zero}
use cosnet.Message.Transfer.{bytes, body_on_wire, reset, decompress}
use cosnet.Message.Transfer.Sendable.{
  IsSendable, wire_head, length-wire_head, parse-wire_head, bytes-wire_head,
}

-- The receiver's message is the sender's: head, body, and a code that is not yet read.
abbrev pub Arrived : Message → ℤ → Message → Unit {0} → Type 0
Arrived m c m' _ = (m'.head ≡ m.head) × (m'.bytes.content ≡ m.bytes.content) × (m'.code ≡ c)

module _ {V : Type 0} (env : Env V) (mc : Magic) (m : Message) (s : IsSendable env mc m) where
  -- A body that is not to be compressed goes out as it is.
  pub body-plain :
      Head.auto_compress env m.head ≡ false
      → body_on_wire env (Head.auto_compress env m.head) m ≡ m.bytes.content
  unfolding body_on_wire
  body-plain off = ground (arith, off, s.size_counts, length_zero m.bytes.content)

  auto_compress-nonzero : Head.auto_compress env m.head ≡ true → is_zero m.head.size ≡ false
  unfolding Head.auto_compress
  auto_compress-nonzero on = ground (arith, s.size_counts)

  pub body-compressed :
      Head.auto_compress env m.head ≡ true
      → body_on_wire env (Head.auto_compress env m.head) m ≡ env.gzip m.bytes.content
  unfolding body_on_wire
  body-compressed on = ground (arith, on, auto_compress-nonzero on)

  pub decompress-plain : (m' : Message) → m'.head ≡ m.head → decompress env m' ≡ (m', ok tt)
  unfolding decompress
  decompress-plain m' same =
      rw (ap (λ (h : Head). Flag.has h.flag flag_compressed) same ∙ s.plain) refl

  -- With the compressed flag of the wire and a gzipped body the receiver has the sender's message.
  pub decompress-gzip :
      (m' : Message)
      → IsLossless env
      → m'.head ≡ record (m.head) { flag = Flag.set m.head.flag flag_compressed }
      → m'.bytes.content ≡ env.gzip m.bytes.content
      → Returns (Arrived m m'.code) (decompress env m')
  unfolding decompress
  decompress-gzip m' lossless head content =
      let (marked, restored) = delete-set_compressed m.head.flag s.flag_byte s.plain in
      let unpacked : env.gunzip m'.bytes.content ≡ ok m.bytes.content =
        ap env.gunzip content ∙ lossless m.bytes.content in
      rw (ap (λ (h : Head). Flag.has h.flag flag_compressed) head ∙ marked, unpacked)
        (ground (arith, head, restored, s.size_counts, s.size_fits), refl, refl)

  -- Both cases: the body as it came off the wire becomes the sender's.
  pub decompress-wire :
      (m' : Message)
      → IsLossless env
      → m'.head ≡ record (m.head) { flag = wire_flag env m.head }
      → m'.bytes.content ≡ body_on_wire env (Head.auto_compress env m.head) m
      → Returns (Arrived m m'.code) (decompress env m')
  decompress-wire m' lossless head content = elim (Bool-cases (Head.auto_compress env m.head)) [
    | inl on ↦ decompress-gzip m' lossless (head ∙ rw on) (content ∙ body-compressed on)
    | inr off ↦
        let same : m'.head ≡ m.head = head ∙ rw off in
        rw (decompress-plain m' same) (same, content ∙ body-plain off, refl)
  ]

  reset-eq-decompress :
      (m' : Message) (body spare : Bytes)
      → reset env (record { content = wire_head env mc m s ++ body; spare = spare }) m'
        ≡ decompress env (record {
          head = record (m.head) { flag = wire_flag env m.head };
          code = m'.code;
          bytes = record { content = body; spare = spare };
        })
  unfolding reset
  reset-eq-decompress m' body spare =
      let w = wire_head env mc m s in
      let ten : length w ≡ 10 = length-wire_head env mc m s in
      ground (
        arith,
        length-append w body,
        ten,
        take-append_eq 10 w body ten,
        drop-append_eq 10 w body ten,
        parse-wire_head env mc m s m'.head,
      )

  -- With a lossless compressor, a sendable message (see `IsSendable`) is written by `Bytes` with
  -- its head, and `Reset` of what it wrote returns with the head and the bytes of the sender,
  -- compressed on the way or not, whatever the receiver's message was; the cached code of the
  -- receiver stays.
  pub reset-bytes :
      (m' : Message) (spare : Bytes)
      → IsLossless env
      → (wire : Bytes) × (bytes env true m ≡ ok wire)
        × Returns (Arrived m m'.code) (reset env (record { content = wire; spare = spare }) m')
  reset-bytes m' spare lossless = (
    _,
    bytes-wire_head env mc m s,
    rw (reset-eq-decompress m' _ spare) (decompress-wire _ lossless refl refl),
  )
