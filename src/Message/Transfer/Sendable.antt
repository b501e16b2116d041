-- ===== src/Message/Transfer/Sendable.antt =====
-- What holds of a message that may be sent, and what `Bytes` writes for it.
use cosnet.Prelude.{◌^◌, ◌<◌, ◌≡◌, true, false, some, ◌++◌, ok, arith, length}
use cosnet.Prelude.Int.{pos, IsInt32, ltb_ℤ}
use cosnet.Prelude.Bytes.{Bytes}
use cosnet.Message.Flag
use cosnet.Message.Flag.{flag_compressed}
use cosnet.Message.Magic.{Magic}
use cosnet.Message.Magic
use cosnet.Message.Env.{Env}
use cosnet.Message.Head.{Head}
use cosnet.Message.Head
use cosnet.Message.Head.Wire.{
  head_bytes, wire_flag, bytes-head_bytes, length-head_bytes, parse-head_bytes,
}
use cosnet.Message.Object.{Message}
use cosnet.Message.Transfer.{bytes, body_on_wire}

-- A registered magic number, a flag byte without the compressed bit, an index of int32, and the
-- number of bytes as the size in the head, within int32 and the receiver's limit.
pub record IsSendable {V : Type 0} (env : Env V) (mc : Magic) (m : Message) : Type 0 where
  pub known : Magic.get env.magics m.head.magic ≡ some mc
  pub flag_byte : m.head.flag < 256
  pub plain : Flag.has m.head.flag flag_compressed ≡ false
  pub index_fits : IsInt32 m.head.index
  pub size_counts : m.head.size ≡ pos (length m.bytes.content)
  pub size_fits : length m.bytes.content < 2 ^ 31
  pub within_limit : ltb_ℤ env.options.max_data_size m.head.size ≡ false

module _ {V : Type 0} (env : Env V) (mc : Magic) (m : Message) (s : IsSendable env mc m) where
  size_IsInt32 : IsInt32 m.head.size
  size_IsInt32 = rw s.size_counts s.size_fits

  -- The head on the wire.
  pub wire_head : Bytes
  wire_head = head_bytes mc m.head (wire_flag env m.head)

  pub length-wire_head : length wire_head ≡ 10
  unfolding wire_head
  length-wire_head =
      length-head_bytes env mc m.head m.head (wire_flag env m.head) s.known size_IsInt32
        s.index_fits

  pub parse-wire_head :
      (h : Head)
      → Head.parse env wire_head h ≡ (record (m.head) { flag = wire_flag env m.head }, ok tt)
  unfolding wire_head
  parse-wire_head h = ground (
    arith,
    s.within_limit,
    parse-head_bytes env mc m.head h (wire_flag env m.head) s.known size_IsInt32 s.index_fits,
  )

  pub bytes-wire_head :
      bytes env true m ≡ ok (wire_head ++ body_on_wire env (Head.auto_compress env m.head) m)
  unfolding bytes wire_head
  bytes-wire_head = ground (arith, bytes-head_bytes env mc m.head s.known)
