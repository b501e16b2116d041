-- ===== src/Message/Transfer.antt =====
-- message/message.go: `Bytes`, `Write`, `Reset` and `Release`, which move a message to and from the wire.
pub mod Sendable
pub mod Packet
pub mod Reading
use cosnet.Prelude.{
  ℕ, zero, suc, ◌+◌, ◌%◌, ◌^◌, ◌≡◌, Bool, true, false, ◌&&◌, ◌||◌, not, Option, none, some, List,
  [], ◌∷◌, ◌++◌, Result, ok, err, panic, Error, Method, ◌>>=◌, ◌>>◌, pure, lift, throw, continue,
  length, take, drop, leb, ltb, ◌==◌, if◌then◌else◌, msg_head_illegal, short_buffer, unexpected_eof,
  no_binder, unsupported_path_type,
}
use cosnet.Prelude.Int.{ℤ, pos, negsuc, ltb_ℤ, leb_ℤ, int32, to_int32, to_uint32}
use cosnet.Prelude.Bytes.{Bytes, index_byte, put_uint32, uint32}
use cosnet.Message.Flag.{flag_compressed}
use cosnet.Message.Flag
use cosnet.Message.Magic.{Magic, MagicType, magic_type_path, magic_type_code, BinderName}
use cosnet.Message.Slice.{Slice, nil, reslice, make, overwrite, append, cap, len}
use cosnet.Message.Env.{Env}
use cosnet.Message.Head.{Head, zero_head, message_head_size}
use cosnet.Message.Head
use cosnet.Message.Read
use cosnet.Message.Object.{
  Message, PathOrCode, path, code, unsupported, Payload, raw, value, on_head,
}

module _ {V : Type 0} (env : Env V) where
  open env use {options}

  -- `decompress()`
  unfoldable pub decompress : Method Message (Unit {0})
  decompress m =
      if Flag.has m.head.flag flag_compressed
      then elim (env.gunzip m.bytes.content) [
        | ok b ↦ (
          record m {
            head = record (m.head) {
              size = to_int32 (length b % 2 ^ 32);
              flag = Flag.delete m.head.flag flag_compressed;
            };
            bytes = record { content = b; spare = env.grown b };
          },
          ok tt,
        )
        | err e ↦ (m, err e)
        | panic ↦ (m, panic)
      ]
      else (m, ok tt)

  -- The body as `Bytes` writes it: gzipped if the message is to be compressed.
  unfoldable pub body_on_wire : Bool → Message → Bytes
  body_on_wire compressed m =
      if Read.is_zero m.head.size
      then []
      else if compressed
      then env.gzip m.bytes.content
      else m.bytes.content

  -- `Bytes(w, includeHeader)` into a buffer, which takes all that is written: the bytes written.
  unfoldable pub bytes : Bool → Message → Result Bytes
  bytes true m = elim (Head.bytes env m.head) [
    | ok (head, compressed) ↦ ok (head ++ body_on_wire compressed m)
    | err e ↦ err e
    | panic ↦ panic
  ]
  bytes false m = ok (body_on_wire (Head.auto_compress env m.head) m)

  -- The slice that `Write` reads into: `m.bytes[0:size]`, or a new one.
  unfoldable pub room : ℕ → Slice → Slice
  room size s =
      if leb size (cap s)
      then reslice s size
      else if ltb options.capacity size
      then make size size
      else make size options.capacity

  -- `io.ReadFull` into a slice of `size` bytes, over what the connection delivers until its end.
  unfoldable pub read_full : ℕ → Method (Message × Bytes) (Unit {0})
  read_full size (m, stream) =
      let read = take size stream in
      (
        (record m { bytes = overwrite (room size m.bytes) read }, drop size stream),
        if ltb (length stream) size then err short_buffer else ok tt,
      )

  abbrev pub decompress_at : Method (Message × Bytes) (Unit {0})
  decompress_at (m, stream) = let (m', r) = decompress m in ((m', stream), r)

  -- `Write(r)`. A negative size passes the first test of the capacity, and the slice panics.
  unfoldable pub write_size : ℤ → Method (Message × Bytes) (Unit {0})
  write_size (negsuc n) s = (s, panic)
  write_size (pos zero) s = (s, ok tt)
  write_size (pos (suc n)) s = (do read_full (suc n); decompress_at) s

  unfoldable pub write : Method (Message × Bytes) (Unit {0})
  write (m, stream) = write_size m.head.size (m, stream)

  -- `Reset(b)`: the body shares the array of the packet.
  unfoldable pub reset : Slice → Method Message (Unit {0})
  reset b m =
      if ltb (len b) message_head_size
      then (m, err unexpected_eof)
      else (do
        on_head (Head.parse env (take message_head_size b.content))
        λ m. decompress (record m {
          bytes = record { content = drop message_head_size b.content; spare = b.spare };
        }))
          m

  unfoldable pub release : Message → Message
  release m = record {
    head = Head.release m.head;
    code = pos 0;
    bytes =
        if ltb options.capacity (cap m.bytes) then make 0 options.capacity else reslice m.bytes 0;
  }
