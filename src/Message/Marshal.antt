-- ===== src/Message/Marshal.antt =====
-- message/message.go: `Marshal`, which fills a message from a path or a code and a body.
pub mod Layout
use cosnet.Prelude.{
  ℕ, zero, suc, ◌+◌, ◌%◌, ◌^◌, ◌≡◌, Bool, true, false, ◌&&◌, ◌||◌, not, Option, none, some, List,
  [], ◌∷◌, ◌++◌, Result, ok, err, panic, Error, Method, ◌>>=◌, ◌>>◌, pure, lift, throw, continue,
  length, take, drop, leb, ltb, ◌==◌, if◌then◌else◌, msg_head_illegal, short_buffer, unexpected_eof,
  no_binder, unsupported_path_type,
}
use cosnet.Prelude.Int.{ℤ, pos, negsuc, ltb_ℤ, leb_ℤ, int32, to_int32, to_uint32}
use cosnet.Prelude.Bytes.{Bytes, index_byte, put_uint32, uint32}
use cosnet.Message.Flag.{flag_compressed}
use cosnet.Message.Flag
use cosnet.Message.Magic.{Magic, MagicType, magic_type_path, magic_type_code, BinderName}
use cosnet.Message.Slice.{Slice, nil, reslice, make, overwrite, append, cap, len}
use cosnet.Message.Env.{Env}
use cosnet.Message.Head.{Head, zero_head, message_head_size}
use cosnet.Message.Head
use cosnet.Message.Object.{
  Message, PathOrCode, path, code, unsupported, Payload, raw, value, on_head,
}

module _ {V : Type 0} (env : Env V) where
  open env use {options, transform}

  -- `PutUint32(m.bytes[0:4], u)` and `bytes.NewBuffer(m.bytes[0:4])`: the buffer shares the array.
  unfoldable pub put_prefix : Magic → ℕ → Method Message Slice
  put_prefix magic u m =
      if leb 4 (cap m.bytes)
      then (let written = overwrite m.bytes (put_uint32 magic.binary u) in
          (record m { bytes = written }, ok (reslice written 4)))
      else (m, panic)

  -- `buffer.WriteString(s)`: the message sees the bytes as long as the buffer keeps its array.
  unfoldable pub write_string : Slice → Bytes → Method Message Slice
  write_string buffer s m =
      if leb (length s) (length buffer.spare)
      then (
        record m { bytes = overwrite m.bytes (buffer.content ++ s) },
        ok (append env.grown buffer s),
      )
      else (m, ok (append env.grown buffer s))

  abbrev pub put_path : Magic → Bytes → Method Message Slice
  put_path magic p = do buffer ← put_prefix magic (length p % 2 ^ 32); write_string buffer p

  -- `MarshalPath`
  unfoldable pub marshal_path : MagicType → Magic → Bytes → Method Message Slice
  unfolding put_prefix write_string
  marshal_path magic_type_path magic p = put_path magic p
  marshal_path magic_type_code magic p = do
    c ← lift (transform.code p)
    put_prefix magic (to_uint32 c)

  -- `MarshalCode`
  unfoldable pub marshal_code : MagicType → Magic → ℤ → Method Message Slice
  unfolding put_prefix write_string
  marshal_code magic_type_path magic c = do p ← lift (transform.path c); put_path magic p
  marshal_code magic_type_code magic c = put_prefix magic (to_uint32 c)

  -- The first `switch` of `Marshal`: an integer of any type becomes an int32.
  unfoldable pub marshal_prefix : Magic → PathOrCode → Method Message Slice
  unfolding marshal_path marshal_code
  marshal_prefix magic (path p) = marshal_path magic.type magic p
  marshal_prefix magic (code c) = marshal_code magic.type magic (int32 c)
  marshal_prefix magic unsupported = throw unsupported_path_type

  -- The second `switch`: the bytes that go behind the prefix.
  unfoldable pub marshal_body : Head → Payload V → Result Bytes
  marshal_body h (raw b) = ok b
  marshal_body h (value v) = elim (Head.binder env h) [
    | none ↦ err no_binder
    | some binder ↦ env.encode binder v
  ]

  -- `if len(m.bytes) < 4 { m.bytes = make([]byte, 4, Options.Capacity) }`
  unfoldable pub ensure_prefix : Method Message (Unit {0})
  ensure_prefix m =
      if ltb (len m.bytes) 4
      then if leb 4 options.capacity
        then (record m { bytes = make 4 options.capacity }, ok tt)
        else (m, panic)
      else (m, ok tt)

  -- `m.bytes = buffer.Bytes(); m.size = int32(len(m.bytes))`
  unfoldable pub store_buffer : Slice → Method Message (Unit {0})
  store_buffer buffer m = (
    record m { head = record (m.head) { size = to_int32 (len buffer % 2 ^ 32) }; bytes = buffer },
    ok tt,
  )

  -- The rest of `Marshal`, once the head is in place.
  unfoldable pub marshal_with : Magic → PathOrCode → Payload V → Method Message (Unit {0})
  unfolding marshal_prefix marshal_body ensure_prefix store_buffer
  marshal_with magic p b = do
    ensure_prefix
    buffer ← marshal_prefix magic p
    written ← (λ m. (m, marshal_body m.head b))
    store_buffer (append env.grown buffer written)

  unfoldable pub marshal : ℕ → ℕ → ℤ → PathOrCode → Payload V → Method Message (Unit {0})
  unfolding marshal_with
  marshal magic flag index p b = do
    on_head (Head.format env magic flag index)
    λ m. elim (Head.magic_of env m.head) [ none ↦ (m, panic) | some mc ↦ marshal_with mc p b m ]
