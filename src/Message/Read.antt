-- ===== src/Message/Read.antt =====
-- message/message.go: what is read from a message, that is its code, path, body and confirm path.
pub mod Prefixed
use cosnet.Prelude.{
  ℕ, zero, suc, ◌+◌, ◌%◌, ◌^◌, ◌≡◌, Bool, true, false, ◌&&◌, ◌||◌, not, Option, none, some, List,
  [], ◌∷◌, ◌++◌, Result, ok, err, panic, Error, Method, ◌>>=◌, ◌>>◌, pure, lift, throw, continue,
  length, take, drop, leb, ltb, ◌==◌, if◌then◌else◌, msg_head_illegal, short_buffer, unexpected_eof,
  no_binder, unsupported_path_type,
}
use cosnet.Prelude.Int.{ℤ, pos, negsuc, ltb_ℤ, leb_ℤ, int32, to_int32, to_uint32}
use cosnet.Prelude.Bytes.{Bytes, index_byte, put_uint32, uint32}
use cosnet.Message.Flag.{flag_compressed}
use cosnet.Message.Flag
use cosnet.Message.Magic.{Magic, MagicType, magic_type_path, magic_type_code, BinderName}
use cosnet.Message.Slice.{Slice, nil, reslice, make, overwrite, append, cap, len}
use cosnet.Message.Env.{Env}
use cosnet.Message.Head.{Head, zero_head, message_head_size}
use cosnet.Message.Head
use cosnet.Message.Object.{
  Message, PathOrCode, path, code, unsupported, Payload, raw, value, on_head,
}

abbrev pub is_zero : ℤ → Bool
is_zero (pos zero) = true
is_zero (pos (suc n)) = false
is_zero (negsuc n) = false

-- `path[:i]` and `path[i+1:]` at the first `?`, if there is one.
unfoldable pub split_query : Bytes → Bytes × Bytes
split_query p = elim (index_byte b'?' p) [ none ↦ (p, []) | some i ↦ (take i p, drop (i + 1) p) ]

-- The path that stands behind its length in `bytes`.
unfoldable pub path_in : Bytes → ℤ → Result (Bytes × Bytes)
path_in bytes (negsuc n) = err msg_head_illegal
path_in bytes (pos n) =
    if n == 0 || ltb (length bytes) (n + 4)
    then err msg_head_illegal
    else ok (split_query (take n (drop 4 bytes)))

abbrev pub with_no_query : Result Bytes → Result (Bytes × Bytes)
with_no_query (ok r) = ok (r, [])
with_no_query (err e) = err e
with_no_query panic = panic

-- How many bytes of the path stand in front of the body.
unfoldable pub path_length : Bytes → ℤ → ℕ
path_length bytes (negsuc n) = 0
path_length bytes (pos n) = if leb (n + 4) (length bytes) then n else 0

abbrev pub is_empty : Bytes → Bool
is_empty [] = true
is_empty (_ ∷ _) = false

abbrev pub path_or_empty : Message × Result (Bytes × Bytes) → Message × Result Bytes
path_or_empty (m, ok (p, q)) = (m, ok p)
path_or_empty (m, err e) = (m, ok [])
path_or_empty (m, panic) = (m, panic)

module _ {V : Type 0} (env : Env V) where
  open env use {options, transform}

  -- `Code()`: computed once, from the first four bytes of the array.
  unfoldable pub code_of : Method Message ℤ
  code_of m =
      if is_zero m.code
      then elim (Head.magic_of env m.head) [
        | none ↦ (m, panic)
        | some magic ↦
            if leb 4 (cap m.bytes)
            then (let c = to_int32 (uint32 magic.binary (reslice m.bytes 4).content) in
                (record m { code = c }, ok c))
            else (m, panic)
      ]
      else (m, ok m.code)

  unfoldable pub path_by : MagicType → ℤ → Method Message (Bytes × Bytes)
  path_by magic_type_path c m = (m, path_in m.bytes.content c)
  path_by magic_type_code c m = (m, with_no_query (transform.path c))

  -- `Path()`: the path and the query.
  unfoldable pub path_of : Method Message (Bytes × Bytes)
  path_of m = elim (Head.magic_of env m.head) [
    | none ↦ (m, panic)
    | some magic ↦ (do c ← code_of; path_by magic.type c) m
  ]

  unfoldable pub offset : MagicType → Method Message ℕ
  offset magic_type_path = do c ← code_of; (λ m. (m, ok (4 + path_length m.bytes.content c)))
  offset magic_type_code = pure 4

  -- `Body()`; a nil slice and an empty one are one empty list.
  unfoldable pub body_of : Method Message Bytes
  body_of m = elim (Head.magic_of env m.head) [
    | none ↦ (m, panic)
    | some magic ↦
        (do
          n ← offset magic.type
          (λ m. (m, ok (if ltb (len m.bytes) n then [] else drop n m.bytes.content))))
          m
  ]

  -- `Confirm()`: the configured path, or else the message's own, which is empty on an error.
  unfoldable pub confirm : Method Message Bytes
  confirm m =
      if is_empty options.s2c_confirm
      then path_or_empty (path_of m)
      else (m, ok options.s2c_confirm)

  -- `Unmarshal(i)`, with the value that is filled in as the result.
  unfoldable pub unmarshal : Method Message V
  unmarshal m = elim (Head.binder env m.head) [
    | none ↦ (m, err no_binder)
    | some b ↦ (do body ← body_of; lift (env.unmarshal b body)) m
  ]
