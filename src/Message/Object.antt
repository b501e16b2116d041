-- ===== src/Message/Object.antt =====
-- message/message.go: the message object, and the arguments of `Marshal`.
use cosnet.Prelude.{Method}
use cosnet.Prelude.Int.{ℤ, pos}
use cosnet.Prelude.Bytes.{Bytes}
use cosnet.Message.Slice.{Slice, nil}
use cosnet.Message.Head.{Head, zero_head}

pub record Message : Type 0 where
  pub head : Head
  pub code : ℤ
  pub bytes : Slice

-- `&message{}`
abbrev pub new_message : Message
new_message = record { head = zero_head; code = pos 0; bytes = nil }

-- The first argument of `Marshal` by its dynamic type: `string`, an integer type, or another.
pub data PathOrCode : Type 0 where
  path : Bytes → PathOrCode
  code : ℤ → PathOrCode
  unsupported : PathOrCode

-- The body: `[]byte`, or any other value.
pub data Payload (V : Type 0) : Type 0 where
  raw : Bytes → Payload V
  value : V → Payload V

abbrev pub on_head : {A : Type 0} → Method Head A → Method Message A
on_head f m = let (h, r) = f m.head in (record m { head = h }, r)
