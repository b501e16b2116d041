-- ===== src/Message/Env.antt =====
-- message/options.go and message/transform.go, and what package message takes from code outside the
-- repository: the binders of cosgo, compress/gzip, and the arrays that the Go runtime allocates.
use cosnet.Prelude.{ℕ, ◌*◌, ◌≡◌, Bool, true, [], Result, ok, err, msg_head_not_set_transform}
use cosnet.Prelude.Int.{ℤ, pos}
use cosnet.Prelude.Bytes.{Bytes}
use cosnet.Message.Magic.{Magics, BinderName, magic_number_path_json}

-- The constants of `Options`; `New` and `Head` stand for the only message type and head there are.
pub record Options : Type 0 where
  pub pool : Bool
  pub magic : ℕ
  pub capacity : ℕ
  pub max_data_size : ℤ
  pub auto_compress_size : ℤ
  pub s2c_confirm : Bytes

unfoldable pub default_options : Options
default_options = record {
  pool = true;
  magic = magic_number_path_json;
  capacity = 1024;
  max_data_size = pos (1024 * 1024);
  auto_compress_size = pos (1024 * 100);
  s2c_confirm = [];
}

-- `Transform`: code to path, and path to code.
pub record Transform : Type 0 where
  pub path : ℤ → Result Bytes
  pub code : Bytes → Result ℤ

unfoldable pub transform_default : Transform
transform_default = record {
  path = λ _. err msg_head_not_set_transform;
  code = λ _. err msg_head_not_set_transform;
}

-- `V` is the type of the values that a binder encodes.
pub record Env (V : Type 0) : Type 0 where
  pub options : Options
  pub magics : Magics
  pub transform : Transform
  -- What `Encode` appends to the buffer; where it fails it has appended nothing.
  pub encode : BinderName → V → Result Bytes
  pub unmarshal : BinderName → Bytes → Result V
  pub gzip : Bytes → Bytes
  pub gunzip : Bytes → Result Bytes
  -- The bytes behind the length of an array that the runtime allocates for this content.
  pub grown : Bytes → Bytes

-- What gzip promises: reading what was written gives the bytes back.
abbrev pub IsLossless : {V : Type 0} → Env V → Type 0
IsLossless env = (b : Bytes) → env.gunzip (env.gzip b) ≡ ok b
