-- ===== src/Message/Magic.antt =====
-- message/magic.go: the table of magic numbers.
use cosnet.Prelude.{ℕ, Bool, Option, none, some, List, [], ◌∷◌, ◌==◌, if◌then◌else◌}
use cosnet.Prelude.Bytes.{ByteOrder, big_endian}

abbrev pub magic_number_path_json : ℕ
magic_number_path_json = 0xf0

abbrev pub magic_number_code_json : ℕ
magic_number_code_json = 0xf1

abbrev pub magic_number_code_proto : ℕ
magic_number_code_proto = 0xf2

pub data MagicType : Type 0 where
  magic_type_path magic_type_code : MagicType

-- The binders of package cosgo/binder that the table names; a registered one may be another.
pub data BinderName : Type 0 where
  json protobuf : BinderName
  other : ℕ → BinderName

pub record Magic : Type 0 where
  pub key : ℕ
  pub type : MagicType
  pub binder : Option BinderName
  pub binary : ByteOrder

-- The map of `Magics`, one entry for each key.
abbrev pub Magics : Type 0
Magics = List (ℕ × Magic)

unfoldable pub get : Magics → ℕ → Option Magic
get [] key = none
get ((k, m) ∷ ms) key = if k == key then some m else get ms key

unfoldable pub has : Magics → ℕ → Bool
unfolding get
has ms key = elim (get ms key) [ some _ ↦ Bool.true | none ↦ Bool.false ]

unfoldable pub register : Magics → ℕ → MagicType → Option BinderName → ByteOrder → Magics
unfolding has
register ms key mt bi by =
    if has ms key then ms else (key, record { key = key; type = mt; binder = bi; binary = by }) ∷ ms

-- The table after `init`.
unfoldable pub default_magics : Magics
unfolding register
default_magics =
    register
      (register (register [] magic_number_path_json magic_type_path (some json) big_endian)
        magic_number_code_json magic_type_code (some json) big_endian)
      magic_number_code_proto magic_type_code (some protobuf) big_endian
