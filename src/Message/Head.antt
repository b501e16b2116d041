-- ===== src/Message/Head.antt =====
-- message/head.go: the ten bytes in front of each message.
pub mod Wire
use cosnet.Prelude.{
  ℕ, ◌+◌, ◌≡◌, Bool, true, false, ◌&&◌, not, Option, none, some, List, [], ◌∷◌, ◌++◌, Result, ok,
  err, panic, Method, length, take, drop, ◌==◌, if◌then◌else◌, msg_head_illegal,
  msg_data_size_too_long, magic_not_exist,
}
use cosnet.Prelude.Int.{ℤ, pos, ltb_ℤ, to_int32, to_uint32}
use cosnet.Prelude.Bytes.{Bytes, put_uint32, uint32}
use cosnet.Message.Flag.{flag_compressed}
use cosnet.Message.Flag
use cosnet.Message.Magic.{Magic, BinderName}
use cosnet.Message.Magic
use cosnet.Message.Env.{Env}

abbrev pub message_head_size : ℕ
message_head_size = 10

pub record Head : Type 0 where
  pub magic : ℕ
  pub flag : ℕ
  pub size : ℤ
  pub index : ℤ

abbrev pub zero_head : Head
zero_head = record { magic = 0; flag = 0; size = pos 0; index = pos 0 }

-- `b[i]`; every call is within the length.
abbrev pub byte_at : Bytes → ℕ → ℕ
byte_at b i = elim (drop i b) [ [] ↦ 0 | c ∷ _ ↦ c ]

module _ {V : Type 0} (env : Env V) where
  open env use {options}

  -- `Magic()`, with `none` for nil.
  unfoldable pub magic_of : Head → Option Magic
  magic_of h = Magic.get env.magics h.magic

  unfoldable pub parse : Bytes → Method Head (Unit {0})
  parse head h =
      if length head == message_head_size
      then elim (Magic.get env.magics (byte_at head 0)) [
        | none ↦ (h, err msg_head_illegal)
        | some magic ↦
            let h' : Head = record {
              magic = byte_at head 0;
              flag = byte_at head 1;
              size = to_int32 (uint32 magic.binary (take 4 (drop 2 head)));
              index = to_int32 (uint32 magic.binary (take 4 (drop 6 head)));
            } in
            (h', if ltb_ℤ options.max_data_size h'.size then err msg_data_size_too_long else ok tt)
      ]
      else (h, err msg_head_illegal)

  -- The test by which a message is compressed on the way out.
  unfoldable pub auto_compress : Head → Bool
  auto_compress h =
      ltb_ℤ (pos 0) options.auto_compress_size
      && ltb_ℤ options.auto_compress_size h.size
      && not (Flag.has h.flag flag_compressed)

  -- `bytes()`: the head, and whether the body is to be compressed. A nil magic panics.
  unfoldable pub bytes : Head → Result (Bytes × Bool)
  unfolding magic_of auto_compress
  bytes h = elim (magic_of h) [
    | none ↦ panic
    | some magic ↦
        let compressed = auto_compress h in
        ok (
          h.magic
              ∷ (if compressed then Flag.set h.flag flag_compressed else h.flag)
              ∷ (put_uint32 magic.binary (to_uint32 h.size)
                  ++ put_uint32 magic.binary (to_uint32 h.index)),
          compressed,
        )
  ]

  unfoldable pub format : ℕ → ℕ → ℤ → Method Head (Unit {0})
  format magic flag index h = (
    record h { magic = magic; flag = flag; index = index },
    elim (Magic.get env.magics magic) [ none ↦ err (magic_not_exist magic) | some _ ↦ ok tt ],
  )

  -- The binder of the message, with `none` for nil.
  unfoldable pub binder : Head → Option BinderName
  unfolding magic_of
  binder h = elim (magic_of h) [ none ↦ none | some magic ↦ magic.binder ]

unfoldable pub release : Head → Head
release h = zero_head
