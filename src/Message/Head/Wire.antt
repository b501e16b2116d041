-- ===== src/Message/Head/Wire.antt =====
-- A head as bytes and back.
use cosnet.Prelude.{
  ℕ, ◌≡◌, ◌∙◌, ap, some, ◌∷◌, ◌++◌, ok, err, arith, length, take, drop, take_all, length-append,
  take-append_eq, drop-append_eq, if◌then◌else◌, msg_data_size_too_long,
}
use cosnet.Prelude.Int.{ℤ, to_int32, to_uint32, IsInt32, int32_of_IsInt32, to_uint32-lt, ltb_ℤ}
use cosnet.Prelude.Bytes.{
  Bytes, ByteOrder, put_uint32, uint32, length-put_uint32, uint32-put_uint32,
}
use cosnet.Message.Flag
use cosnet.Message.Flag.{flag_compressed}
use cosnet.Message.Magic.{Magic}
use cosnet.Message.Magic
use cosnet.Message.Env.{Env}
use cosnet.Message.Head.{Head, parse, bytes, auto_compress, magic_of, message_head_size}

-- The ten bytes of a head, with the flag that goes on the wire.
abbrev pub head_bytes : Magic → Head → ℕ → Bytes
head_bytes mc h flag =
    h.magic
    ∷ flag
    ∷ (put_uint32 mc.binary (to_uint32 h.size) ++ put_uint32 mc.binary (to_uint32 h.index))

word-back :
    (o : ByteOrder) (z : ℤ) → IsInt32 z → to_int32 (uint32 o (put_uint32 o (to_uint32 z))) ≡ z
word-back o z h = rw (uint32-put_uint32 o (to_uint32 z) (to_uint32-lt z)) (int32_of_IsInt32 z h)

module _ {V : Type 0} (env : Env V) where
  abbrev pub wire_flag : Head → ℕ
  wire_flag h = if auto_compress env h then Flag.set h.flag flag_compressed else h.flag

  pub bytes-head_bytes :
      (mc : Magic) (h : Head)
      → Magic.get env.magics h.magic ≡ some mc
      → bytes env h ≡ ok (head_bytes mc h (wire_flag h), auto_compress env h)
  unfolding bytes magic_of
  bytes-head_bytes mc h known = ground (arith, known)

module _ {V : Type 0} (env : Env V) (mc : Magic) (h h' : Head) (flag : ℕ)
    (known : Magic.get env.magics h.magic ≡ some mc) (size_fits : IsInt32 h.size)
    (index_fits : IsInt32 h.index) where
  pub length-head_bytes : length (head_bytes mc h flag) ≡ message_head_size
  length-head_bytes = omega (
    arith,
    length-append (put_uint32 mc.binary (to_uint32 h.size))
        (put_uint32 mc.binary (to_uint32 h.index)),
    length-put_uint32 mc.binary (to_uint32 h.size),
    length-put_uint32 mc.binary (to_uint32 h.index),
  )

  size_back : to_int32 (uint32 mc.binary (take 4 (drop 2 (head_bytes mc h flag)))) ≡ h.size
  size_back =
      ap (λ b. to_int32 (uint32 mc.binary b))
        (take-append_eq 4 (put_uint32 mc.binary (to_uint32 h.size)) _
          (length-put_uint32 mc.binary (to_uint32 h.size)))
      ∙ word-back mc.binary h.size size_fits

  index_back : to_int32 (uint32 mc.binary (take 4 (drop 6 (head_bytes mc h flag)))) ≡ h.index
  index_back =
      ap (λ b. to_int32 (uint32 mc.binary (take 4 b)))
        (drop-append_eq 4 (put_uint32 mc.binary (to_uint32 h.size)) _
          (length-put_uint32 mc.binary (to_uint32 h.size)))
      ∙ ap (λ b. to_int32 (uint32 mc.binary b))
          (take_all 4 _ (omega (arith, length-put_uint32 mc.binary (to_uint32 h.index))))
      ∙ word-back mc.binary h.index index_fits

  -- For a registered magic number and a size and an index within int32, `Parse` of the ten bytes of
  -- a head stores its fields, with the flag that is on the wire, whatever the receiver's head was,
  -- and reports an error exactly where the size is above the limit.
  pub parse-head_bytes : parse env (head_bytes mc h flag) h' ≡ (
    record h { flag = flag },
    if ltb_ℤ env.options.max_data_size h.size then err msg_data_size_too_long else ok tt,
  )
  unfolding parse
  parse-head_bytes = ground (arith, known, length-head_bytes, size_back, index_back)
