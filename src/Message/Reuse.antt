-- ===== src/Message/Reuse.antt =====
-- A message that was released and is used again: `Release` keeps the array.
use cosnet.Prelude.{
  ℕ, ◌^◌, ◌≤◌, ◌<◌, ◌≡◌, refl, ap, ◌∙◌, some, ◌++◌, ok, arith, length, take, append_assoc,
  take-append_eq, length-append, ge→ltb, le→leb,
}
use cosnet.Prelude.Int.{to_int32}
use cosnet.Prelude.Bytes.{Bytes, put_uint32, length-put_uint32, uint32-put_uint32}
use cosnet.Message.Magic.{Magic}
use cosnet.Message.Magic
use cosnet.Message.Slice.{cap, array}
use cosnet.Message.Env.{Env}
use cosnet.Message.Head.{Head}
use cosnet.Message.Head
use cosnet.Message.Object.{Message}
use cosnet.Message.Read.{code_of}
use cosnet.Message.Transfer.{release}

module _ {V : Type 0} (env : Env V) (mc : Magic) where
  -- A message whose bytes began with the number `u`, in the byte order of a registered magic
  -- number, and whose array is within the capacity that is kept, is released and then has a head
  -- with that magic number but no bytes: `Code` returns `u` as an int32, which is what the array
  -- holds of the former message.
  pub code_of-release :
      (m : Message) (h : Head) (u : ℕ) (rest : Bytes)
      → Magic.get env.magics h.magic ≡ some mc
      → u < 2 ^ 32
      → m.bytes.content ≡ put_uint32 mc.binary u ++ rest
      → cap m.bytes ≤ env.options.capacity
      → (code_of env (record (release env m) { head = h })).1 ≡ ok (to_int32 u)
  unfolding code_of release Head.magic_of
  code_of-release m h u rest known fits content kept =
      rw
        (
          known,
          ge→ltb env.options.capacity (cap m.bytes) kept,
          le→leb 4 (length (array m.bytes)) large,
          first,
          uint32-put_uint32 mc.binary u fits,
        )
        refl
    where
      whole : array m.bytes ≡ put_uint32 mc.binary u ++ (rest ++ m.bytes.spare)
      whole =
          ap (λ b. b ++ m.bytes.spare) content
          ∙ append_assoc (put_uint32 mc.binary u) rest m.bytes.spare

      first : take 4 (array m.bytes) ≡ put_uint32 mc.binary u
      first =
          ap (take 4) whole
          ∙ take-append_eq 4 (put_uint32 mc.binary u) (rest ++ m.bytes.spare)
              (length-put_uint32 mc.binary u)

      large : 4 ≤ length (array m.bytes)
      large = omega (
        arith,
        ap length whole,
        length-append (put_uint32 mc.binary u) (rest ++ m.bytes.spare),
        length-put_uint32 mc.binary u,
      )
