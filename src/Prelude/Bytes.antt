-- ===== src/Prelude/Bytes.antt =====
-- Bytes, text literals as bytes, strings.IndexByte, and the byte orders of encoding/binary.
use Prim.Native.Char.{code}
use Prim.Native.String.{String}
use mathlib.Core.Option
use cosnet.Prelude.{
  ℕ, suc, ◌+◌, ◌*◌, ◌/◌, ◌%◌, ◌^◌, ◌<◌, ◌≡◌, ◌≢◌, refl, Option, none, some, List, [], ◌∷◌, ◌++◌,
  arith, length, All, ◌==◌, if◌then◌else◌,
}

abbrev pub Bytes : Type 0
Bytes = List ℕ

-- The bytes of an ASCII text.
abbrev pub codes : String → Bytes
codes String.[] = []
codes (String.◌∷◌ c s) = code c ∷ codes s

abbrev pub Lacks : ℕ → Bytes → Type 0
Lacks b = All (λ c. c ≢ b)

-- `strings.IndexByte`, with `none` for -1.
unfoldable pub index_byte : ℕ → Bytes → Option ℕ
index_byte b [] = none
index_byte b (c ∷ s) = if c == b then some 0 else Option.map suc (index_byte b s)

pub index_byte-append :
    (b : ℕ) (s rest : Bytes) → Lacks b s → index_byte b (s ++ (b ∷ rest)) ≡ some (length s)
unfolding index_byte
index_byte-append b [] rest h = ground arith
index_byte-append b (c ∷ s) rest h = ground (arith, index_byte-append b s rest h.1)

pub index_byte-Lacks : (b : ℕ) (s : Bytes) → Lacks b s → index_byte b s ≡ none
unfolding index_byte
index_byte-Lacks b [] h = refl
index_byte-Lacks b (c ∷ s) h = ground (arith, index_byte-Lacks b s h.1)

pub data ByteOrder : Type 0 where
  big_endian little_endian : ByteOrder

-- `PutUint32`: the four bytes of `u`.
unfoldable pub put_uint32 : ByteOrder → ℕ → Bytes
put_uint32 big_endian u =
    (u / 2 ^ 24 % 256) ∷ (u / 2 ^ 16 % 256) ∷ (u / 2 ^ 8 % 256) ∷ (u % 256) ∷ []
put_uint32 little_endian u =
    (u % 256) ∷ (u / 2 ^ 8 % 256) ∷ (u / 2 ^ 16 % 256) ∷ (u / 2 ^ 24 % 256) ∷ []

-- `Uint32` of four bytes; a slice of another length does not occur.
unfoldable pub uint32 : ByteOrder → Bytes → ℕ
uint32 big_endian (a ∷ b ∷ c ∷ d ∷ []) = a * 2 ^ 24 + b * 2 ^ 16 + c * 2 ^ 8 + d
uint32 little_endian (a ∷ b ∷ c ∷ d ∷ []) = d * 2 ^ 24 + c * 2 ^ 16 + b * 2 ^ 8 + a
uint32 _ _ = 0

pub length-put_uint32 : (o : ByteOrder) (u : ℕ) → length (put_uint32 o u) ≡ 4
unfolding put_uint32
length-put_uint32 big_endian u = refl
length-put_uint32 little_endian u = refl

pub uint32-put_uint32 : (o : ByteOrder) (u : ℕ) → u < 2 ^ 32 → uint32 o (put_uint32 o u) ≡ u
unfolding uint32 put_uint32
uint32-put_uint32 big_endian u h = omega arith
uint32-put_uint32 little_endian u h = omega arith
