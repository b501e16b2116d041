-- ===== src/Message/Flag.antt =====
-- message/flag.go: the flag byte of a message.
pub mod Bits
use Prim.Native.Nat.{bit_and, bit_or, bit_xor}
use cosnet.Prelude.{
  ℕ, zero, suc, ◌<◌, ◌≡◌, ◌≢◌, refl, Bool, true, false, ◌&&◌, ◌||◌, not, arith, ltb, ◌==◌,
  if◌then◌else◌, List, [], ◌∷◌,
}

abbrev pub flag_confirm : ℕ
flag_confirm = 1

abbrev pub flag_noreply : ℕ
flag_noreply = 2

abbrev pub flag_heartbeat : ℕ
flag_heartbeat = 4

abbrev pub flag_broadcast : ℕ
flag_broadcast = 8

abbrev pub flag_compressed : ℕ
flag_compressed = 16

abbrev pub flag_encrypted : ℕ
flag_encrypted = 32

abbrev pub flag_fragmented : ℕ
flag_fragmented = 64

unfoldable pub has : ℕ → ℕ → Bool
has f t = ltb 0 (bit_and f t)

unfoldable pub set : ℕ → ℕ → ℕ
set f t = bit_or f t

-- `f &^ t` on a byte.
unfoldable pub delete : ℕ → ℕ → ℕ
delete f t = bit_and f (bit_xor t 0xff)
