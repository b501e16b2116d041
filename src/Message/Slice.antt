-- ===== src/Message/Slice.antt =====
-- Go's byte slices as the message uses them: the bytes up to the length, and behind them the bytes
-- that the array still holds up to the capacity. Reslicing reads the latter again.
pub mod Arrays
use cosnet.Prelude.{
  ℕ, ◌+◌, ◌-◌, ◌≤◌, ◌≡◌, refl, List, [], ◌∷◌, ◌++◌, arith, length, take, drop, replicate, leb, ltb,
  if◌then◌else◌,
}
use cosnet.Prelude.Bytes.{Bytes}

pub record Slice : Type 0 where
  pub content : Bytes
  pub spare : Bytes

abbrev pub nil : Slice
nil = record { content = []; spare = [] }

abbrev pub array : Slice → Bytes
array s = s.content ++ s.spare

abbrev pub len : Slice → ℕ
len s = length s.content

abbrev pub cap : Slice → ℕ
cap s = length (array s)

-- `s[0:n]`, which panics for `n` above the capacity; callers test that.
abbrev pub reslice : Slice → ℕ → Slice
reslice s n = record { content = take n (array s); spare = drop n (array s) }

-- `make([]byte, n, c)`, for `n` at most `c`.
abbrev pub make : ℕ → ℕ → Slice
make n c = record { content = replicate n 0; spare = replicate (c - n) 0 }

-- A write of `bs` into the array from its start, with the length kept; `bs` fits in the capacity.
abbrev pub overwrite : Slice → Bytes → Slice
overwrite s bs = record {
  content = take (len s) (bs ++ drop (length bs) (array s));
  spare = drop (len s) (bs ++ drop (length bs) (array s));
}

-- `bytes.Buffer.Write`: in place while the capacity lasts, otherwise on a new array, whose spare
-- bytes `grown` gives.
abbrev pub append : (Bytes → Bytes) → Slice → Bytes → Slice
append grown s bs =
    if leb (length bs) (length s.spare)
    then record { content = s.content ++ bs; spare = drop (length bs) s.spare }
    else record { content = s.content ++ bs; spare = grown (s.content ++ bs) }
