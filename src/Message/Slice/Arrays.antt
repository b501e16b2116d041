-- ===== src/Message/Slice/Arrays.antt =====
-- What a write leaves in the array of a slice.
use cosnet.Prelude.{
  ℕ, ◌≤◌, ◌≡◌, ◌++◌, arith, length, drop, take-append-drop, take-append_eq, length-drop,
  length-append,
}
use cosnet.Prelude.Bytes.{Bytes}
use cosnet.Message.Slice.{Slice, array, cap, reslice, overwrite, append}

pub array-overwrite :
    (s : Slice) (bs : Bytes) → array (overwrite s bs) ≡ bs ++ drop (length bs) (array s)
array-overwrite s bs = take-append-drop _ _

pub cap-overwrite : (s : Slice) (bs : Bytes) → length bs ≤ cap s → cap (overwrite s bs) ≡ cap s
cap-overwrite s bs h = rw (array-overwrite s bs) (
    omega (arith, length-append bs (drop (length bs) (array s)), length-drop (length bs) (array s)))

pub content-reslice-overwrite :
    (n : ℕ) (s : Slice) (bs : Bytes) → length bs ≡ n → (reslice (overwrite s bs) n).content ≡ bs
content-reslice-overwrite n s bs h = rw (array-overwrite s bs) (take-append_eq n bs _ h)

pub content-append :
    (grown : Bytes → Bytes) (s : Slice) (bs : Bytes) → (append grown s bs).content ≡ s.content ++ bs
content-append grown s bs = ground arith

-- A write of as many bytes as the slice is long replaces its content.
pub content-overwrite_full :
    (s : Slice) (bs : Bytes) → length bs ≡ length s.content → (overwrite s bs).content ≡ bs
content-overwrite_full s bs h = take-append_eq _ bs _ h
