-- ===== src/Message/Flag/Bits.antt =====
-- The flag operations on every byte, by evaluation.
use cosnet.Prelude.{
  ℕ, zero, suc, ◌^◌, ◌<◌, ◌≡◌, refl, Bool, true, false, ◌&&◌, ◌||◌, not, arith, ◌==◌, if◌then◌else◌,
}
use cosnet.Message.Flag.{has, set, delete, flag_compressed}

-- A test passed at each number below a bound.
passes : (ℕ → Bool) → ℕ → Bool
passes test zero = true
passes test (suc bound) = passes test bound && test bound

passes_at :
    (test : ℕ → Bool) {bound : ℕ} {x : ℕ} → passes test bound ≡ true → x < bound → test x ≡ true
unfolding passes
passes_at test {bound = zero} passed below = absurd (omega arith)
passes_at test {bound = suc bound} {x} passed below =
    ground (arith, passes_at test {bound = bound} {x = x})

same : Bool → Bool → Bool
same true b = b
same false b = not b

same_eq : (a b : Bool) → same a b ≡ true → a ≡ b
unfolding same
same_eq a b h = ground arith

-- Bit `j` after a change of bit `i`.
changed : ℕ → ℕ → ℕ → Bool
unfolding same has set delete
changed i j f =
    same (has (set f (2 ^ i)) (2 ^ j)) (if i == j then true else has f (2 ^ j))
    && same (has (delete f (2 ^ i)) (2 ^ j)) (if i == j then false else has f (2 ^ j))

changed_table : passes (λ i. passes (λ j. passes (changed i j) 256) 8) 8 ≡ true
unfolding passes changed
changed_table = refl

changed_ok : (i j f : ℕ) → i < 8 → j < 8 → f < 256 → changed i j f ≡ true
changed_ok i j f hi hj hf =
    passes_at (changed i j)
      (passes_at (λ j. passes (changed i j) 256)
        (passes_at (λ i. passes (λ j. passes (changed i j) 256) 8) changed_table hi) hj)
      hf

-- On a byte, setting or deleting bit `i` makes `Has` of that bit true or false, and leaves `Has` of
-- every other bit as it was.
pub has-set-delete :
    (i j f : ℕ)
    → i < 8
    → j < 8
    → f < 256
    → (has (set f (2 ^ i)) (2 ^ j) ≡ (if i == j then true else has f (2 ^ j)))
      × (has (delete f (2 ^ i)) (2 ^ j) ≡ (if i == j then false else has f (2 ^ j)))
unfolding changed
has-set-delete i j f hi hj hf = ground (
  arith,
  changed_ok i j f hi hj hf,
  same_eq (has (set f (2 ^ i)) (2 ^ j)) (if i == j then true else has f (2 ^ j)),
  same_eq (has (delete f (2 ^ i)) (2 ^ j)) (if i == j then false else has f (2 ^ j)),
)

restored : ℕ → Bool
unfolding has set delete
restored f =
    has f flag_compressed
    || (has (set f flag_compressed) flag_compressed
        && delete (set f flag_compressed) flag_compressed == f)

restored_table : passes restored 256 ≡ true
unfolding passes restored
restored_table = refl

-- Setting the compressed bit of a byte that lacks it, and deleting it again, gives the byte back.
pub delete-set_compressed :
    (f : ℕ)
    → f < 256
    → has f flag_compressed ≡ false
    → (has (set f flag_compressed) flag_compressed ≡ true)
      × (delete (set f flag_compressed) flag_compressed ≡ f)
unfolding restored
delete-set_compressed f h lacks = ground (arith, passes_at restored {x = f} restored_table h)
