-- ===== src/Sockets/Lists.antt =====
-- The manager's map as a list of keys: membership, deletion and size.
use cosnet.Prelude.{
  ℕ, suc, ◌≡◌, refl, true, false, List, [], ◌∷◌, ◌==◌, if◌then◌else◌, arith, Bool-cases, inl, inr,
}
use cosnet.Prelude.{length}
use cosnet.Sockets.State.{member, remove}

-- No key twice.
abbrev pub IsDistinct : List ℕ → Type 0
IsDistinct [] = Unit {0}
IsDistinct (x ∷ xs) = (member x xs ≡ false) × IsDistinct xs

pub member-remove :
    (i id : ℕ) (xs : List ℕ) → member i (remove id xs) ≡ (if id == i then false else member i xs)
unfolding member remove
member-remove i id [] = ground arith
member-remove i id (x ∷ xs) = ground (arith, member-remove i id xs)

pub remove_absent : (id : ℕ) (xs : List ℕ) → member id xs ≡ false → remove id xs ≡ xs
unfolding member remove
remove_absent id [] h = refl
remove_absent id (x ∷ xs) h = ground (arith, remove_absent id xs)

pub length-remove :
    (id : ℕ) (xs : List ℕ)
    → IsDistinct xs
    → member id xs ≡ true
    → length xs ≡ suc (length (remove id xs))
unfolding member remove
length-remove id [] d h = ground arith
length-remove id (x ∷ xs) d h = elim (Bool-cases (x == id)) [
  | inl e ↦ ground (arith, remove_absent id xs, d.0)
  | inr e ↦ ground (arith, length-remove id xs d.1)
]

pub remove-IsDistinct : (id : ℕ) (xs : List ℕ) → IsDistinct xs → IsDistinct (remove id xs)
unfolding member remove
remove-IsDistinct id [] d = tt
remove-IsDistinct id (x ∷ xs) d = elim (Bool-cases (x == id)) [
  | inl e ↦ rw e (remove-IsDistinct id xs d.1)
  | inr e ↦ rw e (ground (arith, member-remove x id xs, d.0), remove-IsDistinct id xs d.1)
]
