-- ===== src/Message/Pool.antt =====
-- message/pool.go: `Require` and `Release`.
use cosnet.Prelude.{
  ℕ, zero, suc, ◌≡◌, refl, Option, none, some, List, [], ◌∷◌, All, if◌then◌else◌, Bool-cases, inl,
  inr, ltb,
}
use cosnet.Prelude.Int.{pos}
use cosnet.Message.Slice.{cap}
use cosnet.Message.Env.{Env}
use cosnet.Message.Head.{zero_head}
use cosnet.Message.Head
use cosnet.Message.Object.{Message, new_message}
use cosnet.Message.Transfer

-- `pool.Get()`: the pool gives any of its messages, or makes one.
unfoldable pub get : Option ℕ → List Message → Message × List Message
get none pool = (new_message, pool)
get (some i) [] = (new_message, [])
get (some zero) (m ∷ pool) = (m, pool)
get (some (suc i)) (m ∷ pool) = let (m', rest) = get (some i) pool in (m', m ∷ rest)

module _ {V : Type 0} (env : Env V) where
  open env use {options}

  -- `Require()`, with the choice of the pool.
  unfoldable pub require : Option ℕ → List Message → Message × List Message
  require choice pool = if options.pool then get choice pool else (new_message, pool)

  -- `Release(i)`
  unfoldable pub release : Message → List Message → List Message
  release m pool = if options.pool then Transfer.release env m ∷ pool else pool

-- No head, no code, no bytes.
abbrev pub Clean : Message → Type 0
Clean m = (m.head ≡ zero_head) × (m.code ≡ pos 0) × (m.bytes.content ≡ [])

get-Clean :
    (choice : Option ℕ) (pool : List Message)
    → All Clean pool
    → Clean (get choice pool).0 × All Clean (get choice pool).1
unfolding get
get-Clean none pool all = ((refl, refl, refl), all)
get-Clean (some i) [] all = ((refl, refl, refl), tt)
get-Clean (some zero) (m ∷ pool) (c, all) = (c, all)
get-Clean (some (suc i)) (m ∷ pool) (c, all) =
    let (c', all') = get-Clean (some i) pool all in (c', (c, all'))

module _ {V : Type 0} (env : Env V) where
  release_lem : (m : Message) → Clean (Transfer.release env m)
  unfolding Transfer.release Head.release
  release_lem m = elim (Bool-cases (ltb env.options.capacity (cap m.bytes))) [
    | inl large ↦ (refl, refl, rw large refl)
    | inr small ↦ (refl, refl, rw small refl)
  ]

  -- The pool has clean messages only, and gives such a one.
  pub require-Clean :
      (choice : Option ℕ) (pool : List Message)
      → All Clean pool
      → Clean (require env choice pool).0 × All Clean (require env choice pool).1
  unfolding require
  require-Clean choice pool all = elim (Bool-cases env.options.pool) [
    | inl on ↦ rw on (get-Clean choice pool all)
    | inr off ↦ rw off ((refl, refl, refl), all)
  ]

  pub release-Clean :
      (m : Message) (pool : List Message) → All Clean pool → All Clean (release env m pool)
  unfolding release Transfer.release
  release-Clean m pool all = elim (Bool-cases env.options.pool) [
    | inl on ↦ rw on (release_lem m, all)
    | inr off ↦ rw off all
  ]
