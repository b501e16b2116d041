-- ===== src/Sockets/Dialing.antt =====
-- `tryConnect` of sockets.go: dialling with waits in between. What the network does is a parameter.
use Prim.Native.Nat.{min}
use cosnet.Prelude.{
  ℕ, zero, suc, ◌+◌, ◌*◌, ◌%◌, ◌^◌, ◌≤◌, ◌<◌, ◌≡◌, refl, ap, ◌∙◌, ◌&&◌, Bool, true, false, Option,
  none, some, List, [], ◌∷◌, if◌then◌else◌, arith, length, Bool-cases, inl, inr,
}
use cosnet.Prelude.Int.{ℤ, pos, ltb_ℤ, leb_ℤ, to_int32, to_uint32}
use cosnet.Config.{Config}

-- How `tryConnect` ends; `unfinished` is the model's own, where the fuel is used up.
pub data Dialled : Type 0 where
  reached : ℕ → Dialled
  max_retry : Dialled
  cancelled : Dialled
  unfinished : Dialled

-- The wait after try `k` in milliseconds, in int32.
unfoldable pub delay : Config → ℕ → ℤ
delay options k =
    let d = to_int32 (to_uint32 options.client_reconnect_time * suc k % 2 ^ 32) in
    if ltb_ℤ (pos 0) options.client_reconnect_max_delay
      && ltb_ℤ options.client_reconnect_max_delay d
    then options.client_reconnect_max_delay
    else d

-- The number of tries is used up.
abbrev pub gives_up : Config → ℕ → Bool
gives_up options k =
    ltb_ℤ (pos 0) options.client_reconnect_max && leb_ℤ options.client_reconnect_max (pos k)

-- The connection that `DialTimeout` makes at try `k`, if any, and whether the context ends in the wait
-- after it.
module _ (options : Config) (dial : ℕ → Option ℕ) (stops : ℕ → Bool) where
  unfoldable pub after_dial : Option ℕ → ℕ → Dialled × List ℤ → Dialled × List ℤ
  after_dial (some conn) k later = (reached conn, [])
  after_dial none k later =
      if stops k then (cancelled, delay options k ∷ []) else (later.0, delay options k ∷ later.1)

  -- The end, and the waits before it.
  unfoldable pub try_connect : ℕ → ℕ → Dialled × List ℤ
  try_connect zero k = (unfinished, [])
  try_connect (suc fuel) k =
      let later = try_connect fuel (suc k) in
      if gives_up options k then (max_retry, []) else after_dial (dial k) k later

abbrev pub is_finished : Dialled → Bool
is_finished unfinished = false
is_finished _ = true

module _ (options : Config) (dial : ℕ → Option ℕ) (stops : ℕ → Bool) (tries : ℕ)
    (limit : options.client_reconnect_max ≡ pos tries) (positive : 0 < tries) where
  -- An end, with at most as many waits as tries were left.
  abbrev pub Finished : ℕ → Dialled × List ℤ → Type 0
  Finished k r = (is_finished r.0 ≡ true) × (length r.1 + k ≤ tries)

  after_dial-Finished :
      (o : Option ℕ) (k : ℕ) (later : Dialled × List ℤ)
      → k < tries
      → Finished (suc k) later
      → Finished k (after_dial options dial stops o k later)
  unfolding after_dial
  after_dial-Finished (some conn) k later lt h = (refl, omega arith)
  after_dial-Finished none k later lt h = elim (Bool-cases (stops k)) [
    | inl e ↦ rw e (refl, omega arith)
    | inr e ↦ rw e (h.0, omega (arith, h.1))
  ]

  -- With a positive number of tries as the limit, `tryConnect` comes to an end from any try within
  -- it, whatever the network and the context do, on fuel above the tries that are left; the waits
  -- and the tries made before are together at most the limit.
  pub try_connect-Finished :
      (fuel k : ℕ)
      → k ≤ tries
      → tries < fuel + k
      → Finished k (try_connect options dial stops fuel k)
  unfolding try_connect
  try_connect-Finished zero k within enough = absurd (omega arith)
  try_connect-Finished (suc fuel) k within enough = elim (Bool-cases (gives_up options k)) [
    | inl e ↦ rw e (refl, omega (arith, within))
    | inr e ↦
        (let lt : k < tries = ground (arith, limit, positive, e) in
          rw e (
            after_dial-Finished (dial k) k (try_connect options dial stops fuel (suc k)) lt
              (try_connect-Finished fuel (suc k) (omega (arith, lt)) (omega (arith, enough)))))
  ]

-- `n` waits from the one after try `k`, each longer by the same time up to a bound.
unfoldable pub waits : ℕ → ℕ → ℕ → ℕ → List ℤ
waits base cap zero k = []
waits base cap (suc n) k = pos (min (base * suc k) cap) ∷ waits base cap n (suc k)

module _ (options : Config) (dial : ℕ → Option ℕ) (stops : ℕ → Bool) (tries base cap : ℕ)
    (limit : options.client_reconnect_max ≡ pos tries)
    (time : options.client_reconnect_time ≡ pos base)
    (bound : options.client_reconnect_max_delay ≡ pos cap) (bounded : 0 < cap)
    (fits : (k : ℕ) → k < tries → base * suc k < 2 ^ 31) (silent : (k : ℕ) → dial k ≡ none)
    (quiet : (k : ℕ) → stops k ≡ false) where
  small_delay : (d : ℕ) → d < 2 ^ 31 → to_int32 (d % 2 ^ 32) ≡ pos d
  small_delay d h = ground arith

  capped :
      (d : ℕ)
      → (if ltb_ℤ (pos 0) (pos cap) && ltb_ℤ (pos cap) (pos d) then pos cap else pos d)
        ≡ pos (min d cap)
  capped d = ground (arith, bounded)

  not_wrapped :
      (k : ℕ) → k < tries → to_int32 (to_uint32 (pos base) * suc k % 2 ^ 32) ≡ pos (base * suc k)
  not_wrapped k lt =
      let small : base % 2 ^ 32 ≡ base = omega (arith, fits 0 (omega (arith, lt))) in
      ap (λ b. to_int32 (b * suc k % 2 ^ 32)) small ∙ small_delay (base * suc k) (fits k lt)

  delay_lem : (k : ℕ) → k < tries → delay options k ≡ pos (min (base * suc k) cap)
  unfolding delay
  delay_lem k lt = rw (time, bound, not_wrapped k lt) (capped (base * suc k))

  -- With a positive number of tries as the limit, a positive bound on the waits, and a base time
  -- whose multiples up to the limit fit an int32, where no try connects and the context does not
  -- end, `tryConnect` reports the limit after the `n` tries that are left, on fuel above `n`, and
  -- the wait after try `k` is the base time times k + 1, up to the bound.
  pub try_connect-waits :
      (n fuel k : ℕ)
      → n + k ≡ tries
      → n < fuel
      → 0 < tries
      → try_connect options dial stops fuel k ≡ (max_retry, waits base cap n k)
  unfolding try_connect after_dial waits
  try_connect-waits n zero k sum enough positive = absurd (omega arith)
  try_connect-waits zero (suc fuel) k sum enough positive =
      (let full : gives_up options k ≡ true = ground (arith, limit, sum, positive) in rw full refl)
  try_connect-waits (suc n) (suc fuel) k sum enough positive =
      (let more : gives_up options k ≡ false = ground (arith, limit, sum, positive) in
        rw
          (
            more,
            silent k,
            quiet k,
            delay_lem k (omega (arith, sum)),
            try_connect-waits n fuel (suc k) (omega (arith, sum)) (omega (arith, enough)) positive,
          )
          refl)
