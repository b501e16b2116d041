-- ===== src/Sockets/Serving/Accepting.antt =====
-- What the loop of `Accept` makes of the connections of a listener.
use cosnet.Prelude.{
  ℕ, zero, suc, ◌+◌, ◌-◌, ◌<◌, ◌≤◌, ◌≡◌, refl, ap, sym, subst, ◌∙◌, Bool, true, false, List, [],
  ◌∷◌, Result, ok, err, panic, length, err_closed, listener_closed, arith, inl, inr, replicate,
  if◌then◌else◌,
}
use cosnet.Prelude.{All, ◌≢◌}
use cosnet.Config.{Config}
use Prim.Native.Nat.{min}
use cosnet.Prelude.Int.{pos}
use cosnet.Sockets.State.{Sockets, emit}
use cosnet.Sockets.Lifecycle.{create, connect}
use cosnet.Sockets.Admission.{create_running}
use cosnet.Sockets.Connecting.{create-Inv}
use cosnet.Sockets.Invariant.{Inv}
use cosnet.Sockets.Serving.{Round, stops, takes, created, accept_loop}

-- The connections that come before the loop ends and while the program runs.
unfoldable pub offered : List Round → ℕ
offered [] = 0
offered (stops ∷ rs) = 0
offered (takes stopped (ok conn) ∷ rs) = if stopped then offered rs else suc (offered rs)
offered (takes stopped (err err_closed) ∷ rs) = 0
offered (takes stopped (err e) ∷ rs) = offered rs
offered (takes stopped panic ∷ rs) = 0

-- Whether neither the program stops nor the listener is closed.
unfoldable pub still_open : List Round → Bool
still_open [] = true
still_open (stops ∷ rs) = false
still_open (takes stopped (ok conn) ∷ rs) = still_open rs
still_open (takes stopped (err err_closed) ∷ rs) = false
still_open (takes stopped (err e) ∷ rs) = still_open rs
still_open (takes stopped panic ∷ rs) = false

options-create : (conn : ℕ) (w : Sockets) → Sockets.options (create false conn w).0 ≡ w.options
unfolding create connect emit
options-create conn w = ground arith

closed_conns-create :
    (conn id : ℕ) (w : Sockets)
    → (create false conn w).1 ≡ ok id
    → Sockets.closed_conns (create false conn w).0 ≡ w.closed_conns
unfolding create connect emit
closed_conns-create conn id w made = ground arith

-- The map has as many sockets more as there is room for, and the other connections are closed.
abbrev pub Serves : ℕ → ℕ → Bool → Sockets → Sockets × Bool → Type 0
Serves limit n alive w (w', running) =
    (length w'.sockets ≡ length w.sockets + min n (limit - length w.sockets))
    × (length w'.closed_conns + min n (limit - length w.sockets) ≡ length w.closed_conns + n)
    × (running ≡ alive)

-- `Create` that admits or refuses the connection lets the loop go on.
created_admitted :
    (next : Sockets → Sockets × Bool) (r : Sockets × Result ℕ) (id : ℕ)
    → r.1 ≡ ok id
    → created next r ≡ next r.0
created_admitted next (w, ok i) id e = refl
created_admitted next (w, err x) id e = absurd (cc)
created_admitted next (w, panic) id e = absurd (cc)

module _ (limit : ℕ) (positive : 0 < limit) where
  -- Where there is room.
  accept_admitted :
      (n : ℕ) (alive : Bool) (w w1 : Sockets) (r : Sockets × Bool)
      → length w.sockets < limit
      → length w1.sockets ≡ suc (length w.sockets)
      → w1.closed_conns ≡ w.closed_conns
      → Serves limit n alive w1 r
      → Serves limit (suc n) alive w r
  accept_admitted n alive w w1 (w', running) room longer same (more, hung, runs) =
      (omega (arith, more, longer), omega (arith, hung, longer, ap length same), runs)

  accept_refused :
      (n : ℕ) (alive : Bool) (w w1 : Sockets) (r : Sockets × Bool)
      → limit ≤ length w.sockets
      → w1.sockets ≡ w.sockets
      → length w1.closed_conns ≡ suc (length w.closed_conns)
      → Serves limit n alive w1 r
      → Serves limit (suc n) alive w r
  accept_refused n alive w w1 (w', running) full same longer (more, hung, runs) =
      (omega (arith, more, ap length same), omega (arith, hung, longer, ap length same), runs)

  -- A connection that comes while the program runs.
  accept_running :
      (n : ℕ) (alive : Bool) (conn : ℕ) (next : Sockets → Sockets × Bool) (w : Sockets)
      → Inv w
      → w.options.connect_max_size ≡ pos limit
      → Serves limit n alive (create false conn w).0 (next (create false conn w).0)
      → Serves limit (suc n) alive w (created next (create false conn w))
  accept_running n alive conn next w inv max rest =
      let r = create false conn w in
      elim (create_running w conn limit inv max positive) [
        | inl (full, refused) ↦
            let closed = record w { closed_conns = conn ∷ w.closed_conns } in
            subst (λ x. Serves limit (suc n) alive w (created next x)) (sym refused)
              (accept_refused n alive w closed (next closed) full refl refl (
                subst (λ (x : Sockets × Result ℕ). Serves limit n alive x.0 (next x.0)) refused
                  rest))
        | inr (room, made, longer, ready) ↦
            subst (λ x. Serves limit (suc n) alive w x)
              (sym (created_admitted next r (suc w.index) made))
              (accept_admitted n alive w r.0 (next r.0) room longer
                (closed_conns-create conn (suc w.index) w made) rest)
      ]

  -- On a manager with the invariant and a positive limit on the connections, the loop of `Accept`
  -- runs on, with errors but no panic of the listener in between, until its test finds that the
  -- program has stopped or the listener is closed. Of the connections that come before that and for
  -- which `Create` finds the program running, it makes as many sockets as there is room for below
  -- the limit, and closes the others. One for which `Create` finds that the program has stopped is
  -- neither closed nor gets a socket.
  pub accept_loop-Serves :
      (rs : List Round) (w : Sockets)
      → Inv w
      → w.options.connect_max_size ≡ pos limit
      → All (λ r. (b : Bool) → r ≢ takes b panic) rs
      → Serves limit (offered rs) (still_open rs) w (accept_loop rs w)
  unfolding accept_loop offered still_open create
  accept_loop-Serves [] w inv max calm = (omega arith, omega arith, refl)
  accept_loop-Serves (stops ∷ rs) w inv max calm = (omega arith, omega arith, refl)
  accept_loop-Serves (takes true (ok conn) ∷ rs) w inv max (c, calm) =
      accept_loop-Serves rs w inv max calm
  accept_loop-Serves (takes false (ok conn) ∷ rs) w inv max (c, calm) =
      accept_running (offered rs) (still_open rs) conn (accept_loop rs) w inv max (
        accept_loop-Serves rs (create false conn w).0 (create-Inv w inv conn false)
          (ap (λ (o : Config). o.connect_max_size) (options-create conn w) ∙ max) calm)
  accept_loop-Serves (takes stopped (err err_closed) ∷ rs) w inv max calm =
      (omega arith, omega arith, refl)
  accept_loop-Serves (takes stopped (err e) ∷ rs) w inv max (c, calm) =
      accept_loop-Serves rs w inv max calm
  accept_loop-Serves (takes stopped panic ∷ rs) w inv max (c, calm) = absurd (c stopped refl)

-- The error of a closed UDP listener is not the one at which the loop ends: it goes round for ever.
pub accept_loop_spins :
    (n : ℕ) (w : Sockets)
    → accept_loop (replicate n (takes false (err listener_closed))) w ≡ (w, true)
unfolding accept_loop
accept_loop_spins zero w = refl
accept_loop_spins (suc n) w = accept_loop_spins n w
