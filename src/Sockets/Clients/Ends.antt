-- ===== src/Sockets/Clients/Ends.antt =====
-- Whatever the network does, a socket that reconnects comes to an end.
use cosnet.Prelude.{
  ℕ, zero, suc, ◌+◌, ◌≤◌, ◌<◌, ◌≡◌, refl, ap, ◌∙◌, Bool, true, Option, none, some, List, arith, ◌⊎◌,
  Bool-cases, inl, inr,
}
use cosnet.Prelude.Int.{ℤ, pos}
use cosnet.Config.{Config}
use cosnet.Sockets.State.{Socket, Sockets}
use cosnet.Sockets.Lifecycle.{is_valid_status, is_client, disconnect}
use cosnet.Sockets.Invariant.{Inv, valid_settled}
use cosnet.Sockets.Admission.{Ready}
use cosnet.Sockets.Reconnection.{Ended, disconnect-Reconnects}
use cosnet.Sockets.Dialing.{
  Dialled, reached, max_retry, cancelled, gives_up, after_dial, try_connect,
}
use cosnet.Sockets.Clients.{reconnect_after, try_reconnect}
use cosnet.Sockets.Clients.Tries.{options-disconnect}

module _ (dial : ℕ → Option ℕ) (stops : ℕ → Bool) (tries : ℕ) where
  -- A connection that some try within the limit made.
  abbrev pub Made : ℕ → Type 0
  Made conn = (k : ℕ) × (k < tries) × (dial k ≡ some conn)

  abbrev Outcome : Dialled → Type 0
  Outcome d = ((conn : ℕ) × Made conn × (d ≡ reached conn)) ⊎ ((d ≡ max_retry) ⊎ (d ≡ cancelled))

  module _ (options : Config) (limit : options.client_reconnect_max ≡ pos tries) where
    after_dial-Outcome :
        (o : Option ℕ) (k : ℕ) (later : Dialled × List ℤ)
        → dial k ≡ o
        → k < tries
        → Outcome later.0
        → Outcome (after_dial options dial stops o k later).0
    unfolding after_dial
    after_dial-Outcome (some conn) k later e lt h = inl (conn, (k, lt, e), refl)
    after_dial-Outcome none k later e lt h = elim (Bool-cases (stops k)) [
      | inl stop ↦ rw stop (inr (inr refl))
      | inr on ↦ rw on h
    ]

    try_connect-Outcome :
        (fuel k : ℕ)
        → k ≤ tries
        → tries < fuel + k
        → 0 < tries
        → Outcome (try_connect options dial stops fuel k).0
    unfolding try_connect
    try_connect-Outcome zero k within enough positive = absurd (omega arith)
    try_connect-Outcome (suc fuel) k within enough positive =
        elim (Bool-cases (gives_up options k)) [
          | inl e ↦ rw e (inr (inl refl))
          | inr e ↦
              (let lt : k < tries = ground (arith, limit, positive, e) in
                rw e (
                  after_dial-Outcome (dial k) k (try_connect options dial stops fuel (suc k)) refl
                    lt
                    (try_connect-Outcome fuel (suc k) (omega (arith, lt)) (omega (arith, enough))
                      positive)))
        ]

  -- The socket is ready on a connection that was made, or it has ended.
  abbrev pub Settles : ℕ → ℤ → Sockets → Type 0
  Settles id count w = ((conn : ℕ) × Made conn × Ready id conn w) ⊎ Ended id count w

  -- A client's socket whose status is valid, that is none, connected, or closing after a call of
  -- `Close`, is disconnected, in a manager with the invariant and a
  -- positive limit of tries. On fuel above the limit, whatever the network does and whenever the
  -- context ends, the goroutine of `tryReconnect` leaves the socket in the map, ready on a connection
  -- that a try within the limit made, or out of the map, released, with the counter one less.
  pub try_reconnect-Settles :
      (fuel id : ℕ) (w : Sockets)
      → Inv w
      → w.options.client_reconnect_max ≡ pos tries
      → 0 < tries
      → tries < fuel
      → is_valid_status (Socket.status (w.heap id)) ≡ true
      → is_client (w.heap id) ≡ true
      → Settles id w.count (try_reconnect dial stops fuel id (disconnect id w).0)
  unfolding try_reconnect reconnect_after
  try_reconnect-Settles fuel id w inv bounded positive enough valid client =
      ends (try_connect (Sockets.options (disconnect id w).0) dial stops fuel 0).0 (
        try_connect-Outcome (Sockets.options (disconnect id w).0)
          (ap Config.client_reconnect_max kept ∙ bounded) fuel 0 (omega arith)
          (omega (arith, enough)) positive)
    where
      kept : Sockets.options (disconnect id w).0 ≡ w.options
      kept = options-disconnect id w valid (valid_settled w id (inv.3 id) valid).0

      ends :
          (d : Dialled) → Outcome d → Settles id w.count (reconnect_after id d (disconnect id w).0)
      ends d (inl (conn, made, e)) =
          rw e (inl (conn, made, (disconnect-Reconnects id conn w inv valid client).0))
      ends d (inr (inl e)) = rw e (inr (disconnect-Reconnects id 0 w inv valid client).1)
      ends d (inr (inr e)) = rw e (inr (disconnect-Reconnects id 0 w inv valid client).1)
