-- ===== src/Sockets/Clients/Tries.antt =====
-- A client that connects, or connects again, at one of its tries.
use cosnet.Prelude.{
  ℕ, zero, suc, ◌+◌, ◌<◌, ◌≡◌, refl, ap, sym, subst, ◌∙◌, Bool, true, false, Option, none, some,
  arith, if◌then◌else◌, inl, inr, length, Result, ok, err, panic,
}
use cosnet.Prelude.Int.{pos}
use cosnet.Prelude.Bytes.{Bytes}
use cosnet.Config.{Config}
use cosnet.Message.Read.{is_empty}
use cosnet.Sockets.State.{
  status_disconnect, opened, closed, Socket, Sockets, member, set_socket, emit,
}
use cosnet.Sockets.Lifecycle.{
  is_valid_status, is_client, create, connected_to, disconnect, settle, release, close_conn, get,
  is_ready,
}
use cosnet.Sockets.Frame.{update_at}
use cosnet.Sockets.Disconnect.{disconnect-ended, ended}
use cosnet.Sockets.Invariant.{Inv, valid_settled}
use cosnet.Sockets.Connecting.{connected_to-Inv}
use cosnet.Sockets.Admission.{Ready, create_running}
use cosnet.Sockets.Reconnection.{disconnect-Reconnects}
use cosnet.Sockets.Dialing.{reached, gives_up, after_dial, try_connect}
use cosnet.Sockets.Clients.{after_try_connect, reconnect_after, connect_to, try_reconnect}

module _ (options : Config) (dial : ℕ → Option ℕ) (stops : ℕ → Bool) (tries : ℕ)
    (limit : options.client_reconnect_max ≡ pos tries) where
  -- The `n`-th try from try `j` on is the first that connects.
  try_connect-reached :
      (conn n fuel j : ℕ)
      → n + j < tries
      → n < fuel
      → dial (n + j) ≡ some conn
      → ((i : ℕ) → i < n + j → (dial i ≡ none) × (stops i ≡ false))
      → (try_connect options dial stops fuel j).0 ≡ reached conn
  unfolding try_connect after_dial
  try_connect-reached conn n zero j within enough here before = absurd (omega arith)
  try_connect-reached conn zero (suc fuel) j within enough here before =
      (let more : gives_up options j ≡ false = ground (arith, limit, within) in
        let e : j ≡ 0 + j = omega arith in
        let first : dial j ≡ some conn = ap dial e ∙ here in rw (more, first) refl)
  try_connect-reached conn (suc n) (suc fuel) j within enough here before =
      (let more : gives_up options j ≡ false = ground (arith, limit, within) in
        let (silent, quiet) = before j (omega arith) in
        let e : n + suc j ≡ suc n + j = omega arith in
        rw (more, silent, quiet)
          (try_connect-reached conn n fuel (suc j) (omega (arith, within)) (omega (arith, enough))
            (ap dial e ∙ here) (λ i h. before i (omega (arith, h)))))

-- `Connect` made the socket of the next id: it is a client's, ready on the connection, in a manager
-- with the invariant whose map is one larger.
abbrev pub Connects : ℕ → Sockets → Option (Sockets × Result ℕ) → Type 0
Connects conn w r =
    (w' : Sockets) × (r ≡ some (w', ok (suc w.index)))
    × Inv w'
    × (length w'.sockets ≡ suc (length w.sockets))
    × Ready (suc w.index) conn w'
    × (is_client (w'.heap (suc w.index)) ≡ true)

connected_to_ok :
    (stopped : Bool) (address : Bytes) (conn id : ℕ) (w : Sockets)
    → (create stopped conn w).1 ≡ ok id
    → connected_to stopped address conn w ≡ (
        let w1 = (create stopped conn w).0 in
        (set_socket id (record (w1.heap id) { address = address }) w1, ok id))
unfolding connected_to
connected_to_ok stopped address conn id w made =
    addressed (create stopped conn w).0 (create stopped conn w).1 made
  where
    addressed :
        (w1 : Sockets) (r : Result ℕ)
        → r ≡ ok id
        → elim r as (λ r'. Sockets × Result ℕ) [
          | ok i ↦ (set_socket i (record (w1.heap i) { address = address }) w1, ok i)
          | err e ↦ (w1, err e)
          | panic ↦ (w1, panic)
        ]
          ≡ (set_socket id (record (w1.heap id) { address = address }) w1, ok id)
    addressed w1 r e = rw e refl

looked_up :
    (b : Bool) (s s' : Socket) → (if b then some s else none) ≡ some s' → (b ≡ true) × (s ≡ s')
looked_up true s s' e = (refl, cc)
looked_up false s s' e = absurd (cc)

Ready-address :
    (id conn : ℕ) (address : Bytes) (w : Sockets)
    → Ready id conn w
    → Ready id conn (set_socket id (record (w.heap id) { address = address }) w)
unfolding get is_ready
Ready-address id conn address w (s, here, ready, held, running) =
    let s' = record (w.heap id) { address = address } in
    let (mapped, same) = looked_up (member id w.sockets) (w.heap id) s here in
    (
      s',
      rw (mapped, update_at w.heap id s') refl,
      ap is_ready same ∙ ready,
      ap Socket.conn same ∙ held,
      ap Socket.stop same ∙ running,
    )

client_address :
    (id : ℕ) (address : Bytes) (w : Sockets)
    → is_empty address ≡ false
    → is_client (Sockets.heap (set_socket id (record (w.heap id) { address = address }) w) id)
      ≡ true
unfolding is_client
client_address id address w filled =
    ap is_client (update_at w.heap id (record (w.heap id) { address = address })) ∙ rw filled refl

options-settle : (id : ℕ) (w : Sockets) → Sockets.options (settle id w).0 ≡ w.options
unfolding settle release is_client
options-settle id w = ground arith

options-close_conn :
    (c : Option ℕ) (id : ℕ) (w : Sockets) → Sockets.options (close_conn c id w) ≡ w.options
unfolding close_conn
options-close_conn none id w = refl
options-close_conn (some c) id w = refl

pub options-disconnect :
    (id : ℕ) (w : Sockets)
    → is_valid_status (Socket.status (w.heap id)) ≡ true
    → Socket.stop (w.heap id) ≡ opened
    → Sockets.options (disconnect id w).0 ≡ w.options
unfolding emit
options-disconnect id w v o =
    let w0 = set_socket id (record (w.heap id) { status = status_disconnect }) w in
    let w1 = set_socket id (record (w0.heap id) { stop = closed }) w0 in
    ap (λ p. Sockets.options p.0) (disconnect-ended id w v o)
    ∙ options-settle id (ended id w)
    ∙ options-close_conn (Socket.conn (w1.heap id)) id w1

module _ (dial : ℕ → Option ℕ) (stops : ℕ → Bool) (tries fuel conn k : ℕ) (within : k < tries)
    (enough : k < fuel) (here : dial k ≡ some conn)
    (before : (i : ℕ) → i < k → (dial i ≡ none) × (stops i ≡ false)) where
  reached_at :
      (options : Config)
      → options.client_reconnect_max ≡ pos tries
      → (try_connect options dial stops fuel 0).0 ≡ reached conn
  reached_at options limit =
      (let e : k ≡ k + 0 = omega arith in
        try_connect-reached options dial stops tries limit conn k fuel 0 (omega (arith, within))
          enough (ap dial (sym e) ∙ here) (λ i h. before i (omega (arith, h))))

  -- The network connects at try `k` of `tryConnect`, which is within the limit of tries, and not
  -- before, and the context does not end in a wait before it. On fuel above `k`, in a manager with
  -- the invariant whose limit on the connections is not reached, and while the program runs,
  -- `Connect` of an address that is not empty returns the socket of the next id: it is in the map,
  -- which is one larger, ready on the connection, and a client's, and the invariant holds.
  pub connect_to-Connects :
      (address : Bytes) (limit : ℕ) (w : Sockets)
      → Inv w
      → w.options.client_reconnect_max ≡ pos tries
      → w.options.connect_max_size ≡ pos limit
      → length w.sockets < limit
      → is_empty address ≡ false
      → Connects conn w (connect_to dial stops fuel false address w)
  unfolding connect_to after_try_connect
  connect_to-Connects address limit w inv bounded sized room filled =
      (let positive : 0 < limit = omega (arith, room) in
        elim (create_running w conn limit inv sized positive) [
          | inl (full, e) ↦ absurd (omega (arith, room, full))
          | inr (more, made, larger, ready) ↦
              (let w1 = (create false conn w).0 in
                let id = suc w.index in
                let s = record (w1.heap id) { address = address } in
                let e = connected_to_ok false address conn id w made in
                (
                  set_socket id s w1,
                  ap (λ d. after_try_connect false address d w) (reached_at w.options bounded)
                      ∙ ap some e,
                  subst Inv (ap (λ p. p.0) e) (connected_to-Inv w inv false address conn),
                  larger,
                  Ready-address id conn address w1 ready,
                  client_address id address w1 filled,
                ))
        ])

  -- A client's socket whose status is valid, that is none, connected, or closing after a call of
  -- `Close`, is disconnected, in a manager with the invariant, and the
  -- network connects at try `k`, which is within the limit of tries, and not before, and the context
  -- does not end in a wait before it. On fuel above `k`, the goroutine of `tryReconnect` leaves the
  -- socket, also one on which `Close` was called, in the map, ready on the connection of that try, with an open channel.
  pub try_reconnect-Ready :
      (id : ℕ) (w : Sockets)
      → Inv w
      → w.options.client_reconnect_max ≡ pos tries
      → is_valid_status (Socket.status (w.heap id)) ≡ true
      → is_client (w.heap id) ≡ true
      → Ready id conn (try_reconnect dial stops fuel id (disconnect id w).0)
  unfolding try_reconnect reconnect_after
  try_reconnect-Ready id w inv bounded valid client =
      let w1 = (disconnect id w).0 in
      let (running, mapped, quiet) = valid_settled w id (inv.3 id) valid in
      let kept = options-disconnect id w valid running in
      let limit = ap Config.client_reconnect_max kept ∙ bounded in
      rw (reached_at w1.options limit) (disconnect-Reconnects id conn w inv valid client).0
