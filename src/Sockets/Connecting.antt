-- ===== src/Sockets/Connecting.antt =====
-- The methods that bring a socket into the map, or back to a connection, keep the invariant.
use cosnet.Prelude.{
  ℕ, suc, ◌≡◌, refl, ap, subst, ◌&&◌, Bool, true, false, Option, none, some, ◌∷◌, arith, Bool-cases,
  inl, inr, Result, ok, err, panic,
}
use cosnet.Prelude.Int.{pos, ltb_ℤ, leb_ℤ}
use cosnet.Prelude.Bytes.{Bytes}
use cosnet.Config.{event_connected}
use cosnet.Sockets.State.{
  Status, status_none, status_connected, Stop, opened, Socket, Sockets, nothing, no_socket, member,
  remove, increment, set_socket, emit,
}
use cosnet.Sockets.Lists.{member-remove}
use cosnet.Sockets.Lifecycle.{connect, release, reconnect_done, create, connected_to}
use cosnet.Sockets.Frame.{
  update_at, Frame-trans, Frame-set_socket, Frame-emit, heap-emit, release-Gone,
}
use cosnet.Sockets.Invariant.{agrees, settled, Inv, InvBut}
use cosnet.Sockets.Preserved.{Frame-Inv, Gone-Inv}
use cosnet.Sockets.Touched.{address-Inv}

agrees_connected : agrees true false status_connected opened ≡ true
unfolding agrees
agrees_connected = refl

-- `connect` on a socket of the map that is not reconnecting.
connect-Inv :
    (id conn : ℕ) (w : Sockets)
    → member id w.sockets ≡ true
    → member id w.reconnecting ≡ false
    → InvBut id w
    → Inv (connect id conn w)
unfolding connect
connect-Inv id conn w m r but =
    let s = record (w.heap id) {
      conn = some conn;
      stop = opened;
      status = status_connected;
      heartbeat = pos 0;
    } in
    let w1 = set_socket id s w in
    Frame-Inv id w (emit event_connected id nothing w1)
      (Frame-trans id w w1 (emit event_connected id nothing w1) (Frame-set_socket id s w)
        (Frame-emit event_connected id nothing w1))
      (rw (heap-emit event_connected id nothing w1, update_at w.heap id s, m, r) agrees_connected)
      but

absent_agrees :
    (r : Bool) (status : Status) (stop : Stop) → agrees false r status stop ≡ true → r ≡ false
unfolding agrees
absent_agrees r status stop h = ground arith

reconnecting_agrees :
    (m : Bool) (status : Status) (stop : Stop) → agrees m true status stop ≡ true → m ≡ true
unfolding agrees
reconnecting_agrees m status stop h = ground arith

absent_settled :
    (w : Sockets) (id : ℕ)
    → settled w id ≡ true
    → member id w.sockets ≡ false
    → member id w.reconnecting ≡ false
unfolding settled
absent_settled w id h m =
    absent_agrees (member id w.reconnecting) (Socket.status (w.heap id)) (Socket.stop (w.heap id)) (
      subst
        (λ b.
          agrees b (member id w.reconnecting) (Socket.status (w.heap id)) (Socket.stop (w.heap id))
          ≡ true)
        m h)

reconnecting_settled :
    (w : Sockets) (id : ℕ)
    → settled w id ≡ true
    → member id w.reconnecting ≡ true
    → member id w.sockets ≡ true
unfolding settled
reconnecting_settled w id h m =
    reconnecting_agrees (member id w.sockets) (Socket.status (w.heap id)) (Socket.stop (w.heap id))
      (subst
        (λ b.
          agrees (member id w.sockets) b (Socket.status (w.heap id)) (Socket.stop (w.heap id))
          ≡ true)
        m h)

module _ (w : Sockets) (inv : Inv w) (conn : ℕ) where
  -- `Create` before it connects: the new socket is in the map.
  abbrev added : Sockets
  added = record (set_socket (suc w.index) (record no_socket { status = status_none }) w) {
    index = suc w.index;
    sockets = suc w.index ∷ w.sockets;
    count = increment w.count;
  }

  added-InvBut : InvBut (suc w.index) added
  unfolding member settled
  added-InvBut = (
    ap increment inv.0,
    (inv.2 (suc w.index) (omega arith), inv.1),
    (λ i lt. ground (arith, inv.2 i (omega (arith, lt)))),
    (λ i e. rw e (inv.3 i)),
  )

  added-Inv : Inv (connect (suc w.index) conn added)
  unfolding member
  added-Inv =
      connect-Inv (suc w.index) conn added (ground arith)
        (absent_settled w (suc w.index) (inv.3 (suc w.index)) (inv.2 (suc w.index) (omega arith)))
        added-InvBut

  pub create-Inv : (stopped : Bool) → Inv (create stopped conn w).0
  unfolding create settled
  create-Inv true = inv
  create-Inv false =
      elim (Bool-cases
        (ltb_ℤ (pos 0) w.options.connect_max_size && leb_ℤ w.options.connect_max_size w.count)) [
          | inl e ↦ rw e inv
          | inr e ↦ rw e added-Inv
        ]

module _ (w : Sockets) (inv : Inv w) where
  pub connected_to-Inv :
      (stopped : Bool) (address : Bytes) (conn : ℕ) → Inv (connected_to stopped address conn w).0
  unfolding connected_to
  connected_to-Inv stopped address conn =
      addressed ((create stopped conn w).0) ((create stopped conn w).1)
        (create-Inv w inv conn stopped)
    where
      addressed :
          (w1 : Sockets) (r : Result ℕ)
          → Inv w1
          → Inv
              (elim r as (λ r'. Sockets × Result ℕ) [
                | ok id ↦ (set_socket id (record (w1.heap id) { address = address }) w1, ok id)
                | err e ↦ (w1, err e)
                | panic ↦ (w1, panic)
              ]).0
      addressed w1 (ok id) inv1 = address-Inv id address w1 inv1
      addressed w1 (err e) inv1 = inv1
      addressed w1 panic inv1 = inv1

  -- The socket stops reconnecting, in the map still.
  abbrev resumed : ℕ → Sockets
  resumed id = record w { reconnecting = remove id w.reconnecting }

  resumed-InvBut : (id : ℕ) → InvBut id (resumed id)
  unfolding settled
  resumed-InvBut id =
      (inv.0, inv.1, inv.2, λ i e. rw (member-remove i id w.reconnecting, e) (inv.3 i))

  resumed-member : (id : ℕ) → member id (remove id w.reconnecting) ≡ false
  resumed-member id = ground (arith, member-remove id id w.reconnecting)

  pub reconnect_done-Inv : (id : ℕ) (result : Option ℕ) → Inv (reconnect_done id result w)
  unfolding reconnect_done
  reconnect_done-Inv id result = elim (Bool-cases (member id w.reconnecting)) [
    | inl e ↦ (let m = reconnecting_settled w id (inv.3 id) e in rw e (finish m result))
    | inr e ↦ rw e inv
  ]
    where
      finish :
          member id w.sockets ≡ true
          → (result : Option ℕ)
          → Inv (elim result [
            | some conn ↦ connect id conn (resumed id)
            | none ↦ release id (resumed id)
          ])
      finish m (some conn) =
          connect-Inv id conn (resumed id) m (resumed-member id) (resumed-InvBut id)
      finish m none =
          Gone-Inv id (resumed id) (release id (resumed id)) m (resumed-member id)
            (release-Gone id (resumed id)) (resumed-InvBut id)
