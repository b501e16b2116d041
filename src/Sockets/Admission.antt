-- ===== src/Sockets/Admission.antt =====
-- Which connections `Create` admits.
use cosnet.Prelude.{
  ℕ, suc, ◌<◌, ◌≤◌, ◌≡◌, refl, ap, ◌&&◌, Bool, true, false, some, List, ◌∷◌, arith, ◌⊎◌, Bool-cases,
  inl, inr, length, ok, err, server_closed, max_connections, leb,
}
use cosnet.Prelude.Int.{pos, ltb_ℤ, leb_ℤ}
use cosnet.Sockets.State.{
  status_none, status_connected, opened, Socket, Sockets, no_socket, member, increment, set_socket,
  emit,
}
use cosnet.Sockets.Lifecycle.{connect, create, get, is_ready}
use cosnet.Sockets.Frame.{update_at}
use cosnet.Sockets.Invariant.{Inv}

-- The map has the socket, which is ready and has the connection.
abbrev pub Ready : ℕ → ℕ → Sockets → Type 0
Ready id conn w =
    (s : Socket) × (get id w ≡ some s)
    × (is_ready s ≡ true)
    × (s.conn ≡ some conn)
    × (s.stop ≡ opened)

pub Ready-connect :
    (id conn : ℕ) (w : Sockets) → member id w.sockets ≡ true → Ready id conn (connect id conn w)
unfolding connect get is_ready emit
Ready-connect id conn w m =
    let s = record (w.heap id) {
      conn = some conn;
      stop = opened;
      status = status_connected;
      heartbeat = pos 0;
    } in
    (s, rw (m, update_at w.heap id s) refl, refl, refl, refl)

member_new : (id : ℕ) (xs : List ℕ) → member id (id ∷ xs) ≡ true
unfolding member
member_new id xs = ground arith

sockets-connect : (id conn : ℕ) (w : Sockets) → Sockets.sockets (connect id conn w) ≡ w.sockets
unfolding connect emit
sockets-connect id conn w = refl

abbrev is_full : Sockets → Bool
is_full w = ltb_ℤ (pos 0) w.options.connect_max_size && leb_ℤ w.options.connect_max_size w.count

abbrev admitted : Sockets → Sockets
admitted w = record (set_socket (suc w.index) (record no_socket { status = status_none }) w) {
  index = suc w.index;
  sockets = suc w.index ∷ w.sockets;
  count = increment w.count;
}

create_full :
    (w : Sockets) (conn : ℕ)
    → is_full w ≡ true
    → create false conn w ≡ (record w { closed_conns = conn ∷ w.closed_conns }, err max_connections)
unfolding create
create_full w conn full = rw full refl

create_room :
    (w : Sockets) (conn : ℕ)
    → is_full w ≡ false
    → create false conn w ≡ (connect (suc w.index) conn (admitted w), ok (suc w.index))
unfolding create
create_room w conn room = rw room refl

-- `Create` while the program runs.
pub create_running :
    (w : Sockets) (conn limit : ℕ)
    → Inv w
    → w.options.connect_max_size ≡ pos limit
    → 0 < limit
    → ((limit ≤ length w.sockets)
        × (create false conn w
            ≡ (record w { closed_conns = conn ∷ w.closed_conns }, err max_connections)))
      ⊎ ((length w.sockets < limit)
          × ((create false conn w).1 ≡ ok (suc w.index))
          × (length (Sockets.sockets (create false conn w).0) ≡ suc (length w.sockets))
          × Ready (suc w.index) conn (create false conn w).0)
create_running w conn limit inv max positive = elim (Bool-cases (leb limit (length w.sockets))) [
  | inl e ↦ inl (ground arith, create_full w conn (rw (max, inv.0) (ground arith)))
  | inr e ↦
      (let room = create_room w conn (rw (max, inv.0) (ground arith)) in
        inr (
          ground arith,
          rw room refl,
          rw room (ap length (sockets-connect (suc w.index) conn (admitted w))),
          rw room
              (Ready-connect (suc w.index) conn (admitted w) (member_new (suc w.index) w.sockets)),
        ))
]

-- In a manager with the invariant and a positive limit on the connections: where the program has
-- stopped, `Create` reports that and changes nothing, so that the connection stays open. While it
-- runs, `Create` closes the connection, reports the limit and changes nothing else where the map
-- has at least that many sockets; where it has fewer, the map is one larger and has the next id,
-- whose socket is ready on the connection.
pub create-Admitted :
    (stopped : Bool) (w : Sockets) (conn limit : ℕ)
    → Inv w
    → w.options.connect_max_size ≡ pos limit
    → 0 < limit
    → ((stopped ≡ true) × (create stopped conn w ≡ (w, err server_closed)))
      ⊎ (((stopped ≡ false)
            × (limit ≤ length w.sockets)
            × (create stopped conn w
                ≡ (record w { closed_conns = conn ∷ w.closed_conns }, err max_connections)))
          ⊎ ((stopped ≡ false)
              × (length w.sockets < limit)
              × ((create stopped conn w).1 ≡ ok (suc w.index))
              × (length (Sockets.sockets (create stopped conn w).0) ≡ suc (length w.sockets))
              × Ready (suc w.index) conn (create stopped conn w).0))
unfolding create
create-Admitted true w conn limit inv max positive = inl (refl, refl)
create-Admitted false w conn limit inv max positive =
    elim (create_running w conn limit inv max positive) [
      | inl (full, refused) ↦ inr (inl (refl, full, refused))
      | inr (room, made, longer, ready) ↦ inr (inr (refl, room, made, longer, ready))
    ]
