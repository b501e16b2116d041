-- ===== src/Sockets/Frame.antt =====
-- What the methods of a socket leave alone: the map, the counter and every other socket.
use cosnet.Prelude.{ℕ, ◌≡◌, refl, ap, true, false, Option, none, some, [], ◌∷◌, ◌==◌, arith, ◌∙◌}
use cosnet.Sockets.State.{
  status_disconnected, status_reconnecting, status_released, closed, Socket, Sockets, Attached,
  remove, update, decrement, set_socket, emit,
}
use cosnet.Sockets.Lifecycle.{is_client, release, close_conn, settle}
use cosnet.Config.{EventType}

pub update_at : (heap : ℕ → Socket) (id : ℕ) (s : Socket) → update heap id s id ≡ s
update_at heap id s = ground arith

pub update_off :
    (heap : ℕ → Socket) (id : ℕ) (s : Socket) (i : ℕ)
    → (id == i) ≡ false
    → update heap id s i ≡ heap i
update_off heap id s i e = rw e refl

-- The other sockets.
abbrev pub Others : ℕ → Sockets → Sockets → Type 0
Others id w w' = (i : ℕ) → (id == i) ≡ false → w'.heap i ≡ w.heap i

-- All but the socket `id` and what is recorded of the past.
abbrev pub Frame : ℕ → Sockets → Sockets → Type 0
Frame id w w' =
    (w'.count ≡ w.count)
    × (w'.sockets ≡ w.sockets)
    × (w'.index ≡ w.index)
    × (w'.reconnecting ≡ w.reconnecting)
    × Others id w w'

pub Frame-trans : (id : ℕ) (w w' w'' : Sockets) → Frame id w w' → Frame id w' w'' → Frame id w w''
Frame-trans id w w' w'' (a, b, c, d, e) (a', b', c', d', e') =
    (a' ∙ a, b' ∙ b, c' ∙ c, d' ∙ d, λ i h. e' i h ∙ e i h)

pub Frame-set_socket : (id : ℕ) (s : Socket) (w : Sockets) → Frame id w (set_socket id s w)
Frame-set_socket id s w = (refl, refl, refl, refl, update_off w.heap id s)

pub Frame-emit : (e : EventType) (id : ℕ) (a : Attached) (w : Sockets) → Frame id w (emit e id a w)
unfolding emit
Frame-emit e id a w = (refl, refl, refl, refl, λ i h. refl)

pub heap-emit :
    (e : EventType) (id : ℕ) (a : Attached) (w : Sockets) → Sockets.heap (emit e id a w) ≡ w.heap
unfolding emit
heap-emit e id a w = refl

pub Frame-close_conn : (c : Option ℕ) (id : ℕ) (w : Sockets) → Frame id w (close_conn c id w)
unfolding close_conn
Frame-close_conn none id w = (refl, refl, refl, refl, λ i h. refl)
Frame-close_conn (some c) id w =
    (refl, refl, refl, refl, update_off w.heap id (record (w.heap id) { conn = none }))

-- The fields of the socket that closing its connection leaves.
pub close_conn_keeps :
    (c : Option ℕ) (id : ℕ) (w : Sockets)
    → (Socket.stop (Sockets.heap (close_conn c id w) id) ≡ Socket.stop (w.heap id))
      × (Socket.address (Sockets.heap (close_conn c id w) id) ≡ Socket.address (w.heap id))
unfolding close_conn
close_conn_keeps none id w = (refl, refl)
close_conn_keeps (some c) id w = (
  ap Socket.stop (update_at w.heap id (record (w.heap id) { conn = none })),
  ap Socket.address (update_at w.heap id (record (w.heap id) { conn = none })),
)

-- The socket was taken out of the map and has ended.
abbrev pub Gone : ℕ → Sockets → Sockets → Type 0
Gone id w w' =
    (w'.count ≡ decrement w.count)
    × (w'.sockets ≡ remove id w.sockets)
    × (w'.index ≡ w.index)
    × (w'.reconnecting ≡ w.reconnecting)
    × Others id w w'
    × (Socket.status (w'.heap id) ≡ status_released)

-- The socket stays in the map, and the goroutine that reconnects it runs.
abbrev pub Parked : ℕ → Sockets → Sockets → Type 0
Parked id w w' =
    (w'.count ≡ w.count)
    × (w'.sockets ≡ w.sockets)
    × (w'.index ≡ w.index)
    × (w'.reconnecting ≡ id ∷ w.reconnecting)
    × Others id w w'
    × (Socket.status (w'.heap id) ≡ status_reconnecting)
    × (Socket.stop (w'.heap id) ≡ closed)

pub release-Gone : (id : ℕ) (w : Sockets) → Gone id w (release id w)
unfolding release
release-Gone id w = (
  refl,
  refl,
  refl,
  refl,
  update_off w.heap id
      (record (w.heap id) { status = status_released; session = none; cwrite = [] }),
  ap Socket.status (
      update_at w.heap id
        (record (w.heap id) { status = status_released; session = none; cwrite = [] })),
)

pub Gone-after : (id : ℕ) (w w' w'' : Sockets) → Frame id w w' → Gone id w' w'' → Gone id w w''
Gone-after id w w' w'' (a, b, c, d, e) (a', b', c', d', e', f) =
    (a' ∙ ap decrement a, b' ∙ ap (remove id) b, c' ∙ c, d' ∙ d, (λ i h. e' i h ∙ e i h), f)

pub Parked-after :
    (id : ℕ) (w w' w'' : Sockets) → Frame id w w' → Parked id w' w'' → Parked id w w''
Parked-after id w w' w'' (a, b, c, d, e) (a', b', c', d', e', f, g) =
    (a' ∙ a, b' ∙ b, c' ∙ c, d' ∙ ap (◌∷◌ id) d, (λ i h. e' i h ∙ e i h), f, g)

pub settle_client :
    (id : ℕ) (w : Sockets)
    → Socket.stop (w.heap id) ≡ closed
    → is_client (w.heap id) ≡ true
    → (Parked id w ((settle id w).0)) × ((settle id w).1 ≡ false)
unfolding settle
settle_client id w o c = rw c (
  (
    refl,
    refl,
    refl,
    refl,
    update_off w.heap id (record (w.heap id) { status = status_reconnecting }),
    ap Socket.status (update_at w.heap id (record (w.heap id) { status = status_reconnecting })),
    (ap Socket.stop (update_at w.heap id (record (w.heap id) { status = status_reconnecting }))
        ∙ o),
  ),
  refl,
)

pub settle_server :
    (id : ℕ) (w : Sockets)
    → is_client (w.heap id) ≡ false
    → (Gone id w ((settle id w).0)) × ((settle id w).1 ≡ true)
unfolding settle
settle_server id w c = rw c (
  Gone-after id w (set_socket id (record (w.heap id) { status = status_disconnected }) w)
      (release id (set_socket id (record (w.heap id) { status = status_disconnected }) w))
      (Frame-set_socket id (record (w.heap id) { status = status_disconnected }) w)
      (release-Gone id (set_socket id (record (w.heap id) { status = status_disconnected }) w)),
  refl,
)
