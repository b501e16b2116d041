-- ===== src/Sockets/Disconnect.antt =====
-- `disconnect` from its compare-and-swap to its end.
use cosnet.Prelude.{ℕ, ◌≡◌, refl, ap, true, false, ◌∙◌}
use cosnet.Config.{event_disconnect}
use cosnet.Sockets.State.{
  status_disconnect, opened, closed, Socket, Sockets, nothing, set_socket, emit,
}
use cosnet.Sockets.Lifecycle.{
  is_valid_status, is_client, close_conn, settle, stop_and_settle, disconnect,
}
use cosnet.Sockets.Frame.{
  update_at, Frame, Frame-trans, Frame-set_socket, Frame-emit, heap-emit, Frame-close_conn,
  close_conn_keeps, Gone, Parked, Gone-after, Parked-after, settle_client, settle_server,
}

-- The state in which `disconnect` looks at the type of the socket: the channel is closed, the
-- connection too, and the event is out.
abbrev pub ended : ℕ → Sockets → Sockets
ended id w =
    let w0 = set_socket id (record (w.heap id) { status = status_disconnect }) w in
    let w1 = set_socket id (record (w0.heap id) { stop = closed }) w0 in
    emit event_disconnect id nothing (close_conn (Socket.conn (w1.heap id)) id w1)

pub disconnect-ended :
    (id : ℕ) (w : Sockets)
    → is_valid_status (Socket.status (w.heap id)) ≡ true
    → Socket.stop (w.heap id) ≡ opened
    → disconnect id w ≡ settle id (ended id w)
unfolding disconnect stop_and_settle
disconnect-ended id w v o =
    let w0 = set_socket id (record (w.heap id) { status = status_disconnect }) w in
    first ∙ ap (λ stop. stop_and_settle stop id w0) o
  where
    first :
        disconnect id w
        ≡ stop_and_settle
            (Socket.stop (w.heap id))
            id
            (set_socket id (record (w.heap id) { status = status_disconnect }) w)
    first = rw v refl

pub Frame-ended :
    (id : ℕ) (w : Sockets)
    → Frame id w (ended id w)
      × (Socket.stop (Sockets.heap (ended id w) id) ≡ closed)
      × (Socket.address (Sockets.heap (ended id w) id) ≡ Socket.address (w.heap id))
Frame-ended id w =
    let w0 = set_socket id (record (w.heap id) { status = status_disconnect }) w in
    let w1 = set_socket id (record (w0.heap id) { stop = closed }) w0 in
    let c = Socket.conn (w1.heap id) in
    let w2 = close_conn c id w1 in
    let first =
      Frame-trans id w w0 w1
        (Frame-set_socket id (record (w.heap id) { status = status_disconnect }) w)
        (Frame-set_socket id (record (w0.heap id) { stop = closed }) w0) in
    let keeps = close_conn_keeps c id w1 in
    let at0 = update_at w.heap id (record (w.heap id) { status = status_disconnect }) in
    let at1 = update_at w0.heap id (record (w0.heap id) { stop = closed }) in
    (
      Frame-trans id w w2 (ended id w) (Frame-trans id w w1 w2 first (Frame-close_conn c id w1))
          (Frame-emit event_disconnect id nothing w2),
      rw (heap-emit event_disconnect id nothing w2) (keeps.0 ∙ ap Socket.stop at1),
      rw (heap-emit event_disconnect id nothing w2)
          (keeps.1 ∙ ap Socket.address at1 ∙ ap Socket.address at0),
    )

-- `disconnect` of a client's socket with a valid status and an open channel keeps it in the map and
-- in the counter, with the status reconnecting, its channel closed and its goroutine started; no
-- other socket changes, and the result is false.
pub disconnect_client :
    (id : ℕ) (w : Sockets)
    → is_valid_status (Socket.status (w.heap id)) ≡ true
    → Socket.stop (w.heap id) ≡ opened
    → is_client (w.heap id) ≡ true
    → Parked id w ((disconnect id w).0) × ((disconnect id w).1 ≡ false)
unfolding is_client
disconnect_client id w v o c =
    let (f, s, a) = Frame-ended id w in
    let (p, r) = settle_client id (ended id w) s (rw a c) in
    rw (disconnect-ended id w v o)
      (Parked-after id w (ended id w) (settle id (ended id w)).0 f p, r)

-- `disconnect` of a server's socket with a valid status and an open channel takes it out of the map
-- and the counter, with the status released; no other socket changes, and the result is true.
pub disconnect_server :
    (id : ℕ) (w : Sockets)
    → is_valid_status (Socket.status (w.heap id)) ≡ true
    → Socket.stop (w.heap id) ≡ opened
    → is_client (w.heap id) ≡ false
    → Gone id w ((disconnect id w).0) × ((disconnect id w).1 ≡ true)
unfolding is_client
disconnect_server id w v o c =
    let (f, s, a) = Frame-ended id w in
    let (p, r) = settle_server id (ended id w) (rw a c) in
    rw (disconnect-ended id w v o) (Gone-after id w (ended id w) (settle id (ended id w)).0 f p, r)

-- Any other status: nothing happens.
pub disconnect_invalid :
    (id : ℕ) (w : Sockets)
    → is_valid_status (Socket.status (w.heap id)) ≡ false
    → disconnect id w ≡ (w, false)
unfolding disconnect
disconnect_invalid id w v = rw v refl
