-- ===== src/Sockets/Touched.antt =====
-- The methods that keep the status of a socket, or change it from connected to closing.
use cosnet.Prelude.{
  ℕ, ◌≡◌, refl, ap, subst, ◌∙◌, ◌&&◌, Bool, true, false, Option, none, some, if◌then◌else◌, arith,
  Bool-cases, inl, inr,
}
use cosnet.Prelude.Int.{ℤ, pos, ltb_ℤ, add_int32, sub_int32}
use cosnet.Prelude.Bytes.{Bytes}
use cosnet.Config.{
  EventType, event_heartbeat, event_authentication, event_reconnected, event_replaced,
}
use cosnet.Sockets.State.{
  Status, status_closing, opened, Socket, Sockets, Attached, nothing, number, bool, text,
  set_socket, emit,
}
use cosnet.Sockets.Lifecycle.{
  is_valid_status, is_connected, disconnect, close, authentication, replaced, keep_alive, heartbeat,
}
use cosnet.Sockets.Frame.{update_at, Frame, Frame-set_socket, Frame-emit, heap-emit}
use cosnet.Sockets.Invariant.{agrees, settled, Inv, Inv-InvBut, valid_settled}
use cosnet.Sockets.Preserved.{Frame-Inv, disconnect-Inv}

-- Only fields other than the status and the channel `stop` change.
abbrev pub Touched : ℕ → Sockets → Sockets → Type 0
Touched id w w' =
    Frame id w w'
    × (Socket.status (w'.heap id) ≡ Socket.status (w.heap id))
    × (Socket.stop (w'.heap id) ≡ Socket.stop (w.heap id))

pub Touched-Inv : (id : ℕ) (w w' : Sockets) → Touched id w w' → Inv w → Inv w'
unfolding settled
Touched-Inv id w w' (f, status, stop) inv =
    Frame-Inv id w w' f (rw (status, stop) (inv.3 id)) (Inv-InvBut id w inv)

pub emit-Inv : (e : EventType) (id : ℕ) (a : Attached) (w : Sockets) → Inv w → Inv (emit e id a w)
emit-Inv e id a w = Touched-Inv id w (emit e id a w) (
  Frame-emit e id a w,
  ap (λ heap. Socket.status (heap id)) (heap-emit e id a w),
  ap (λ heap. Socket.stop (heap id)) (heap-emit e id a w),
)

pub set-Inv :
    (id : ℕ) (s : Socket) (w : Sockets)
    → s.status ≡ Socket.status (w.heap id)
    → s.stop ≡ Socket.stop (w.heap id)
    → Inv w
    → Inv (set_socket id s w)
set-Inv id s w status stop = Touched-Inv id w (set_socket id s w) (
  Frame-set_socket id s w,
  ap Socket.status (update_at w.heap id s) ∙ status,
  ap Socket.stop (update_at w.heap id s) ∙ stop,
)

pub address-Inv :
    (id : ℕ) (address : Bytes) (w : Sockets)
    → Inv w
    → Inv (set_socket id (record (w.heap id) { address = address }) w)
address-Inv id address w = set-Inv id (record (w.heap id) { address = address }) w refl refl

pub keep_alive-Inv : (id : ℕ) (w : Sockets) → Inv w → Inv (keep_alive id w)
unfolding keep_alive
keep_alive-Inv id w inv = elim (Bool-cases (is_connected (Socket.status (w.heap id)))) [
  | inl e ↦ rw e (set-Inv id (record (w.heap id) { heartbeat = pos 0 }) w refl refl inv)
  | inr e ↦ rw e inv
]

pub authentication-Inv :
    (id : ℕ) (v : Option ℕ) (reconnect : Bool) (w : Sockets)
    → Inv w
    → Inv (authentication id v reconnect w)
unfolding authentication
authentication-Inv id v reconnect w inv =
    let s = record (w.heap id) { session = v } in
    let w1 = emit event_authentication id (bool reconnect) (set_socket id s w) in
    let inv1 =
      emit-Inv event_authentication id (bool reconnect) (set_socket id s w)
        (set-Inv id s w refl refl inv) in
    elim (Bool-cases reconnect) [
      | inl e ↦ rw e (
          emit-Inv event_reconnected id nothing
            (emit event_authentication id (bool true) (set_socket id s w))
            (subst (λ b. Inv (emit event_authentication id (bool b) (set_socket id s w))) e inv1))
      | inr e ↦
          rw e (subst (λ b. Inv (emit event_authentication id (bool b) (set_socket id s w))) e inv1)
    ]

connected_is_valid : (s : Status) → is_connected s ≡ true → is_valid_status s ≡ true
unfolding is_valid_status
connected_is_valid s h = ground arith

agrees_closing : agrees true false status_closing opened ≡ true
unfolding agrees
agrees_closing = refl

pub close-Inv : (id : ℕ) (delay : Option ℤ) (w : Sockets) → Inv w → Inv (close id delay w)
unfolding close
close-Inv id delay w inv = elim (Bool-cases (is_connected (Socket.status (w.heap id)))) [
  | inl e ↦
      (let (o, m, r) =
          valid_settled w id (inv.3 id) (connected_is_valid (Socket.status (w.heap id)) e) in
        let limit = w.global.socket_connect_time in
        let s = record (w.heap id) {
          status = status_closing;
          heartbeat = elim delay [ none ↦ limit | some d ↦ sub_int32 limit d ];
        } in
        rw e (
          Frame-Inv id w (set_socket id s w) (Frame-set_socket id s w)
            (rw (update_at w.heap id s, m, r, o) agrees_closing) (Inv-InvBut id w inv)))
  | inr e ↦ rw e inv
]

pub replaced-Inv : (id : ℕ) (ip : Bytes) (w : Sockets) → Inv w → Inv (replaced id ip w)
unfolding replaced
replaced-Inv id ip w inv =
    let w1 = emit event_replaced id (text ip) w in
    let s = record (w1.heap id) { session = none } in
    let w2 = set_socket id s w1 in
    close-Inv id (some w2.global.socket_replaced_time) w2
      (set-Inv id s w1 refl refl (emit-Inv event_replaced id (text ip) w inv))

pub heartbeat-Inv : (v : ℤ) (id : ℕ) (w : Sockets) → Inv w → Inv (heartbeat v id w)
unfolding heartbeat
heartbeat-Inv v id w inv = elim (Bool-cases (is_valid_status (Socket.status (w.heap id)))) [
  | inl e ↦ rw e (beaten (add_int32 (Socket.heartbeat (w.heap id)) v))
  | inr e ↦ rw e inv
]
  where
    beaten :
        (beat : ℤ)
        → Inv (
            let w1 = set_socket id (record (w.heap id) { heartbeat = beat }) w in
            let limit = w.global.socket_connect_time in
            if ltb_ℤ (pos 0) limit && ltb_ℤ limit beat
            then (disconnect id w1).0
            else emit event_heartbeat id (number v) w1)
    beaten beat =
        let w1 = set_socket id (record (w.heap id) { heartbeat = beat }) w in
        let inv1 = set-Inv id (record (w.heap id) { heartbeat = beat }) w refl refl inv in
        elim (Bool-cases
          (ltb_ℤ (pos 0) w.global.socket_connect_time && ltb_ℤ w.global.socket_connect_time beat)) [
            | inl e ↦ rw e (disconnect-Inv id w1 inv1)
            | inr e ↦ rw e (emit-Inv event_heartbeat id (number v) w1 inv1)
          ]
