-- ===== src/Sockets/Graph/Steps.antt =====
-- Each method of the manager follows an edge, and uses no id of an earlier socket again.
use cosnet.Prelude.{
  ℕ, ◌≡◌, ◌≤◌, if◌then◌else◌, refl, ap, subst, sym, ◌∙◌, ◌&&◌, Bool, true, false, Option, none,
  some, ◌==◌, arith, Bool-cases, inl, inr,
}
use cosnet.Prelude.Int.{ℤ, pos, ltb_ℤ, add_int32, sub_int32}
use cosnet.Prelude.Bytes.{Bytes}
use cosnet.Config.{event_heartbeat, event_replaced}
use cosnet.Sockets.State.{
  Status, status_closing, status_connected, status_reconnecting, Stop, Socket, Sockets, opened,
  number, text, member, remove, set_socket, emit,
}
use cosnet.Sockets.Lifecycle.{
  is_valid_status, is_client, is_connected, connect, release, disconnect, reconnect_done, close,
  authentication, replaced, keep_alive, heartbeat,
}
use cosnet.Sockets.Frame.{update_at, update_off, Others, release-Gone}
use cosnet.Sockets.Disconnect.{disconnect_client, disconnect_server, disconnect_invalid}
use cosnet.Sockets.Invariant.{agrees, settled, Inv, valid_settled}
use cosnet.Sockets.Graph.{Moves, stays, closes, parks, resumes, gives_up, Moves-after, Moves-one}
use cosnet.Sockets.Graph

-- Every socket follows an edge, and the counter of ids does not go back.
abbrev pub Follows : Sockets → Sockets → Type 0
Follows w w' = (w.index ≤ w'.index) × ((i : ℕ) → i ≤ w.index → Moves (w.heap i) (w'.heap i))

Follows-one :
    (id : ℕ) (w w' : Sockets)
    → w'.index ≡ w.index
    → Others id w w'
    → Moves (w.heap id) (w'.heap id)
    → Follows w w'
Follows-one id w w' index others moved =
    (omega (arith, index), λ i le. Moves-one id w w' others moved i)

pub Follows-refl : (w : Sockets) → Follows w w
Follows-refl w = (omega arith, λ i le. stays refl)

-- A change of fields other than the status.
pub set_socket-Follows :
    (id : ℕ) (s : Socket) (w : Sockets) → Moves (w.heap id) s → Follows w (set_socket id s w)
set_socket-Follows id s w moved =
    Follows-one id w (set_socket id s w) refl (update_off w.heap id s)
      (rw (update_at w.heap id s) moved)

pub disconnect-Follows :
    (id : ℕ) (w : Sockets)
    → (is_valid_status (Socket.status (w.heap id)) ≡ true → Socket.stop (w.heap id) ≡ opened)
    → Follows w (disconnect id w).0
disconnect-Follows id w open_stop =
    elim (Bool-cases (is_valid_status (Socket.status (w.heap id)))) [
      | inl v ↦ elim (Bool-cases (is_client (w.heap id))) [
        | inl c ↦
            (let (count, sockets, index, again, others, status, stop) =
                (disconnect_client id w v (open_stop v) c).0 in
              Follows-one id w (disconnect id w).0 index others (parks v c status))
        | inr c ↦
            (let (count, sockets, index, again, others, status) =
                (disconnect_server id w v (open_stop v) c).0 in
              Follows-one id w (disconnect id w).0 index others (Graph.ends v c status))
      ]
      | inr v ↦ rw (disconnect_invalid id w v) (Follows-refl w)
    ]

reconnecting_status :
    (m : Bool) (status : Status) (stop : Stop)
    → agrees m true status stop ≡ true
    → status ≡ status_reconnecting
unfolding agrees
reconnecting_status m status stop h = ground arith

status_of_reconnecting :
    (w : Sockets) (id : ℕ)
    → settled w id ≡ true
    → member id w.reconnecting ≡ true
    → Socket.status (w.heap id) ≡ status_reconnecting
unfolding settled
status_of_reconnecting w id h m =
    reconnecting_status (member id w.sockets) (Socket.status (w.heap id)) (Socket.stop (w.heap id))
      (subst
        (λ b.
          agrees (member id w.sockets) b (Socket.status (w.heap id)) (Socket.stop (w.heap id))
          ≡ true)
        m h)

pub reconnect_done-Follows :
    (id : ℕ) (result : Option ℕ) (w : Sockets) → Inv w → Follows w (reconnect_done id result w)
unfolding reconnect_done connect emit
reconnect_done-Follows id result w inv = elim (Bool-cases (member id w.reconnecting)) [
  | inl m ↦ rw m (finish (status_of_reconnecting w id (inv.3 id) m) result)
  | inr m ↦ rw m (Follows-refl w)
]
  where
    finish :
        Socket.status (w.heap id) ≡ status_reconnecting
        → (result : Option ℕ)
        → Follows w (
            let w' = record w { reconnecting = remove id w.reconnecting } in
            elim result [ some conn ↦ connect id conn w' | none ↦ release id w' ])
    finish status (some conn) =
        let w' = record w { reconnecting = remove id w.reconnecting } in
        let s = record (w.heap id) {
          conn = some conn;
          stop = opened;
          status = status_connected;
          heartbeat = pos 0;
        } in
        Follows-one id w (connect id conn w') refl (update_off w.heap id s)
          (rw (update_at w.heap id s) (resumes status refl))
    finish status none =
        let w' = record w { reconnecting = remove id w.reconnecting } in
        let (count, sockets, index, again, others, ended) = release-Gone id w' in
        Follows-one id w (release id w') index others (gives_up status ended)

connected_status : (s : Status) → is_connected s ≡ true → s ≡ status_connected
connected_status s h = ground arith

pub close-Follows : (id : ℕ) (delay : Option ℤ) (w : Sockets) → Follows w (close id delay w)
unfolding close
close-Follows id delay w = elim (Bool-cases (is_connected (Socket.status (w.heap id)))) [
  | inl e ↦
      (let limit = w.global.socket_connect_time in
        let s = record (w.heap id) {
          status = status_closing;
          heartbeat = elim delay [ none ↦ limit | some d ↦ sub_int32 limit d ];
        } in
        rw e (
          set_socket-Follows id s w (closes (connected_status (Socket.status (w.heap id)) e) refl)))
  | inr e ↦ rw e (Follows-refl w)
]

pub keep_alive-Follows : (id : ℕ) (w : Sockets) → Follows w (keep_alive id w)
unfolding keep_alive
keep_alive-Follows id w = elim (Bool-cases (is_connected (Socket.status (w.heap id)))) [
  | inl e ↦ rw e (set_socket-Follows id (record (w.heap id) { heartbeat = pos 0 }) w (stays refl))
  | inr e ↦ rw e (Follows-refl w)
]

pub authentication-Follows :
    (id : ℕ) (v : Option ℕ) (again : Bool) (w : Sockets) → Follows w (authentication id v again w)
unfolding authentication emit
authentication-Follows id v true w =
    set_socket-Follows id (record (w.heap id) { session = v }) w (stays refl)
authentication-Follows id v false w =
    set_socket-Follows id (record (w.heap id) { session = v }) w (stays refl)

-- After a change of the fields of `id` that leave its status, its type and the counter.
Follows-after :
    (id : ℕ) (s : Socket) (w w' : Sockets)
    → s.status ≡ Socket.status (w.heap id)
    → is_client s ≡ is_client (w.heap id)
    → Follows (set_socket id s w) w'
    → Follows w w'
Follows-after id s w w' same kind (more, moved) = (
  more,
  λ i le. elim (Bool-cases (id == i)) [
    | inl e ↦
        (let eq : id ≡ i = ground arith in
          let at : update_heap id s w i ≡ s =
            ap (update_heap id s w) (sym eq) ∙ update_at w.heap id s in
          Moves-after (w.heap i) (update_heap id s w i) (w'.heap i)
            (ap Socket.status at ∙ same ∙ ap (λ k. Socket.status (w.heap k)) eq)
            (ap is_client at ∙ kind ∙ ap (λ k. is_client (w.heap k)) eq) (moved i le))
    | inr e ↦
        (let off = update_off w.heap id s i e in
          Moves-after (w.heap i) (update_heap id s w i) (w'.heap i) (ap Socket.status off)
            (ap is_client off) (moved i le))
  ],
)
  where
    update_heap : ℕ → Socket → Sockets → ℕ → Socket
    update_heap id s w = Sockets.heap (set_socket id s w)

pub replaced-Follows : (id : ℕ) (ip : Bytes) (w : Sockets) → Follows w (replaced id ip w)
unfolding replaced emit is_client
replaced-Follows id ip w =
    let w1 = emit event_replaced id (text ip) w in
    let s = record (w.heap id) { session = none } in
    let w2 = set_socket id s w1 in
    Follows-after id s w1 (replaced id ip w) refl refl
      (close-Follows id (some w2.global.socket_replaced_time) w2)

pub heartbeat-Follows : (v : ℤ) (id : ℕ) (w : Sockets) → Inv w → Follows w (heartbeat v id w)
unfolding heartbeat emit is_client
heartbeat-Follows v id w inv = elim (Bool-cases (is_valid_status (Socket.status (w.heap id)))) [
  | inl valid ↦ rw valid (beaten valid (add_int32 (Socket.heartbeat (w.heap id)) v))
  | inr e ↦ rw e (Follows-refl w)
]
  where
    beaten :
        is_valid_status (Socket.status (w.heap id)) ≡ true
        → (beat : ℤ)
        → Follows w (
            let w1 = set_socket id (record (w.heap id) { heartbeat = beat }) w in
            let limit = w.global.socket_connect_time in
            if ltb_ℤ (pos 0) limit && ltb_ℤ limit beat
            then (disconnect id w1).0
            else emit event_heartbeat id (number v) w1)
    beaten valid beat =
        let s = record (w.heap id) { heartbeat = beat } in
        let w1 = set_socket id s w in
        elim (Bool-cases
          (ltb_ℤ (pos 0) w.global.socket_connect_time && ltb_ℤ w.global.socket_connect_time beat)) [
            | inl e ↦ rw e (
                Follows-after id s w (disconnect id w1).0 refl refl (
                  disconnect-Follows id w1 (λ _.
                    ap Socket.stop (update_at w.heap id s)
                    ∙ (valid_settled w id (inv.3 id) valid).0)))
            | inr e ↦ rw e (set_socket-Follows id s w (stays refl))
          ]
