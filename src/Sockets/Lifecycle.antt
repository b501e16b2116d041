-- ===== src/Sockets/Lifecycle.antt =====
-- The methods of socket.go and sockets.go that make, keep and end connections.
use cosnet.Prelude.{
  ℕ, suc, Bool, true, false, ◌&&◌, not, Option, none, some, List, [], ◌∷◌, ◌++◌, Result, ok, err,
  panic, if◌then◌else◌, server_closed, max_connections,
}
use cosnet.Prelude.Int.{ℤ, pos, ltb_ℤ, leb_ℤ, add_int32, sub_int32}
use cosnet.Prelude.Bytes.{Bytes}
use cosnet.Config.{
  event_heartbeat, event_connected, event_reconnected, event_disconnect, event_authentication,
  event_replaced,
}
use cosnet.Message.Read.{is_empty}
use cosnet.Sockets.State.{
  Status, status_none, status_connected, status_closing, status_disconnect, status_disconnected,
  status_reconnecting, status_released, Stop, opened, closed, Socket, Sockets, nothing, number,
  bool, text, no_socket, member, remove, increment, decrement, set_socket, emit,
}

-- `isValidStatus`
unfoldable pub is_valid_status : Status → Bool
is_valid_status status_none = true
is_valid_status status_connected = true
is_valid_status status_closing = true
is_valid_status _ = false

abbrev pub is_connected : Status → Bool
is_connected status_connected = true
is_connected _ = false

-- `IsReady()`
unfoldable pub is_ready : Socket → Bool
is_ready s = is_connected s.status

-- `Type()` is the client's where an address is set.
unfoldable pub is_client : Socket → Bool
is_client s = not (is_empty s.address)

-- `connect`: the connection is in place, and the two goroutines start.
unfoldable pub connect : ℕ → ℕ → Sockets → Sockets
connect id conn w = emit event_connected id nothing (
    set_socket id
      (record (w.heap id) {
        conn = some conn;
        stop = opened;
        status = status_connected;
        heartbeat = pos 0;
      })
      w)

-- `release`: the queued messages are released too.
unfoldable pub release : ℕ → Sockets → Sockets
release id w =
    record (set_socket id
      (record (w.heap id) { status = status_released; session = none; cwrite = [] }) w) {
        count = decrement w.count;
        sockets = remove id w.sockets;
        recycled = w.recycled ++ Socket.cwrite (w.heap id);
      }

-- `sock.conn.Close()` and `sock.conn = nil`
unfoldable pub close_conn : Option ℕ → ℕ → Sockets → Sockets
close_conn none id w = w
close_conn (some conn) id w = record (set_socket id (record (w.heap id) { conn = none }) w) {
  closed_conns = conn ∷ w.closed_conns;
}

-- The end of `disconnect`: a client's socket goes on to `tryReconnect`, a server's is released.
unfoldable pub settle : ℕ → Sockets → Sockets × Bool
settle id w =
    if is_client (w.heap id)
    then (
      record (set_socket id (record (w.heap id) { status = status_reconnecting }) w) {
        reconnecting = id ∷ w.reconnecting;
      },
      false,
    )
    else (release id (set_socket id (record (w.heap id) { status = status_disconnected }) w), true)

-- `close(sock.stop)` of a nil or a closed channel panics; `disconnect` recovers and returns false.
unfoldable pub stop_and_settle : Stop → ℕ → Sockets → Sockets × Bool
stop_and_settle opened id w =
    let w1 = set_socket id (record (w.heap id) { stop = closed }) w in
    let w2 = close_conn (Socket.conn (w1.heap id)) id w1 in
    settle id (emit event_disconnect id nothing w2)
stop_and_settle _ id w = (w, false)

-- `disconnect`, run without interruption: the compare-and-swap succeeds.
unfoldable pub disconnect : ℕ → Sockets → Sockets × Bool
disconnect id w =
    if is_valid_status (Socket.status (w.heap id))
    then stop_and_settle (Socket.stop (w.heap id)) id
        (set_socket id (record (w.heap id) { status = status_disconnect }) w)
    else (w, false)

-- The goroutine of `tryReconnect`, once `tryConnect` has returned a connection or an error.
unfoldable pub reconnect_done : ℕ → Option ℕ → Sockets → Sockets
reconnect_done id result w =
    if member id w.reconnecting
    then (let w' = record w { reconnecting = remove id w.reconnecting } in
        elim result [ some conn ↦ connect id conn w' | none ↦ release id w' ])
    else w

-- `Close(delay...)`
unfoldable pub close : ℕ → Option ℤ → Sockets → Sockets
close id delay w =
    if is_connected (Socket.status (w.heap id))
    then (let limit = w.global.socket_connect_time in
        set_socket id
          (record (w.heap id) {
            status = status_closing;
            heartbeat = elim delay [ none ↦ limit | some d ↦ sub_int32 limit d ];
          })
          w)
    else w

-- `Authentication(v, reconnect...)`
unfoldable pub authentication : ℕ → Option ℕ → Bool → Sockets → Sockets
authentication id v reconnect w =
    let w1 =
      emit event_authentication id (bool reconnect)
        (set_socket id (record (w.heap id) { session = v }) w) in
    if reconnect then emit event_reconnected id nothing w1 else w1

-- `Replaced(ip)`
unfoldable pub replaced : ℕ → Bytes → Sockets → Sockets
replaced id ip w =
    let w1 = emit event_replaced id (text ip) w in
    let w2 = set_socket id (record (w1.heap id) { session = none }) w1 in
    close id (some w2.global.socket_replaced_time) w2

-- `KeepAlive()`; the session's own `KeepAlive` is outside.
unfoldable pub keep_alive : ℕ → Sockets → Sockets
keep_alive id w =
    if is_connected (Socket.status (w.heap id))
    then set_socket id (record (w.heap id) { heartbeat = pos 0 }) w
    else w

-- `Heartbeat(v)` of a socket; what it returns is the field `heartbeat` afterwards.
unfoldable pub heartbeat : ℤ → ℕ → Sockets → Sockets
heartbeat v id w =
    if is_valid_status (Socket.status (w.heap id))
    then (let beat = add_int32 (Socket.heartbeat (w.heap id)) v in
        let w1 = set_socket id (record (w.heap id) { heartbeat = beat }) w in
        let limit = w.global.socket_connect_time in
        if ltb_ℤ (pos 0) limit && ltb_ℤ limit beat
        then (disconnect id w1).0
        else emit event_heartbeat id (number v) w1)
    else w

-- `Heartbeat(v)` of the manager, over the sockets of its map in some order.
unfoldable pub heartbeat_all : ℤ → List ℕ → Sockets → Sockets
heartbeat_all v [] w = w
heartbeat_all v (id ∷ ids) w = heartbeat_all v ids (heartbeat v id w)

-- `Create(conn)`, with `stopped` for `scc.Stopped()`: the id of the new socket.
unfoldable pub create : Bool → ℕ → Sockets → Sockets × Result ℕ
create stopped conn w =
    if stopped
    then (w, err server_closed)
    else if ltb_ℤ (pos 0) w.options.connect_max_size && leb_ℤ w.options.connect_max_size w.count
    then (record w { closed_conns = conn ∷ w.closed_conns }, err max_connections)
    else (let id = suc w.index in
        (
          connect id conn (record (set_socket id (record no_socket { status = status_none }) w) {
            index = id;
            sockets = id ∷ w.sockets;
            count = increment w.count;
          }),
          ok id,
        ))

-- The end of `Connect(address)`, once `tryConnect` has returned a connection.
unfoldable pub connected_to : Bool → Bytes → ℕ → Sockets → Sockets × Result ℕ
connected_to stopped address conn w =
    let (w1, r) = create stopped conn w in
    elim r [
      | ok id ↦ (set_socket id (record (w1.heap id) { address = address }) w1, ok id)
      | err e ↦ (w1, err e)
      | panic ↦ (w1, panic)
    ]

-- `Get(id)`
unfoldable pub get : ℕ → Sockets → Option Socket
get id w = if member id w.sockets then some (w.heap id) else none
