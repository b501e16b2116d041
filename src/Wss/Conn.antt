-- ===== src/Wss/Conn.antt =====
-- wss/conn.go, wss/listener.go and wss/options.go: messages in WebSocket frames, and how a request
-- becomes a connection.
pub mod Frames
pub mod Requests
pub mod Listening
use cosnet.Prelude.{
  ℕ, Bool, true, false, ◌&&◌, ◌||◌, not, Option, none, some, List, [], ◌∷◌, ◌++◌, Error, Result, ok,
  err, panic, if◌then◌else◌, length, ltb, eof, err_closed, not_implemented, unsupported_frame,
  tls_required,
}
use cosnet.Prelude.Bytes.{Bytes, codes}
use cosnet.Message.Env.{Env}
use cosnet.Message.Object.{Message}
use cosnet.Message.Read.{is_empty}
use cosnet.Message.Slice.{Slice}
use cosnet.Message.Transfer.{bytes, reset}
use cosnet.Sockets.Serving.{same_bytes, is_one_of}

-- `AccessControlAllow(r)`, with `Options.Origin` and the host of the request's URL.
unfoldable pub is_allowed : List Bytes → Bytes → Bool
is_allowed [] host = false
is_allowed (o ∷ rest) host =
    if same_bytes o (codes "*") || same_bytes o host then true else is_allowed rest host

unfoldable pub access_control_allow : List Bytes → Bytes → Bool
access_control_allow [] host = true
access_control_allow (o ∷ rest) host = is_allowed (o ∷ rest) host

-- The frames that the websocket package returns: text and binary ones, a close, or another type.
pub data FrameType : Type 0 where
  text binary closing other : FrameType

-- `transform`, which reads a message from the bytes of a frame and writes one to a buffer.
pub record Transform : Type 0 where
  pub read : Slice → Message → Message × Result (Unit {0})
  pub write : Message → Result Bytes

-- `defaultTransform`
unfoldable pub default_transform : {V : Type 0} → Env V → Transform
default_transform env = record { read = λ b m. reset env b m; write = λ m. bytes env true m }

-- `Conn.Read`
unfoldable pub read : Result ℕ
read = err not_implemented

-- `Conn.Write`, with the error of the network, if it has one: what is sent, and the result.
unfoldable pub write : Option Error → Bytes → List Bytes → List Bytes × Result ℕ
write none b sent = (sent ++ (b ∷ []), ok (length b))
write (some e) b sent = (sent, err e)

unfoldable pub read_frame : Transform → FrameType → Slice → Message → Message × Result (Unit {0})
read_frame t closing b m = (m, err err_closed)
read_frame t other b m = (m, err unsupported_frame)
read_frame t text b m = if is_empty b.content then (m, err eof) else t.read b m
read_frame t binary b m = if is_empty b.content then (m, err eof) else t.read b m

-- `Conn.ReadMessage`, with what the websocket package returns.
unfoldable pub read_message :
    Transform → Result (FrameType × Slice) → Message → Message × Result (Unit {0})
read_message t (ok (type, b)) m = read_frame t type b m
read_message t (err e) m = (m, err e)
read_message t panic m = (m, panic)

abbrev sent_or : List Bytes × Result ℕ → List Bytes × Result (Unit {0})
sent_or (sent, ok n) = (sent, ok tt)
sent_or (sent, err e) = (sent, err e)
sent_or (sent, panic) = (sent, panic)

-- `Conn.WriteMessage`: an empty buffer is not sent.
unfoldable pub write_frame :
    Option Error → Result Bytes → List Bytes → List Bytes × Result (Unit {0})
unfolding write
write_frame failed (ok b) sent = if is_empty b then (sent, ok tt) else sent_or (write failed b sent)
write_frame failed (err e) sent = (sent, err e)
write_frame failed panic sent = (sent, panic)

unfoldable pub write_message :
    Transform → Option Error → Message → List Bytes → List Bytes × Result (Unit {0})
unfolding write_frame
write_message t failed m sent = write_frame failed (t.write m) sent

-- The state of a listener: the connections that wait in `connChan`, those that were closed, and the
-- status codes that requests were answered with.
pub record Listener : Type 0 where
  pub route : Bytes
  pub conn_chan_size : ℕ
  pub conn_chan : List ℕ
  pub hung_up : List ℕ
  pub answers : List ℕ

-- `NewListener(srv, route)`, with the size of the channel
unfoldable pub routed_listener : Bytes → ℕ → Listener
routed_listener route size = record {
  route = route;
  conn_chan_size = size;
  conn_chan = [];
  hung_up = [];
  answers = [];
}

-- `New`: a network with TLS wants a configuration.
unfoldable pub new_listener : Bytes → Bool → ℕ → Result Listener
unfolding is_one_of same_bytes routed_listener
new_listener network has_tls size =
    if not has_tls
      && is_one_of network (codes "wss" ∷ codes "wss4" ∷ codes "wss5" ∷ codes "wss6" ∷ [])
    then err tls_required
    else ok (routed_listener [] size)

-- `Accept()`, with `none` where it waits: no channel is closed, and `err` is never set.
unfoldable pub accept : List ℕ → Listener → Listener × Option ℕ
accept [] ln = (ln, none)
accept (conn ∷ rest) ln = (record ln { conn_chan = rest }, some conn)

-- `HTTPErrorHandler`
abbrev pub answer : ℕ → Listener → Listener
answer status ln = record ln { answers = ln.answers ++ (status ∷ []) }

-- The connection goes to the channel, or is closed where the channel is full.
unfoldable pub upgraded : Result ℕ → Listener → Listener
upgraded (ok conn) ln =
    if ltb (length ln.conn_chan) ln.conn_chan_size
    then record ln { conn_chan = ln.conn_chan ++ (conn ∷ []) }
    else record (answer 500 ln) { hung_up = ln.hung_up ++ (conn ∷ []) }
upgraded (err e) ln = answer 500 ln
upgraded panic ln = ln

-- `ServeHTTP`, with `scc.Stopped()`, the path of the request, and what `Upgrade` returns.
unfoldable pub serve_http : Bool → Bytes → Result ℕ → Listener → Listener
serve_http stopped path result ln =
    if stopped
    then answer 500 ln
    else if not (is_empty ln.route) && not (same_bytes path ln.route)
    then answer 404 ln
    else upgraded result ln
