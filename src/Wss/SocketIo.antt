-- ===== src/Wss/SocketIo.antt =====
-- wss/socket.io.go: the SOCKET.IO transform. What its methods do to the socket besides is kept in a
-- `Session`: the text frames written to the connection and the packet types reported by `Errorf`.
pub mod Events
pub mod Delivery
pub mod Rejected
pub mod Connected
pub mod Forwarded
use cosnet.Prelude.{
  ℕ, zero, suc, ◌+◌, ◌-◌, ◌%◌, ◌≡◌, Bool, true, false, ◌&&◌, Option, none, some, List, [], ◌∷◌,
  ◌++◌, Result, ok, err, panic, Error, Method, ◌>>=◌, ◌>>◌, take, drop, ◌==◌, if◌then◌else◌,
  empty_packet, missing_comma, missing_slash, missing_dash, invalid_ack_id, invalid_attachments,
  err_closed,
}
use cosnet.Prelude.Int.{ℤ, pos, negsuc, int32, ltb_ℤ}
use cosnet.Prelude.Bytes.{Bytes, codes, index_byte}
use cosnet.Prelude.Decimal.{
  Parsed, parsed, syntax_error, range_error, parse_int, parsed_value, format, format_int, is_digit,
}
use cosnet.Message.Flag.{flag_noreply, flag_confirm}
use cosnet.Message.Flag
use cosnet.Message.Magic.{magic_number_path_json}
use cosnet.Message.Env.{Env}
use cosnet.Message.Object.{Message, path, raw}
use cosnet.Message.Read.{is_zero, path_of, body_of}
use cosnet.Message.Marshal.{marshal}

pub record SocketIo : Type 0 where
  pub namespace : Bytes

-- `NewSocketIO(namespace...)`
unfoldable pub new_socket_io : Option Bytes → SocketIo
new_socket_io none = record { namespace = codes "/" }
new_socket_io (some ns) = record { namespace = ns }

-- The socket as the transform sees it: its id, and its connection, by the error of a write to it;
-- `none` is a socket without a connection.
pub record Peer : Type 0 where
  pub id : ℕ
  pub conn : Option (Bytes → Option Error)

pub record Session : Type 0 where
  pub message : Message
  pub sent : List Bytes
  pub reported : List ℕ

abbrev pub on_message : {A : Type 0} → Method Message A → Method Session A
on_message f s = let (m, r) = f s.message in (record s { message = m }, r)

-- `conn.Conn.WriteMessage(websocket.TextMessage, b)`; a frame that fails is not sent.
unfoldable pub write_text : (Bytes → Option Error) → Bytes → Method Session (Unit {0})
write_text write_error b s = elim (write_error b) [
  | none ↦ (record s { sent = s.sent ++ (b ∷ []) }, ok tt)
  | some e ↦ (s, err e)
]

-- The connection of the socket is asserted to be a WebSocket's, which panics where it is nil.
unfoldable pub send_text : Peer → Bytes → Method Session (Unit {0})
send_text peer b s = elim peer.conn [
  | none ↦ (s, panic)
  | some write_error ↦ write_text write_error b s
]

-- The namespace of a CONNECT packet: from its first slash up to the next comma.
unfoldable pub namespace_in : SocketIo → Bytes → Bytes
namespace_in t packet = elim (index_byte b'/' packet) [
  | none ↦ t.namespace
  | some i ↦ elim (index_byte b',' (drop i packet)) [
    | none ↦ drop i packet
    | some j ↦ take j (drop i packet)
  ]
]

-- `{"sid": "%d", …}`
unfoldable pub handshake : ℕ → Bytes
handshake sid =
    codes "{\"sid\": \""
    ++ (format sid
        ++ codes
            "\", \"upgrades\": [\"websocket\"], \"pingInterval\": 25000, \"pingTimeout\": 5000}")

unfoldable pub handle_connect : SocketIo → Peer → Bytes → Method Session (Unit {0})
handle_connect t peer packet =
    send_text peer (b'0' ∷ (namespace_in t packet ++ (b',' ∷ handshake peer.id)))

unfoldable pub handle_disconnect : Method Session (Unit {0})
handle_disconnect s = (s, err err_closed)

-- What stands behind the event name: an acknowledgement number up to a comma, if it begins with a
-- digit, and the data. Where ParseInt fails all of it is data, and the number is what it returned.
unfoldable pub split_ack_at : Bytes → Option ℕ → ℤ × Bytes
split_ack_at rest none = (pos 0, rest)
split_ack_at rest (some zero) = (pos 0, rest)
split_ack_at rest (some (suc i)) = elim (parse_int (take (suc i) rest)) [
  | parsed z ↦ (z, drop (suc i + 1) rest)
  | syntax_error ↦ (pos 0, rest)
  | range_error z ↦ (z, rest)
]

unfoldable pub split_ack : Bytes → ℤ × Bytes
unfolding split_ack_at
split_ack [] = (pos 0, [])
split_ack (c ∷ s) =
    if is_digit c then split_ack_at (c ∷ s) (index_byte b',' (c ∷ s)) else (pos 0, c ∷ s)

-- `data[0] - '0'` of a byte.
abbrev pub packet_type : ℕ → ℕ
packet_type c = (c + 256 - b'0') % 256

module _ {V : Type 0} (env : Env V) where
  -- The message of an event: no reply is wanted where the number is 0.
  unfoldable pub fill : Bytes → ℤ × Bytes → Method Session (Unit {0})
  fill name (ack_id, event_data) = on_message (
      marshal env magic_number_path_json (if is_zero ack_id then flag_noreply else 0) (int32 ack_id)
        (path name) (raw event_data))

  unfoldable pub handle_event : Bytes → Method Session (Unit {0})
  handle_event packet s = elim (index_byte b',' packet) [
    | none ↦ (s, err missing_comma)
    | some i ↦ fill (take i packet) (split_ack (drop (i + 1) packet)) s
  ]

  -- The number and the data of an acknowledgement are read and dropped.
  unfoldable pub handle_ack : Bytes → Method Session (Unit {0})
  handle_ack packet s = elim (index_byte b'/' packet) [
    | none ↦ (s, err missing_slash)
    | some i ↦ elim (parse_int (take i packet)) [
      | parsed z ↦ (s, ok tt)
      | syntax_error ↦ (s, err invalid_ack_id)
      | range_error z ↦ (s, err invalid_ack_id)
    ]
  ]

  -- Behind the dash, the name and the data; the number of attachments is read and dropped.
  unfoldable pub binary_parts : Bytes → Method Session (Unit {0})
  binary_parts rest s = elim (index_byte b',' rest) [
    | none ↦ (s, err missing_comma)
    | some j ↦ fill (take j rest) (split_ack (drop (j + 1) rest)) s
  ]

  unfoldable pub handle_binary_event : Bytes → Method Session (Unit {0})
  handle_binary_event packet s = elim (index_byte b'-' packet) [
    | none ↦ (s, err missing_dash)
    | some i ↦ elim (parse_int (take i packet)) [
      | parsed z ↦ binary_parts (drop (i + 1) packet) s
      | syntax_error ↦ (s, err invalid_attachments)
      | range_error z ↦ (s, err invalid_attachments)
    ]
  ]

  unfoldable pub dispatch : SocketIo → Peer → ℕ → Bytes → Method Session (Unit {0})
  dispatch t peer zero rest = handle_connect t peer rest
  dispatch t peer (suc zero) rest = handle_disconnect
  dispatch t peer (suc (suc zero)) rest = handle_event rest
  dispatch t peer (suc (suc (suc zero))) rest = handle_ack rest
  dispatch t peer (suc (suc (suc (suc (suc zero))))) rest = handle_binary_event rest
  dispatch t peer type rest = λ s. (record s { reported = type ∷ s.reported }, ok tt)

  unfoldable pub read_message : SocketIo → Peer → Bytes → Method Session (Unit {0})
  read_message t peer [] = λ s. (s, err empty_packet)
  read_message t peer (c ∷ rest) = dispatch t peer (packet_type c) rest

  -- `WriteMessage`: the packet that is written to the buffer.
  unfoldable pub write_message : Method Message Bytes
  write_message = do
    located ← path_of env
    body ← body_of env
    λ m. (
      m,
      ok (
          if Flag.has m.head.flag flag_confirm
          then codes "3/" ++ (format_int m.head.index ++ (b',' ∷ body))
          else codes "2/" ++ (located.0 ++ (b',' ∷ body))),
    )

abbrev pub namespace_or : SocketIo → Option Bytes → Bytes
namespace_or t none = t.namespace
namespace_or t (some ns) = ns

unfoldable pub build_connect_packet : SocketIo → Option Bytes → Bytes
build_connect_packet t ns = codes "0/" ++ namespace_or t ns

unfoldable pub build_disconnect_packet : SocketIo → Option Bytes → Bytes
build_disconnect_packet t ns = codes "1/" ++ namespace_or t ns

-- `%s,%d,%s` with a positive number, and `%s,%s` without one.
unfoldable pub event_text : Bytes → Bytes → Option ℤ → Bytes
event_text name packet_data none = name ++ (b',' ∷ packet_data)
event_text name packet_data (some a) =
    if ltb_ℤ (pos 0) a
    then name ++ (b',' ∷ (format_int a ++ (b',' ∷ packet_data)))
    else name ++ (b',' ∷ packet_data)

unfoldable pub build_event_packet : Bytes → Bytes → Option ℤ → Bytes
build_event_packet name packet_data ack_id = codes "2/" ++ event_text name packet_data ack_id

unfoldable pub build_ack_packet : ℤ → Bytes → Bytes
build_ack_packet ack_id packet_data = codes "3/" ++ (format_int ack_id ++ (b',' ∷ packet_data))

unfoldable pub build_binary_event_packet : ℤ → Bytes → Bytes → Option ℤ → Bytes
build_binary_event_packet attachments name packet_data ack_id =
    codes "5-" ++ (format_int attachments ++ (b'/' ∷ event_text name packet_data ack_id))
