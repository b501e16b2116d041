-- ===== src/Tests/Packets.antt =====
-- SOCKET.IO packets, at concrete ones.
use cosnet.Prelude.{
  ◌≡◌, refl, true, false, none, some, [], ◌∷◌, ◌++◌, ok, err, unsupported_frame, Returns, arith,
}
use cosnet.Prelude.Int.{pos, int32}
use cosnet.Prelude.Bytes.{Bytes, codes, index_byte}
use cosnet.Message.Flag.{flag_noreply}
use cosnet.Message.Flag
use cosnet.Message.Magic
use cosnet.Message.Head
use cosnet.Message.Env.{default_options}
use cosnet.Message.Object.{Message, new_message, path, value}
use cosnet.Message.Read.{split_query}
use cosnet.Message.Marshal.{marshal, marshal_body}
use cosnet.Wss.SocketIo.{
  SocketIo, Peer, Session, read_message, build_event_packet, build_ack_packet, build_connect_packet,
  send_text, handshake,
}
use cosnet.Wss.SocketIo.Delivery.{Delivers, event_delivered}
use cosnet.Wss.SocketIo
use cosnet.Wss.SocketIo.Connected.{read_message-build_connect_packet}
use cosnet.Wss.SocketIo.Forwarded.{event_forwarded}
use cosnet.Wss.Conn
use cosnet.Wss.Conn.Requests.{requests, accepts, upgrades, all_happen, Accounted}
use cosnet.Wss.Conn.Listening.{all_happen-routed_listener}
use cosnet.Tests.Data.{test_env, path_magic}

abbrev root : SocketIo
root = record { namespace = codes "/" }

abbrev reliable_peer : Peer
reliable_peer = record { id = 3; conn = some (λ b. none) }

abbrev fresh_session : Session
fresh_session = record { message = new_message; sent = []; reported = [] }

event_delivered_example :
    Returns (Delivers (test_env (pos 9)) (codes "/ev") (codes "12") 0 (int32 (pos 5))) (
      read_message
        (test_env (pos 9))
        root
        reliable_peer
        (build_event_packet (codes "ev") (codes "12") (some (pos 5)))
        fresh_session)
unfolding Magic.get Magic.default_magics Magic.register Magic.has default_options
event_delivered_example =
    event_delivered (test_env (pos 9)) path_magic (omega arith) refl refl root reliable_peer
      (codes "ev") (codes "12") 5 fresh_session refl (omega arith) ((λ e. cc), ((λ e. cc), tt))
      (omega arith) (omega arith)

read_message-build_connect_packet_example :
    (read_message
        (test_env (pos 9))
        root
        reliable_peer
        (build_connect_packet root (some (codes "chat")))
        fresh_session
      ≡ send_text reliable_peer
          (b'0' ∷ b'/' ∷ (codes "chat" ++ (b',' ∷ handshake 3)))
          fresh_session)
    × (read_message
          (test_env (pos 9))
          root
          reliable_peer
          (build_connect_packet root (some (codes "chat")) ++ (b',' ∷ codes "?t=1"))
          fresh_session
        ≡ send_text reliable_peer
            (b'0' ∷ b'/' ∷ (codes "chat" ++ (b',' ∷ handshake 3)))
            fresh_session)
read_message-build_connect_packet_example =
    read_message-build_connect_packet (test_env (pos 9)) root reliable_peer (some (codes "chat"))
      (codes "?t=1") fresh_session (omega arith)

event_forwarded_example :
    (m' : Message) × (m'' : Message) × (packet : Bytes) × (marshal
        (test_env (pos 9))
        0xf0
        0
        (pos 5)
        (path (codes "/a?b"))
        (value 120)
        new_message
      ≡ (m', ok tt))
    × (SocketIo.write_message (test_env (pos 9)) m' ≡ (m'', ok packet))
    × Returns
        (Delivers (test_env (pos 9)) (codes "//a") (codes "x") flag_noreply (pos 0))
        (read_message (test_env (pos 9)) root reliable_peer packet fresh_session)
unfolding Magic.get Magic.default_magics Magic.register Magic.has default_options Flag.has
    split_query index_byte marshal_body Head.binder
event_forwarded_example =
    event_forwarded (test_env (pos 9)) path_magic 0xf0 0 (pos 5) (codes "/a?b") (codes "x") refl
      refl (λ e. cc) (omega arith) refl (value 120) new_message root reliable_peer fresh_session
      path_magic (omega arith) refl refl refl refl (omega arith) (omega arith) refl refl

-- A channel of one, a request for another path, and one that cannot be upgraded.
all_happen-routed_listener_example :
    Accounted
      (codes "/ws")
      1
      (upgrades (codes "/ws") (
        requests false (codes "/ws") (ok 7)
        ∷ requests false (codes "/ws") (ok 8)
        ∷ requests false (codes "/no") (ok 9)
        ∷ accepts
        ∷ requests false (codes "/ws") (err unsupported_frame)
        ∷ requests true (codes "/ws") (ok 6)
        ∷ accepts
        ∷ []))
      (all_happen
        (requests false (codes "/ws") (ok 7)
          ∷ requests false (codes "/ws") (ok 8)
          ∷ requests false (codes "/no") (ok 9)
          ∷ accepts
          ∷ requests false (codes "/ws") (err unsupported_frame)
          ∷ requests true (codes "/ws") (ok 6)
          ∷ accepts
          ∷ [])
        (Conn.routed_listener (codes "/ws") 1, []))
all_happen-routed_listener_example = all_happen-routed_listener (codes "/ws") 1 (
    requests false (codes "/ws") (ok 7)
    ∷ requests false (codes "/ws") (ok 8)
    ∷ requests false (codes "/no") (ok 9)
    ∷ accepts
    ∷ requests false (codes "/ws") (err unsupported_frame)
    ∷ requests true (codes "/ws") (ok 6)
    ∷ accepts
    ∷ [])
