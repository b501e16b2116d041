-- ===== src/Tests/Streams.antt =====
-- Messages on a TCP stream, at concrete ones.
use cosnet.Prelude.{◌≡◌, refl, [], ◌∷◌, ◌++◌, ok, Returns, arith}
use cosnet.Prelude.Int.{pos}
use cosnet.Prelude.Bytes.{Bytes}
use cosnet.Message.Flag
use cosnet.Message.Magic
use cosnet.Message.Env.{default_options}
use cosnet.Message.Head
use cosnet.Message.Object.{Message, new_message}
use cosnet.Message.Transfer.Packet.{Arrived}
use cosnet.Prelude.Bytes.{codes, put_uint32}
use cosnet.Message.Object.{path, value}
use cosnet.Message.Marshal.{marshal, marshal_body}
use cosnet.Message.RoundTrip.{read_parts, ReadsBack, marshalled_head}
use cosnet.Tcp.Delivery.{read_message-marshal}
use cosnet.Tcp.{read_message, write_message}
use cosnet.Tcp.Stream.{read_message-write_message}
use cosnet.Tcp.Mismatch.{read_compressed_overrun}
use cosnet.Tests.Data.{squeeze, test_env, path_magic, four_bytes, four_bytes-IsSendable}

-- Four bytes below the limit.
read_message-write_message_example :
    (wire : Bytes) × (write_message (test_env (pos 9)) four_bytes ≡ ok wire)
    × Returns
        (λ after _. Arrived four_bytes (pos 0) after.0 tt × (after.1 ≡ 1 ∷ 2 ∷ []))
        (read_message (test_env (pos 9)) (new_message, wire ++ (1 ∷ 2 ∷ [])))
unfolding Head.auto_compress Flag.has
read_message-write_message_example =
    read_message-write_message (test_env (pos 9)) path_magic four_bytes
      (four_bytes-IsSendable (pos 9)) new_message (1 ∷ 2 ∷ []) refl (omega arith)

-- And with two bytes behind them, of which one is lost.
read_compressed_overrun_example :
    (wire : Bytes) × (write_message (test_env (pos 3)) four_bytes ≡ ok wire)
    × ((read_message (test_env (pos 3)) (new_message, wire ++ (1 ∷ 2 ∷ []))).0.1 ≡ 2 ∷ [])
unfolding Head.auto_compress Flag.has squeeze
read_compressed_overrun_example =
    read_compressed_overrun (test_env (pos 3)) path_magic four_bytes (four_bytes-IsSendable (pos 3))
      refl (omega arith) new_message (1 ∷ 2 ∷ []) (omega arith)

read_message-marshal_example :
    (s : Message) × (marshal
        (test_env (pos 99))
        0xf0
        2
        (pos 5)
        (path (codes "a?b"))
        (value 9)
        new_message
      ≡ (s, ok tt))
    × (wire : Bytes) × (write_message (test_env (pos 99)) s ≡ ok wire)
    × Returns
        (λ after _.
          Returns
            (ReadsBack
              (codes "a?b")
              (9 ∷ [])
              (marshalled_head path_magic 0xf0 2 (pos 5) (codes "a?b") (9 ∷ [])))
            (read_parts (test_env (pos 99)) after.0)
          × (after.1 ≡ 4 ∷ []))
        (read_message (test_env (pos 99)) (new_message, wire ++ (4 ∷ [])))
unfolding Magic.get Magic.default_magics Magic.register Magic.has default_options marshal_body
    Head.binder Head.magic_of Head.auto_compress Flag.has put_uint32
read_message-marshal_example =
    read_message-marshal (test_env (pos 99)) path_magic 0xf0 2 (pos 5) (codes "a?b") (9 ∷ []) refl
      (omega arith) refl (omega arith) (omega arith) refl (value 9) new_message new_message (4 ∷ [])
      (omega arith) refl refl (λ e. cc) (omega arith) refl refl
