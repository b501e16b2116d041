-- ===== src/Tests/Messages.antt =====
-- Messages on the way out and back, at concrete ones.
use cosnet.Prelude.{◌≡◌, refl, true, [], ◌∷◌, ok, ◌>>◌, Returns, arith}
use cosnet.Prelude.Int.{pos, negsuc, int32}
use cosnet.Prelude.Bytes.{Bytes, codes}
use cosnet.Message.Magic.{magic_type_path, magic_type_code, json}
use cosnet.Message.Magic
use cosnet.Message.Env.{default_options}
use cosnet.Message.Head.{Head, parse}
use cosnet.Message.Head
use cosnet.Message.Head.Wire.{head_bytes, parse-head_bytes}
use cosnet.Message.Object.{new_message, path, code, raw, value}
use cosnet.Message.Marshal.{marshal, marshal_body}
use cosnet.Message.RoundTrip.{
  read_parts, ReadsBack, marshalled_head, read_parts-marshal_path, read_parts-marshal_code,
}
use cosnet.Message.Transfer.{bytes, reset}
use cosnet.Message.Transfer.Packet.{Arrived, reset-bytes}
use cosnet.Tests.Data.{
  test_env, path_magic, code_magic, four_bytes, four_bytes-IsSendable, squeeze_lossless,
}

read_parts-marshal_path_example :
    Returns
      (ReadsBack
        (codes "a?b")
        (9 ∷ [])
        (marshalled_head path_magic 0xf0 2 (pos 5) (codes "a?b") (9 ∷ [])))
      ((do
        marshal (test_env (pos 3)) 0xf0 2 (pos 5) (path (codes "a?b")) (value 9)
        read_parts (test_env (pos 3)))
        new_message)
unfolding Magic.get Magic.default_magics Magic.register Magic.has default_options marshal_body
    Head.binder Head.magic_of
read_parts-marshal_path_example =
    read_parts-marshal_path (test_env (pos 3)) path_magic 0xf0 2 (pos 5) (codes "a?b") (value 9)
      new_message (9 ∷ []) (omega arith) refl refl refl refl (λ e. cc) (omega arith)

read_parts-marshal_code_example :
    Returns
      (λ m' read. (read ≡ ((codes "ab", []), 8 ∷ [])) × (m'.code ≡ int32 (negsuc 6)))
      ((do
        marshal (test_env (pos 3)) 0xf1 0 (pos 5) (code (negsuc 6)) (raw (8 ∷ []))
        read_parts (test_env (pos 3)))
        new_message)
unfolding Magic.get Magic.default_magics Magic.register Magic.has default_options marshal_body
read_parts-marshal_code_example =
    read_parts-marshal_code (test_env (pos 3)) code_magic 0xf1 0 (pos 5) (negsuc 6) (raw (8 ∷ []))
      new_message (8 ∷ []) (codes "ab") (omega arith) refl refl refl refl refl

-- Four bytes are compressed above a limit of three.
reset-bytes_example :
    (wire : Bytes) × (bytes (test_env (pos 3)) true four_bytes ≡ ok wire)
    × Returns
        (Arrived four_bytes (pos 0))
        (reset (test_env (pos 3)) (record { content = wire; spare = 1 ∷ [] }) new_message)
reset-bytes_example =
    reset-bytes (test_env (pos 3)) path_magic four_bytes (four_bytes-IsSendable (pos 3)) new_message
      (1 ∷ []) squeeze_lossless

parse-head_bytes_example :
    parse (test_env (pos 3)) (head_bytes path_magic (four_bytes.head) 9) (new_message.head)
    ≡ (record (four_bytes.head) { flag = 9 }, ok tt)
unfolding Magic.get Magic.default_magics Magic.register Magic.has default_options
parse-head_bytes_example =
    parse-head_bytes (test_env (pos 3)) path_magic (four_bytes.head) (new_message.head) 9 refl
      (omega arith) (omega arith)
