-- ===== src/Tcp.antt =====
-- tcp/conn.go: messages on a TCP stream. Reading consumes the bytes that the connection delivers
-- until its end; writing gives the bytes that one `Write` of the connection is handed.
pub mod Stream
pub mod Mismatch
pub mod Malformed
pub mod Delivery
use cosnet.Prelude.{
  ℕ, zero, suc, ◌≡◌, Bool, true, Option, none, some, List, [], ◌∷◌, Result, ok, err, panic, Error,
  Method, ◌>>=◌, ◌>>◌, length, take, drop, ltb, if◌then◌else◌, eof, unexpected_eof, read_head,
  read_body,
}
use cosnet.Prelude.Bytes.{Bytes}
use cosnet.Message.Env.{Env}
use cosnet.Message.Head.{message_head_size}
use cosnet.Message.Head
use cosnet.Message.Object.{Message, on_head}
use cosnet.Message.Read.{is_zero}
use cosnet.Message.Transfer.{bytes, write}

abbrev pub wrapped : {S : Type 0} → (Error → Error) → S × Result (Unit {0}) → S × Result (Unit {0})
wrapped f (s, ok a) = (s, ok a)
wrapped f (s, err e) = (s, err (f e))
wrapped f (s, panic) = (s, panic)

-- `io.ReadFull(this.Conn, this.head)`
unfoldable pub read_head_bytes : Bytes → Result Bytes
read_head_bytes [] = err eof
read_head_bytes (c ∷ s) =
    if ltb (length (c ∷ s)) message_head_size
    then err unexpected_eof
    else ok (take message_head_size (c ∷ s))

module _ {V : Type 0} (env : Env V) where
  abbrev parse_head : Bytes → Method (Message × Bytes) (Unit {0})
  parse_head head (m, stream) = let (m', r) = on_head (Head.parse env head) m in ((m', stream), r)

  unfoldable pub read_msg_true : Method (Message × Bytes) (Unit {0})
  read_msg_true (m, stream) =
      if is_zero m.head.size
      then ((m, stream), ok tt)
      else wrapped read_body (write env (m, stream))

  unfoldable pub read_message : Method (Message × Bytes) (Unit {0})
  read_message (m, stream) = elim (read_head_bytes stream) [
    | err e ↦ ((m, drop message_head_size stream), err e)
    | panic ↦ ((m, stream), panic)
    | ok head ↦
        (do (λ s. wrapped read_head (parse_head head s)); read_msg_true)
          (m, drop message_head_size stream)
  ]

  -- What is handed to `Conn.Write`; an error of `Bytes` is returned before that.
  unfoldable pub write_message : Message → Result Bytes
  write_message m = bytes env true m
