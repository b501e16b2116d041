-- ===== src/Tcp/Malformed.antt =====
-- A head whose size is negative.
use cosnet.Prelude.{ℕ, ◌≡◌, refl, false, some, ◌++◌, panic, arith, drop-append_eq}
use cosnet.Prelude.Int.{negsuc, IsInt32, ltb_ℤ}
use cosnet.Prelude.Bytes.{Bytes}
use cosnet.Message.Magic.{Magic}
use cosnet.Message.Magic
use cosnet.Message.Env.{Env}
use cosnet.Message.Head.{Head}
use cosnet.Message.Head.Wire.{head_bytes, length-head_bytes, parse-head_bytes}
use cosnet.Message.Object.{Message}
use cosnet.Message.Transfer.{write, write_size}
use cosnet.Tcp.{read_msg_true, read_message}
use cosnet.Tcp.Stream.{read_head_bytes_lem}

module _ {V : Type 0} (env : Env V) where
  read_negative :
      (m : Message) (stream : Bytes) (n : ℕ)
      → m.head.size ≡ negsuc n
      → read_msg_true env (m, stream) ≡ ((m, stream), panic)
  unfolding read_msg_true write write_size
  read_negative m stream n size = rw size refl

  -- A head with a registered magic number, a negative size that is not above the limit and an index
  -- within int32 passes `Parse`, and `ReadMessage` panics on it whatever follows, with the head
  -- stored and nothing of the rest read.
  pub read_message-negative :
      (mc : Magic) (h : Head) (flag n : ℕ) (m' : Message) (rest : Bytes)
      → Magic.get env.magics h.magic ≡ some mc
      → h.size ≡ negsuc n
      → IsInt32 h.size
      → IsInt32 h.index
      → ltb_ℤ env.options.max_data_size h.size ≡ false
      → read_message env (m', head_bytes mc h flag ++ rest)
        ≡ ((record m' { head = record h { flag = flag } }, rest), panic)
  unfolding read_message
  read_message-negative mc h flag n m' rest known size size_fits index_fits within =
      let w = head_bytes mc h flag in
      let ten = length-head_bytes env mc h m'.head flag known size_fits index_fits in
      ground (
        arith,
        read_head_bytes_lem w rest ten,
        drop-append_eq 10 w rest ten,
        parse-head_bytes env mc h m'.head flag known size_fits index_fits,
        within,
        read_negative (record m' { head = record h { flag = flag } }) rest n size,
      )
