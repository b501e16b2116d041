-- ===== src/Wss/Conn/Frames.antt =====
-- A message in a WebSocket frame.
use cosnet.Prelude.{◌≡◌, refl, false, none, List, [], ◌∷◌, ◌++◌, ok, Returns}
use cosnet.Prelude.Bytes.{Bytes}
use cosnet.Message.Env.{Env, IsLossless}
use cosnet.Message.Magic.{Magic}
use cosnet.Message.Object.{Message}
use cosnet.Message.Read.{is_empty}
use cosnet.Message.Transfer.{reset}
use cosnet.Message.Transfer.Sendable.{IsSendable}
use cosnet.Message.Transfer.Packet.{Arrived, reset-bytes}
use cosnet.Wss.Conn.{
  binary, default_transform, read_frame, read_message, write, write_frame, write_message,
}

module _ {V : Type 0} (env : Env V) where
  -- `Reset` refuses an empty packet.
  reset_full :
      (P : Message → Unit {0} → Type 0) (b : Bytes) (m : Message)
      → Returns P (reset env (record { content = b; spare = [] }) m)
      → is_empty b ≡ false
  unfolding reset
  reset_full P [] m h = elim h [ ]
  reset_full P (c ∷ b) m h = refl

  -- With a lossless compressor and the default transform, `WriteMessage` of a sendable message (see
  -- `IsSendable`) on a working connection sends one frame, and `ReadMessage` of that frame as a
  -- binary one returns with the head and the bytes of the sender, compressed on the way or not,
  -- whatever the receiver's message was; its cached code stays.
  pub frame_delivered :
      (mc : Magic) (m m' : Message) (sent : List Bytes)
      → IsSendable env mc m
      → IsLossless env
      → (b : Bytes) × (write_message (default_transform env) none m sent
          ≡ (sent ++ (b ∷ []), ok tt))
        × Returns (Arrived m m'.code) (
            read_message
              (default_transform env)
              (ok (binary, record { content = b; spare = [] }))
              m')
  unfolding write_message write_frame write read_message read_frame default_transform
  frame_delivered mc m m' sent sendable lossless =
      let (b, written, back) = reset-bytes env mc m sendable m' [] lossless in
      let full = reset_full (Arrived m m'.code) b m' back in
      (b, rw (written, full) refl, rw full back)
