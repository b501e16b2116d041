-- ===== src/Calls/Carried.antt =====
-- From `SendWithMagic` at one end of a TCP connection to `ReadMessage` at the other.
use cosnet.Prelude.{ℕ, ◌≤◌, ◌≡◌, refl, ap, ◌∙◌, Bool, true, some, ◌++◌, ok, returned}
use cosnet.Prelude.Int.{ℤ, pos}
use cosnet.Prelude.Bytes.{Bytes}
use cosnet.Message.Magic.{Magic, magic_type_path}
use cosnet.Message.Magic
use cosnet.Message.Env.{Env}
use cosnet.Message.Head.{Head}
use cosnet.Message.Head
use cosnet.Message.Object.{Message, path, raw}
use cosnet.Message.Marshal.{marshal, marshal_body}
use cosnet.Message.Marshal.Layout.{Holds, path_prefix, marshal-path_lem}
use cosnet.Message.RoundTrip.{marshalled_head}
use cosnet.Message.Transfer.Packet.{Arrived}
use cosnet.Tcp.{read_message, write_message}
use cosnet.Tcp.Stream.{read_message-write_message}
use cosnet.Tcp.Delivery.{marshalled_IsSendable, nonempty_prefix}
use cosnet.Sockets.State.{Socket, Sockets, opened}
use cosnet.Sockets.Lifecycle.{is_ready}
use cosnet.Sockets.Sending.{done, queue, has_room, send_with_magic, send_marshalled}
use cosnet.Sockets.Sending.Ownership.{queued}
use cosnet.Calls.{Fits}

-- A socket that takes a message.
pub record IsOpen (id : ℕ) (w : Sockets) : Type 0 where
  pub ready : is_ready (w.heap id) ≡ true
  pub room : has_room id w ≡ true
  pub stop : Socket.stop (w.heap id) ≡ opened

-- A message without a cached code that was filled from this path and body.
abbrev pub IsFilled : Magic → Head → Bytes → Bytes → Message → Type 0
IsFilled mc h p body m =
    (m.head ≡ h) × (m.bytes.content ≡ path_prefix mc p ++ body) × (m.code ≡ pos 0)

module _ {V : Type 0} (env : Env V) (mc : Magic) (magic flag : ℕ) (index : ℤ) (p body : Bytes)
    (known : Magic.get env.magics magic ≡ some mc) (typed : mc.type ≡ magic_type_path)
    (cap_ok : 4 ≤ env.options.capacity) (fits : Fits env mc magic flag index p body) where
  abbrev head : Head
  head = marshalled_head mc magic flag index p body

  pub marshals :
      (fresh : Message)
      → (s : Message) × (marshal env magic flag index (path p) (raw body) fresh ≡ (s, ok tt))
        × (s.head ≡ head)
        × (s.bytes.content ≡ path_prefix mc p ++ body)
        × (s.code ≡ fresh.code)
  unfolding marshal_body
  marshals fresh =
      let h0 : Head = record (fresh.head) { magic = magic; flag = flag; index = index } in
      let (s, u, e, (content, headed, code)) =
        returned (Holds h0 fresh.code (path_prefix mc p ++ body))
          (marshal env magic flag index (path p) (raw body) fresh)
          (marshal-path_lem env magic flag index p (raw body) fresh mc body cap_ok known typed
            refl) in
      (s, e, headed, content, code)

  pub sends :
      (pick_stop : Bool) (fresh : Message) (id : ℕ) (w : Sockets)
      → IsOpen id w
      → (s : Message) × (send_with_magic env true pick_stop magic flag index
            (path p)
            (raw body)
            fresh
            id
            w
          ≡ (queue s id w, done (ok tt)))
        × (s.head ≡ head)
        × (s.bytes.content ≡ path_prefix mc p ++ body)
        × (s.code ≡ fresh.code)
  unfolding send_with_magic
  sends pick_stop fresh id w sock =
      let (s, e, headed, content, code) = marshals fresh in
      (
        s,
        ap (λ x. send_marshalled true pick_stop x id w) e
            ∙ unfold send_marshalled in queued true pick_stop s id w sock.ready sock.room sock.stop,
        headed,
        content,
        code,
      )

  -- It is written, and read from the front of a stream.
  pub delivers :
      (s m' : Message) (rest : Bytes)
      → s.head ≡ head
      → s.bytes.content ≡ path_prefix mc p ++ body
      → m'.code ≡ pos 0
      → (wire : Bytes) × (write_message env s ≡ ok wire)
        × (m'' : Message) × (read_message env (m', wire ++ rest) ≡ ((m'', rest), ok tt))
        × IsFilled mc head p body m''
  delivers s m' rest headed content clean =
      let (wire, we, r) =
        read_message-write_message env mc s
          (marshalled_IsSendable env mc magic flag index p body known fits.flag_byte fits.plain
            fits.index_fits fits.size_fits fits.within_limit s headed content)
          m' rest (ap (Head.auto_compress env) headed ∙ fits.uncompressed)
          (rw content (
            nonempty_prefix env mc magic flag index p body known fits.flag_byte fits.plain
              fits.index_fits fits.size_fits fits.within_limit)) in
      let ((m'', rest'), u', read, ((headed', content', code'), behind)) =
        returned (λ after _. Arrived s m'.code after.0 tt × (after.1 ≡ rest))
          (read_message env (m', wire ++ rest)) r in
      (
        wire,
        we,
        m'',
        read ∙ ap (λ b. ((m'', b), ok tt)) behind,
        (headed' ∙ headed, content' ∙ content, code' ∙ clean),
      )

  -- What is queued is written, and read at the other end.
  pub carried :
      (pick_stop : Bool) (fresh m' : Message) (rest : Bytes) (id : ℕ) (w : Sockets)
      → IsOpen id w
      → m'.code ≡ pos 0
      → (s : Message) × (wire : Bytes) × (send_with_magic env true pick_stop magic flag index
            (path p)
            (raw body)
            fresh
            id
            w
          ≡ (queue s id w, done (ok tt)))
        × (write_message env s ≡ ok wire)
        × (m'' : Message) × (read_message env (m', wire ++ rest) ≡ ((m'', rest), ok tt))
        × IsFilled mc head p body m''
  carried pick_stop fresh m' rest id w sock clean =
      let (s, sent, headed, content, code) = sends pick_stop fresh id w sock in
      let (wire, we, m'', read, filled) = delivers s m' rest headed content clean in
      (s, wire, sent, we, m'', read, filled)
