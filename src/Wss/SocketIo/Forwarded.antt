-- ===== src/Wss/SocketIo/Forwarded.antt =====
-- A message of one program that another one reads as an event.
use cosnet.Prelude.{
  ℕ, ◌%◌, ◌^◌, ◌≤◌, ◌<◌, ◌≡◌, ◌≢◌, refl, ap, ◌∙◌, false, none, some, [], ◌∷◌, ◌++◌, append_assoc,
  ok, Returns, returned, length,
}
use cosnet.Prelude.Int.{ℤ, pos}
use cosnet.Prelude.Bytes.{Bytes, Lacks, put_uint32}
use cosnet.Message.Flag.{flag_noreply, flag_confirm}
use cosnet.Message.Flag
use cosnet.Message.Magic.{Magic, magic_type_path, magic_number_path_json}
use cosnet.Message.Magic
use cosnet.Message.Env.{Env}
use cosnet.Message.Head.{Head}
use cosnet.Message.Head
use cosnet.Message.Object.{Message, path, Payload}
use cosnet.Message.Read.{split_query}
use cosnet.Message.Read.Prefixed.{path_of-path, body_of-path}
use cosnet.Message.Marshal.{marshal, marshal_body}
use cosnet.Message.Marshal.Layout.{Holds, path_prefix, marshal-path_lem}
use cosnet.Wss.SocketIo.{
  SocketIo, Peer, Session, read_message, write_message, build_event_packet, event_text,
}
use cosnet.Wss.SocketIo.Events.{StartsPlain}
use cosnet.Wss.SocketIo.Delivery.{Delivers, plain_event_delivered}

module _ {V : Type 0} (env : Env V) (mc : Magic) (magic flag : ℕ) (index : ℤ) (p body : Bytes)
    (known : Magic.get env.magics magic ≡ some mc) (typed : mc.type ≡ magic_type_path)
    (named : p ≢ []) (short : length p < 2 ^ 31) (event : Flag.has flag flag_confirm ≡ false) where
  -- What `WriteMessage` writes is an event packet.
  written :
      (m : Message)
      → m.head.magic ≡ magic
      → m.head.flag ≡ flag
      → m.bytes.content ≡ path_prefix mc p ++ body
      → m.code ≡ pos 0
      → write_message env m
        ≡ (record m { code = pos (length p) }, ok (build_event_packet (split_query p).0 body none))
  unfolding write_message build_event_packet event_text Head.magic_of
  written m under flagged content clean =
      let known_here : Magic.get env.magics m.head.magic ≡ some mc =
        ap (Magic.get env.magics) under ∙ known in
      let content_here : m.bytes.content ≡ put_uint32 mc.binary (length p % 2 ^ 32) ++ (p ++ body) =
        content ∙ append_assoc (put_uint32 mc.binary (length p % 2 ^ 32)) p body in
      let located : Message = record m { code = pos (length p) } in
      let unconfirmed : Flag.has m.head.flag flag_confirm ≡ false =
        ap (λ k. Flag.has k flag_confirm) flagged ∙ event in
      rw
        (
          path_of-path env mc p body m known_here content_here typed short named clean,
          body_of-path env mc p body located known_here content_here typed short named refl,
          unconfirmed,
        )
        refl

  -- With a capacity of at least four bytes and the JSON path magic number registered with path
  -- type: a message without a cached code that `Marshal` fills under a registered magic number of
  -- path type, with a flag that is not a confirmation, from a path of 1 to 2^31 - 1 bytes, whose
  -- part before the query has no comma and fewer than 2^31 - 1 bytes, and a body that does not
  -- begin with a digit, which the binder encodes if it needs one, is written by `WriteMessage` as a
  -- packet that `ReadMessage` reads into a message without a cached code. That message reads as a
  -- slash and the path without its query, and the body; its index is 0 and its flag wants no reply,
  -- whatever those of the first message are: also a message with an index above 0 is sent as an
  -- EVENT and not as an ACK.
  pub event_forwarded :
      (b : Payload V) (m : Message) (t : SocketIo) (peer : Peer) (s : Session) (json : Magic)
      → 4 ≤ env.options.capacity
      → Magic.get env.magics magic_number_path_json ≡ some json
      → json.type ≡ magic_type_path
      → marshal_body env (record (m.head) { magic = magic; flag = flag; index = index }) b ≡ ok body
      → m.code ≡ pos 0
      → Lacks b',' (split_query p).0
      → length (b'/' ∷ (split_query p).0) < 2 ^ 31
      → StartsPlain body
      → s.message.code ≡ pos 0
      → (m' : Message) × (m'' : Message) × (packet : Bytes) × (marshal env magic flag index
            (path p)
            b
            m
          ≡ (m', ok tt))
        × (write_message env m' ≡ (m'', ok packet))
        × Returns
            (Delivers env (b'/' ∷ (split_query p).0) body flag_noreply (pos 0))
            (read_message env t peer packet s)
  event_forwarded b m t peer s json cap_ok json_known json_typed body_ok clean lacks fits plain
        fresh =
      let h0 : Head = record (m.head) { magic = magic; flag = flag; index = index } in
      let (m', u, e, (content, headed, code)) =
        returned (Holds h0 m.code (path_prefix mc p ++ body))
          (marshal env magic flag index (path p) b m)
          (marshal-path_lem env magic flag index p b m mc body cap_ok known typed body_ok) in
      (
        m',
        record m' { code = pos (length p) },
        build_event_packet (split_query p).0 body none,
        e,
        written m' (ap Head.magic headed) (ap Head.flag headed) content (code ∙ clean),
        plain_event_delivered env json cap_ok json_known json_typed t peer (split_query p).0 body s
            fresh fits lacks plain,
      )
