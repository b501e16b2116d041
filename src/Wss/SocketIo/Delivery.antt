-- ===== src/Wss/SocketIo/Delivery.antt =====
-- An event packet as the handlers see it.
use cosnet.Prelude.{
  ℕ, zero, suc, continue, ◌^◌, ◌≤◌, ◌<◌, ◌≡◌, refl, ap, none, some, ◌∷◌, Result, ok, err, panic,
  Method, Returns, Returns-unbind, Returns-mono, arith, length, if◌then◌else◌,
}
use cosnet.Prelude.Int.{ℤ, pos, int32}
use cosnet.Prelude.Bytes.{Bytes, Lacks}
use cosnet.Message.Flag.{flag_noreply}
use cosnet.Message.Magic.{Magic, magic_type_path, magic_number_path_json}
use cosnet.Message.Magic
use cosnet.Message.Env.{Env}
use cosnet.Message.Object.{Message, path, raw}
use cosnet.Message.Read.{split_query, is_zero}
use cosnet.Message.Head.{Head}
use cosnet.Message.Marshal.{marshal, marshal_body}
use cosnet.Message.RoundTrip.{ReadsBack, marshalled_head, read_parts, read_parts-marshal_path}
use cosnet.Wss.SocketIo.{
  SocketIo, Peer, Session, on_message, fill, read_message, build_event_packet,
}
use cosnet.Wss.SocketIo.Events.{
  StartsPlain, read_message-build_event_packet, read_message-build_event_packet_plain,
}

Returns-on_message :
    {A : Type 0} (P : Message → A → Type 0) (f : Method Message A) (s : Session)
    → Returns P (f s.message)
    → Returns (λ s' a. P s'.message a) (on_message f s)
Returns-on_message {A = A} P f s h = go (f s.message) h
  where
    go :
        (r : Message × Result A)
        → Returns P r
        → Returns (λ s' a. P s'.message a) (let (m, x) = r in (record s { message = m }, x))
    go (m, ok a) h = h
    go (m, err e) h = h
    go (m, panic) h = h

-- Path with query and body as given, under a head with this flag and index.
abbrev pub HasParts : Bytes → Bytes → ℕ → ℤ → Message → (Bytes × Bytes) × Bytes → Type 0
HasParts p body flag index m read =
    (read ≡ (split_query p, body)) × (m.head.flag ≡ flag) × (m.head.index ≡ index)

-- The message of the session reads as this path with its query and this body, under a head with this
-- flag and index.
abbrev pub Delivers : {V : Type 0} → Env V → Bytes → Bytes → ℕ → ℤ → Session → Unit {0} → Type 0
Delivers env p body flag index s _ = Returns (HasParts p body flag index) (read_parts env s.message)

module _ {V : Type 0} (env : Env V) (mc : Magic) (cap_ok : 4 ≤ env.options.capacity)
    (known : Magic.get env.magics magic_number_path_json ≡ some mc)
    (typed : mc.type ≡ magic_type_path) where
  fill-Delivers :
      (name packet_data : Bytes) (a : ℤ) (s : Session)
      → s.message.code ≡ pos 0
      → length (b'/' ∷ name) < 2 ^ 31
      → Returns
          (Delivers env (b'/' ∷ name) packet_data (if is_zero a then flag_noreply else 0) (int32 a))
          (fill env (b'/' ∷ name) (a, packet_data) s)
  unfolding fill marshal_body
  fill-Delivers name packet_data a s fresh short =
      let p = b'/' ∷ name in
      let flag = if is_zero a then flag_noreply else 0 in
      let marshalled : Method Message (Unit {0}) =
        marshal env magic_number_path_json flag (int32 a) (path p) (raw packet_data) in
      let parts = HasParts p packet_data flag (int32 a) in
      Returns-on_message (λ m _. Returns parts (read_parts env m)) marshalled s
        (Returns-unbind parts (marshalled s.message) (λ _. read_parts env)
          (Returns-mono
            (ReadsBack p packet_data
              (marshalled_head mc magic_number_path_json flag (int32 a) p packet_data))
            parts (continue (λ _. read_parts env) (marshalled s.message))
            (read_parts-marshal_path env mc magic_number_path_json flag (int32 a) p
              (raw packet_data) s.message packet_data cap_ok known typed refl fresh (λ e. cc) short)
            λ m' read h. (h.0, ap (λ (h : Head). h.flag) h.1, ap (λ (h : Head). h.index) h.1)))

  -- With a capacity of at least four bytes and the JSON path magic number registered with path
  -- type, the packet that `BuildEventPacket` builds from a name without a comma of fewer than 2^31
  -- - 1 bytes, data and a number from 1 to 2^63 - 1 is read by `ReadMessage` into a message without
  -- a cached code, which then reads as a slash and the name, split at its first question mark, and
  -- the data, with the flag 0 and the number as an int32 for its index.
  pub event_delivered :
      (t : SocketIo) (peer : Peer) (name packet_data : Bytes) (a : ℕ) (s : Session)
      → s.message.code ≡ pos 0
      → length (b'/' ∷ name) < 2 ^ 31
      → Lacks b',' name
      → 0 < a
      → a < 2 ^ 63
      → Returns
          (Delivers env (b'/' ∷ name) packet_data 0 (int32 (pos a)))
          (read_message env t peer (build_event_packet name packet_data (some (pos a))) s)
  event_delivered t peer name packet_data (zero) s fresh short lacks positive fits =
      absurd (omega arith)
  event_delivered t peer name packet_data (suc a) s fresh short lacks positive fits =
      rw (read_message-build_event_packet env t peer name packet_data (suc a) s lacks positive fits)
        (fill-Delivers name packet_data (pos (suc a)) s fresh short)

  -- With a capacity of at least four bytes and the JSON path magic number registered with path
  -- type, the packet that `BuildEventPacket` builds without a number, from a name without a comma
  -- of fewer than 2^31 - 1 bytes and data that do not begin with a digit, is read by `ReadMessage`
  -- into a message without a cached code, which then reads as a slash and the name, split at its
  -- first question mark, and the data, with the index 0 and the flag that wants no reply.
  pub plain_event_delivered :
      (t : SocketIo) (peer : Peer) (name packet_data : Bytes) (s : Session)
      → s.message.code ≡ pos 0
      → length (b'/' ∷ name) < 2 ^ 31
      → Lacks b',' name
      → StartsPlain packet_data
      → Returns
          (Delivers env (b'/' ∷ name) packet_data flag_noreply (pos 0))
          (read_message env t peer (build_event_packet name packet_data none) s)
  plain_event_delivered t peer name packet_data s fresh short lacks plain =
      rw (read_message-build_event_packet_plain env t peer name packet_data s lacks plain)
        (fill-Delivers name packet_data (pos 0) s fresh short)
