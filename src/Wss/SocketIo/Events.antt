-- ===== src/Wss/SocketIo/Events.antt =====
-- Event packets: what `BuildEventPacket` and `WriteMessage` write, as `ReadMessage` reads it.
use cosnet.Prelude.{
  ℕ, ◌^◌, ◌<◌, ◌≡◌, refl, ◌∙◌, ap, false, none, some, [], ◌∷◌, ◌++◌, arith, length, All-mono,
  take-append_eq, drop_past, ◌⊎◌,
}
use cosnet.Prelude.Int.{ℤ, pos}
use cosnet.Prelude.Bytes.{Bytes, codes, Lacks, index_byte-append}
use cosnet.Prelude.Decimal.{
  parsed, format, format_int, format_head, format-IsDigit, parse_int, parse_int-format, IsDigit,
  is_digit,
}
use cosnet.Message.Env.{Env}
use cosnet.Wss.SocketIo.{
  SocketIo, Peer, Session, split_ack, fill, handle_event, dispatch, read_message, event_text,
  build_event_packet,
}

format-Lacks : (b n : ℕ) → (b < b'0') ⊎ (b'9' < b) → Lacks b (format n)
format-Lacks b n h =
    All-mono IsDigit _ (format n) (λ c d e. absurd (omega arith)) (format-IsDigit n)

split_ack_digits :
    (c : ℕ) (s rest : Bytes) (z : ℤ)
    → IsDigit c
    → Lacks b',' (c ∷ s)
    → parse_int (c ∷ s) ≡ parsed z
    → split_ack ((c ∷ s) ++ (b',' ∷ rest)) ≡ (z, rest)
unfolding split_ack
split_ack_digits c s rest z digit lacks value = ground (
  arith,
  index_byte-append b',' (c ∷ s) rest lacks,
  take-append_eq (length (c ∷ s)) (c ∷ s) (b',' ∷ rest) refl,
  drop_past (c ∷ s) b',' rest,
)

-- The number in front of the data is split off.
split_ack-format :
    (a : ℕ) (rest : Bytes) → a < 2 ^ 63 → split_ack (format a ++ (b',' ∷ rest)) ≡ (pos a, rest)
split_ack-format a rest h =
    let (c, s, e, d) = format_head a in
    rw e (
      split_ack_digits c s rest (pos a) d (rw e at (format-Lacks b',' a (omega arith)))
        (rw e at (parse_int-format a h)))

-- Data that does not begin with a digit is left whole.
abbrev pub StartsPlain : Bytes → Type 0
StartsPlain [] = Unit
StartsPlain (c ∷ s) = is_digit c ≡ false

split_ack_plain : (s : Bytes) → StartsPlain s → split_ack s ≡ (pos 0, s)
unfolding split_ack
split_ack_plain [] h = refl
split_ack_plain (c ∷ s) h = rw h refl

event_packet_numbered :
    (name packet_data : Bytes) (a : ℕ)
    → 0 < a
    → build_event_packet name packet_data (some (pos a))
      ≡ codes "2/" ++ (name ++ (b',' ∷ (format a ++ (b',' ∷ packet_data))))
unfolding build_event_packet event_text format_int
event_packet_numbered name packet_data a positive = ground arith

module _ {V : Type 0} (env : Env V) where
  handle_event_lem :
      (name rest : Bytes) (s : Session)
      → Lacks b',' name
      → handle_event env (name ++ (b',' ∷ rest)) s ≡ fill env name (split_ack rest) s
  unfolding handle_event
  handle_event_lem name rest s h = ground (
    arith,
    index_byte-append b',' name rest h,
    take-append_eq _ name (b',' ∷ rest) refl,
    drop_past name b',' rest,
  )

  read_event :
      (t : SocketIo) (peer : Peer) (name rest : Bytes) (s : Session)
      → Lacks b',' name
      → read_message env t peer (codes "2/" ++ (name ++ (b',' ∷ rest))) s
        ≡ fill env (b'/' ∷ name) (split_ack rest) s
  unfolding read_message dispatch
  read_event t peer name rest s lacks = handle_event_lem (b'/' ∷ name) rest s (omega arith, lacks)

  -- An event packet built with a positive number below 2^63 is read as the event of that number.
  pub read_message-build_event_packet :
      (t : SocketIo) (peer : Peer) (name packet_data : Bytes) (a : ℕ) (s : Session)
      → Lacks b',' name
      → 0 < a
      → a < 2 ^ 63
      → read_message env t peer (build_event_packet name packet_data (some (pos a))) s
        ≡ fill env (b'/' ∷ name) (pos a, packet_data) s
  read_message-build_event_packet t peer name packet_data a s lacks positive fits =
      ap (λ packet. read_message env t peer packet s)
        (event_packet_numbered name packet_data a positive)
      ∙ read_event t peer name (format a ++ (b',' ∷ packet_data)) s lacks
      ∙ ap (λ parts. fill env (b'/' ∷ name) parts s) (split_ack-format a packet_data fits)

  -- One built with no number is read as an event that wants no
  -- reply, if its data does not begin with a digit.
  pub read_message-build_event_packet_plain :
      (t : SocketIo) (peer : Peer) (name packet_data : Bytes) (s : Session)
      → Lacks b',' name
      → StartsPlain packet_data
      → read_message env t peer (build_event_packet name packet_data none) s
        ≡ fill env (b'/' ∷ name) (pos 0, packet_data) s
  unfolding build_event_packet event_text
  read_message-build_event_packet_plain t peer name packet_data s lacks plain =
      read_event t peer name packet_data s lacks
      ∙ ap (λ parts. fill env (b'/' ∷ name) parts s) (split_ack_plain packet_data plain)
