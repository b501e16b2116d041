-- ===== src/Udp/Delivery.antt =====
-- A message from one end to the other: `WriteMessage`, a packet, `Accept` and `ReadMessage`.
use cosnet.Prelude.{
  ℕ, ◌<◌, ◌≤◌, ◌≡◌, refl, ap, ◌∙◌, true, false, none, List, [], ◌∷◌, ◌++◌, Result, ok, err, panic,
  ◌==◌, length, ltb, arith, Bool-cases, inl, inr, eq→==, lt→ltb, ge→ltb, Returns,
}
use cosnet.Prelude.Int.{ℤ}
use cosnet.Prelude.Bytes.{Bytes}
use cosnet.Message.Env.{Env, IsLossless}
use cosnet.Message.Magic.{Magic}
use cosnet.Message.Object.{Message}
use cosnet.Message.Transfer.{reset}
use cosnet.Message.Transfer.Sendable.{IsSendable}
use cosnet.Message.Transfer.Packet.{Arrived, reset-bytes}
use cosnet.Udp.{
  Options, Conn, Listener, Outcome, done, find, set_conn, accept, accept_from, deliver, receive,
  take_packet, take_packet_from, read_message, parse_packet, write_message, write_to_udp,
}
use cosnet.Udp.Represents.{IsOpen}
use cosnet.Udp.Arrivals.{with_new}
use cosnet.Udp.Found.{route_new}
use cosnet.Udp.{unlocked, new_conn}
use cosnet.Message.Head.{message_head_size}

-- The packet `b` has come from the new address `key`.
abbrev with_packet : ℕ → List (ℕ × ℕ) → Bytes → Listener → Listener
with_packet key m b l =
    set_conn l.next (record { addr = key; msg_chan = b ∷ []; closed = false }) (with_new key m l)

-- Its connection was accepted.
abbrev with_accepted : ℕ → List (ℕ × ℕ) → Bytes → Listener → Listener
with_accepted key m b l = record (with_packet key m b l) { conn_ch = [] }

-- The call returns with no error, and the message is the sender's.
abbrev pub ReadsMessage : Message → ℤ → (Listener × Message) × Outcome (Unit {0}) → Type 0
ReadsMessage m c ((l, m'), outcome) = (outcome ≡ done (ok tt)) × Arrived m c m' tt

module _ (o : Options) (m : List (ℕ × ℕ)) (l : Listener) (h : IsOpen o m l) (key : ℕ)
    (fresh : find key m ≡ none) (idle : l.conn_ch ≡ []) (some_conns : 0 < o.conn_chan_size)
    (some_msgs : 0 < o.msg_chan_size) where
  new_conn_idle :
      unlocked (new_conn key (record l { locked = true })) ≡ (with_new key m l, done (ok l.next))
  unfolding new_conn
  new_conn_idle = ground (arith, some_conns, ap length idle, h.accepting, h.with_options, h.mapped)

  receive_new :
      (b : Bytes) → 10 ≤ length b → receive key b l ≡ (with_packet key m b l, done (ok tt))
  unfolding receive deliver
  receive_new b long =
      let full : (length b == 0) ≡ false = ground arith in
      let room : ltb 0 l.options.msg_chan_size ≡ true =
        ap (λ (x : Options). ltb 0 x.msg_chan_size) h.with_options
        ∙ lt→ltb 0 o.msg_chan_size some_msgs in
      rw (full, route_new o m l h key fresh, new_conn_idle, eq→== l.next l.next refl, room) refl

  accept_new :
      (b : Bytes) → accept (with_packet key m b l) ≡ (with_accepted key m b l, done (ok l.next))
  unfolding accept accept_from
  accept_new b =
      ap
        (λ xs.
          accept_from (xs ++ (l.next ∷ []))
            (record (with_packet key m b l) { conn_ch = xs ++ (l.next ∷ []) }))
        idle

parsed_done :
    (m : Message) (c : ℤ) (r : Message × Result (Unit {0}))
    → Returns (Arrived m c) r
    → (Outcome.done r.1 ≡ done (ok tt)) × Arrived m c r.0 tt
parsed_done m c (m', ok tt) h = (refl, h)
parsed_done m c (m', err e) h = elim h [ ]
parsed_done m c (m', panic) h = elim h [ ]

module _ {V : Type 0} (env : Env V) where
  long_enough :
      (P : Message → Unit {0} → Type 0) (b : Bytes) (m : Message)
      → Returns P (reset env (record { content = b; spare = [] }) m)
      → 10 ≤ length b
  unfolding reset
  long_enough P b m h = elim (Bool-cases (ltb (length b) message_head_size)) [
    | inl short ↦ absurd (rw short at h)
    | inr long ↦ ground (arith, long)
  ]

  read_new :
      (msg m' : Message) (b : Bytes) (key : ℕ) (m : List (ℕ × ℕ)) (l : Listener)
      → Returns (Arrived msg m'.code) (reset env (record { content = b; spare = [] }) m')
      → ReadsMessage msg m'.code (read_message env l.next m' (with_accepted key m b l))
  unfolding read_message take_packet take_packet_from parse_packet
  read_new msg m' b key m l h =
      rw (eq→== l.next l.next refl, ge→ltb (length b) 10 (long_enough (Arrived msg m'.code) b m' h))
        (parsed_done msg m'.code (reset env (record { content = b; spare = [] }) m') h)

  -- With a lossless compressor, `WriteMessage` of a sendable message (see `IsSendable`) on a
  -- network that takes the packet hands one packet to it. On an open listener that has room, has no
  -- connection for the packet's sender and no other connection waiting, the packet makes a new
  -- connection, which `Accept` returns, and `ReadMessage` on it returns with the head and the bytes
  -- of the sender, whatever the message was before, whose cached code stays.
  pub message_delivered :
      (mc : Magic) (msg m' : Message) (sender : Listener) (i : ℕ) (o : Options) (m : List (ℕ × ℕ))
      (l : Listener) (key : ℕ)
      → IsSendable env mc msg
      → IsLossless env
      → IsOpen o m l
      → find key m ≡ none
      → l.conn_ch ≡ []
      → 0 < o.conn_chan_size
      → 0 < o.msg_chan_size
      → (b : Bytes) × (write_message env none i msg sender
          ≡ (record sender { sent = sender.sent ++ ((Conn.addr (sender.heap i), b) ∷ []) }, ok tt))
        × ((accept (receive key b l).0).1 ≡ done (ok l.next))
        × ReadsMessage msg m'.code (read_message env l.next m' (accept (receive key b l).0).0)
  unfolding write_message write_to_udp
  message_delivered mc msg m' sender i o m l key sendable lossless h fresh idle some_conns
        some_msgs =
      let (b, wire, back) = reset-bytes env mc msg sendable m' [] lossless in
      let came =
        receive_new o m l h key fresh idle some_conns some_msgs b
          (long_enough (Arrived msg m'.code) b m' back) in
      let admitted = accept_new o m l h key fresh idle some_conns some_msgs b in
      (
        b,
        rw wire refl,
        rw (came, admitted) refl,
        rw (came, admitted) (read_new msg m' b key m l back),
      )
