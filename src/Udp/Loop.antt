-- ===== src/Udp/Loop.antt =====
-- The loop that reads packets.
use cosnet.Prelude.{
  ℕ, ◌≡◌, refl, ◌∙◌, List, [], ◌∷◌, ◌++◌, ok, err, panic, Result, Option, some, map,
}
use cosnet.Prelude.Bytes.{Bytes}
use cosnet.Udp.{Options, Listener, Outcome, done, waits, then_do, receive, read_loop}
use cosnet.Udp.Mailboxes.{Mailboxes, arrives, nothing, promise, unit_output}
use cosnet.Udp.Represents.{IsOpen, Represents}
use cosnet.Udp.Arrivals.{receive-Kept}

-- A packet with its sender, as `ReadFromUDP` returns it.
abbrev pub packet_read : ℕ × Bytes → Option (Result (ℕ × Bytes))
packet_read p = some (ok p)

abbrev pub after_packets : Options → List (ℕ × Bytes) → Mailboxes → Mailboxes
after_packets o [] s = s
after_packets o ((key, packet) ∷ ps) s = after_packets o ps (promise o (arrives key packet) s).0

then_do-nothing :
    (f : Listener → Listener × Outcome (Unit {0})) (r : Listener × Outcome (Unit {0}))
    → (unit_output r).1 ≡ nothing
    → then_do f r ≡ f (unit_output r).0
then_do-nothing f (l, done (ok a)) e = refl
then_do-nothing f (l, done (err x)) e = absurd (cc)
then_do-nothing f (l, done panic) e = absurd (cc)
then_do-nothing f (l, waits) e = absurd (cc)

-- On an open listener that stands for some mailboxes, the loop takes any packets that come before
-- `rest`, whatever their senders: it does not end, panic or wait for the mutex at any of them, and
-- goes on with `rest` on an open listener that stands for the mailboxes which the packets promise,
-- one after the other.
pub read_loop-Represents :
    (o : Options) (ps : List (ℕ × Bytes)) (rest : List (Option (Result (ℕ × Bytes))))
    (m : List (ℕ × ℕ)) (l : Listener) (s : Mailboxes)
    → IsOpen o m l
    → Represents m l s
    → (l' : Listener) × (m' : List (ℕ × ℕ)) × (read_loop (map packet_read ps ++ rest) l
        ≡ read_loop rest l')
      × IsOpen o m' l'
      × Represents m' l' (after_packets o ps s)
unfolding read_loop promise
read_loop-Represents o [] rest m l s h r = (l, m, refl, h, r)
read_loop-Represents o ((key, packet) ∷ ps) rest m l s h r =
    let (m1, h1, r1, calm) = receive-Kept o m l s h r key packet in
    let (l', m', runs, h', r') =
      read_loop-Represents o ps rest m1 (unit_output (receive key packet l)).0
        (promise o (arrives key packet) s).0 h1 r1 in
    (
      l',
      m',
      then_do-nothing (read_loop (map packet_read ps ++ rest)) (receive key packet l) calm ∙ runs,
      h',
      r',
    )
