-- ===== src/Tests/Datagrams.antt =====
-- UDP listeners and WebSocket frames at work.
use cosnet.Prelude.{
  ℕ, ◌≡◌, List, map, Option, Result, refl, false, none, some, [], ◌∷◌, ◌++◌, ok, panic, arith,
  Returns,
}
use cosnet.Prelude.Int.{pos}
use cosnet.Prelude.Bytes.{Bytes}
use cosnet.Message.Object.{new_message}
use cosnet.Message.Transfer.Packet.{Arrived}
use cosnet.Udp
use cosnet.Udp.{
  Options, Conn, Listener, Outcome, done, waits, new_listener, find, delete, receive, close_conn,
  close_listener, route, deliver, read_loop,
}
use cosnet.Udp.Represents.{IsOpen, Represents}
use cosnet.Udp.Mailboxes.{arrives, accepts, takes, closes, no_mail, performs, promises}
use cosnet.Udp.Refinement.{performs-promises}
use cosnet.Udp.Actions.{Action, acts}
use cosnet.Udp.Actions
use cosnet.Udp.Routing.{Routes, acts-Routes}
use cosnet.Udp.Closing.{Stuck, closing, close_listener-Stuck, deliver-closed}
use cosnet.Udp.Delivery.{ReadsMessage, message_delivered}
use cosnet.Udp.Loop.{packet_read, after_packets, read_loop-Represents}
use cosnet.Wss.Conn
use cosnet.Wss.Conn.{binary, default_transform}
use cosnet.Wss.Conn.Frames.{frame_delivered}
use cosnet.Tests.Data.{test_env, path_magic, four_bytes, four_bytes-IsSendable, squeeze_lossless}

-- Queues of two.
abbrev small : Options
small = record { conn_chan_size = 2; msg_chan_size = 2 }

abbrev quiet_listener : Listener
quiet_listener = new_listener small

quiet-IsOpen : IsOpen small [] quiet_listener
unfolding new_listener find
quiet-IsOpen = record {
  with_options = refl;
  accepting = refl;
  mapped = refl;
  free = refl;
  addressed = λ key i e. absurd (cc);
  opened = λ key i e. absurd (cc);
  made = λ key i e. absurd (cc);
  queued = tt;
}

quiet-Represents : Represents [] quiet_listener no_mail
unfolding new_listener find
quiet-Represents = record { waiting = refl; inbox = λ key. refl }

performs-promises_example :
    (performs
      (arrives 5 (1 ∷ [])
        ∷ arrives 5 (2 ∷ [])
        ∷ arrives 5 (3 ∷ [])
        ∷ accepts
        ∷ takes 5
        ∷ closes 5
        ∷ [])
      (new_listener small)).1
    ≡ (promises small
        (arrives 5 (1 ∷ [])
          ∷ arrives 5 (2 ∷ [])
          ∷ arrives 5 (3 ∷ [])
          ∷ accepts
          ∷ takes 5
          ∷ closes 5
          ∷ [])
        no_mail).1
performs-promises_example = performs-promises small (
    arrives 5 (1 ∷ [])
    ∷ arrives 5 (2 ∷ [])
    ∷ arrives 5 (3 ∷ [])
    ∷ accepts
    ∷ takes 5
    ∷ closes 5
    ∷ [])

-- The connection of the first packet was closed while another packet was on its way to it.
abbrev before : List Action
before =
    Actions.receives 5 (1 ∷ [])
    ∷ Actions.looks_up 5
    ∷ Actions.closes 0
    ∷ Actions.delivers 0 (2 ∷ [])
    ∷ Actions.receives 6 (3 ∷ [])
    ∷ []

acts-Routes_example :
    Routes 5
      (acts before (new_listener small))
      (receive 5 (4 ∷ []) (acts before (new_listener small)))
unfolding acts Actions.act new_listener receive route Udp.new_conn find deliver close_conn
    Udp.remove_conn Udp.close_msg_chan delete
acts-Routes_example = acts-Routes small before 5 (4 ∷ []) refl

-- A listener with the connection of one address.
abbrev with_one : Listener
with_one = record quiet_listener {
  conns = some ((5, 0) ∷ []);
  next = 1;
  heap = λ i. record { addr = 5; msg_chan = []; closed = false };
}

with_one-IsOpen : IsOpen small ((5, 0) ∷ []) with_one
unfolding new_listener find
with_one-IsOpen = record {
  with_options = refl;
  accepting = refl;
  mapped = refl;
  free = refl;
  addressed = λ key i e. ground (arith, e);
  opened = λ key i e. refl;
  made = λ key i e. ground (arith, e);
  queued = tt;
}

deliver-closed_example :
    ((route 5 with_one).1 ≡ done (ok 0))
    × ((close_conn 0 (route 5 with_one).0).1 ≡ done (ok tt))
    × ((deliver 0 (9 ∷ []) (close_conn 0 (route 5 with_one).0).0).1 ≡ done panic)
unfolding find
deliver-closed_example =
    deliver-closed small ((5, 0) ∷ []) with_one 5 0 (9 ∷ []) with_one-IsOpen refl

close_listener-Stuck_example :
    (close_listener with_one ≡ (closing with_one, waits))
    × Stuck (closing with_one)
    × (close_listener (closing with_one) ≡ (closing with_one, done panic))
unfolding new_listener
close_listener-Stuck_example = close_listener-Stuck 5 0 [] with_one refl refl refl

message_delivered_example :
    (b : Bytes) × (Udp.write_message (test_env (pos 3)) none 0 four_bytes quiet_listener ≡ (
      record quiet_listener {
        sent = quiet_listener.sent ++ ((Udp.Conn.addr (quiet_listener.heap 0), b) ∷ []);
      },
      ok tt,
    ))
    × ((Udp.accept (receive 5 b quiet_listener).0).1 ≡ done (ok quiet_listener.next))
    × ReadsMessage four_bytes (pos 0) (
        Udp.read_message
          (test_env (pos 3))
          quiet_listener.next
          new_message
          (Udp.accept (receive 5 b quiet_listener).0).0)
unfolding new_listener find
message_delivered_example =
    message_delivered (test_env (pos 3)) path_magic four_bytes new_message quiet_listener 0 small []
      quiet_listener 5 (four_bytes-IsSendable (pos 3)) squeeze_lossless quiet-IsOpen refl refl
      (omega arith) (omega arith)

frame_delivered_example :
    (b : Bytes) × (Conn.write_message (default_transform (test_env (pos 3))) none four_bytes []
      ≡ ((b ∷ []), ok tt))
    × Returns (Arrived four_bytes (pos 0)) (
        Conn.read_message
          (default_transform (test_env (pos 3)))
          (ok (binary, record { content = b; spare = [] }))
          new_message)
frame_delivered_example =
    frame_delivered (test_env (pos 3)) path_magic four_bytes new_message []
      (four_bytes-IsSendable (pos 3)) squeeze_lossless

-- Two packets of one sender and one of another, before the program stops.
abbrev three_packets : List (ℕ × Bytes)
three_packets = (5, 1 ∷ []) ∷ (6, 2 ∷ []) ∷ (5, 3 ∷ []) ∷ []

abbrev then_stopped : List (Option (Result (ℕ × Bytes)))
then_stopped = none ∷ []

read_loop-Represents_example :
    (l' : Listener) × (m' : List (ℕ × ℕ)) × (read_loop
        (map packet_read three_packets ++ then_stopped)
        quiet_listener
      ≡ read_loop then_stopped l')
    × IsOpen small m' l'
    × Represents m' l' (after_packets small three_packets no_mail)
unfolding find
read_loop-Represents_example =
    read_loop-Represents small three_packets then_stopped [] quiet_listener no_mail quiet-IsOpen
      quiet-Represents
