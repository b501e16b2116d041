-- ===== src/Tests/Loops.antt =====
-- The goroutines of a socket and of a manager at work.
use cosnet.Prelude.{
  ℕ, suc, List, ◌≡◌, refl, true, false, none, [], ◌∷◌, ◌++◌, ok, err, arith, max_connections,
  err_closed, unknown_scheme, eof,
}
use cosnet.Prelude.Int.{pos}
use cosnet.Prelude.Bytes.{Bytes, codes, put_uint32}
use cosnet.Config.{default_config}
use cosnet.Message.Flag
use cosnet.Message.Head
use cosnet.Message.Magic
use cosnet.Message.Env.{default_options}
use cosnet.Message.Object.{Message, new_message}
use cosnet.Tcp
use cosnet.Sockets.State.{status_connected, Sockets, new_sockets, emit}
use cosnet.Sockets.Lifecycle.{create, connect, is_client, is_valid_status, disconnect}
use cosnet.Sockets.Runs.{accept, run, step, run-new_sockets}
use cosnet.Goroutines.{waiting, write_msg, read_msg}
use cosnet.Goroutines.Reading.{IsRequest, Delivers}
use cosnet.Goroutines.Writing.{Drained, queue_delivered}
use cosnet.Sockets.Race.{outside, seen, at, move, goroutine, closes, turns, connected}
use cosnet.Sockets.Race.Exclusive.{Exclusive}
use cosnet.Sockets.Race.Alone.{whole, Agrees, shared, turns-Agrees}
use cosnet.Sockets.Race.Stale.{late, Robbed, late-Robbed}
use cosnet.Sockets.Race.Turns.{turns-connected}
use cosnet.Sockets.Serving.{Round, stops, takes, accept_loop, listen}
use cosnet.Sockets.Serving
use cosnet.Sockets.Serving.Accepting.{Serves, offered, still_open, accept_loop-Serves}
use cosnet.Tests.Data.{test_env, path_magic}

abbrev serving : Sockets
serving = (create false 7 (new_sockets default_config)).0

-- A request with the path "a" and no body.
abbrev ping : Message
ping = record {
  head = record { magic = 0xf0; flag = 0; size = pos 5; index = pos 5 };
  code = pos 0;
  bytes = record { content = 0 ∷ 0 ∷ 0 ∷ 1 ∷ 97 ∷ []; spare = [] };
}

ping-IsRequest : IsRequest (test_env (pos 9)) ping
unfolding Magic.get Magic.default_magics Magic.register Magic.has default_options Flag.has
    Head.auto_compress put_uint32
ping-IsRequest = record {
  magic = path_magic;
  path = codes "a";
  body = [];
  sendable = record {
    known = refl;
    flag_byte = omega arith;
    plain = refl;
    index_fits = omega arith;
    size_counts = refl;
    size_fits = omega arith;
    within_limit = refl;
  };
  plain = refl;
  typed = refl;
  keyed = refl;
  named = λ e. cc;
  short = omega arith;
  filled = refl;
  not_empty = omega arith;
}

-- A socket with two requests in its queue.
abbrev loaded : Sockets
loaded = record serving { heap = λ i. record (serving.heap i) { cwrite = ping ∷ ping ∷ [] } }

queue_delivered_example :
    (stream : Bytes) × (sender' : Sockets) × (write_msg 1
        (Tcp.write_message (test_env (pos 9)))
        3
        (loaded, [])
      ≡ ((sender', stream), waiting))
    × Drained (ping ∷ ping ∷ []) 1 loaded sender'
    × Delivers
        (test_env (pos 9))
        (λ b r. ok [])
        false
        new_message
        (λ n. new_message)
        1
        (ping ∷ ping ∷ [])
        serving
        (read_msg
          (test_env (pos 9))
          (λ b r. ok [])
          (λ p. none)
          false
          new_message
          (Tcp.read_message (test_env (pos 9)))
          (λ n. new_message)
          1
          4
          stream
          serving)
unfolding create connect emit new_sockets
queue_delivered_example =
    queue_delivered (test_env (pos 9)) (λ b r. ok []) false new_message (λ n. new_message) 3 4 1 1
      (ping ∷ ping ∷ []) loaded serving (omega arith) (omega arith) (λ i. refl)
      (ping-IsRequest, (ping-IsRequest, tt)) refl refl

-- Two goroutines see the status; one wins.
turns-connected_example : Exclusive (
    turns
      (goroutine 1 false
        ∷ goroutine 2 false
        ∷ goroutine 1 false
        ∷ goroutine 2 false
        ∷ closes
        ∷ goroutine 1 false
        ∷ goroutine 1 false
        ∷ [])
      (connected true))
turns-connected_example = turns-connected true (
    goroutine 1 false
    ∷ goroutine 2 false
    ∷ goroutine 1 false
    ∷ goroutine 2 false
    ∷ closes
    ∷ goroutine 1 false
    ∷ goroutine 1 false
    ∷ [])

late-Robbed_example :
    Robbed 1 2 0 0 (turns (late 1 2 false) (at 1 (seen status_connected) (connected true)))
late-Robbed_example =
    late-Robbed 1 2 false (move 1 (seen status_connected) (λ _. outside)) 0 0 false (omega arith)
      refl refl

-- An address without a scheme is one of TCP, and an unknown scheme is refused.
listen_schemes :
    (listen
        (λ (a : Bytes). a)
        (λ a. [])
        (λ s a. s ++ a)
        (λ s. s)
        (λ n a. ok (n ++ a))
        (λ n a. err eof)
        (λ n a. err eof)
        (1 ∷ [])
      ≡ ok (codes "tcptcp" ++ (1 ∷ [])))
    × (listen
          (λ (a : Bytes). a)
          (λ a. codes "http")
          (λ s a. s ++ a)
          (λ s. s)
          (λ n a. ok (n ++ a))
          (λ n a. err eof)
          (λ n a. err eof)
          (1 ∷ [])
        ≡ err unknown_scheme)
unfolding listen Serving.network_of Serving.same_bytes Serving.is_one_of Serving.scheme_or_tcp
    Serving.open_listener
listen_schemes = (refl, refl)

-- A listener that is closed ends the goroutine of `Accept`, which closes it once more.
accept_closed :
    (Serving.accept
      (λ (n : ℕ). (suc n, ok tt))
      0
      (takes false (ok 8) ∷ takes false (err err_closed) ∷ [])
      (7 ∷ [], serving)).0
    ≡ 7 ∷ 1 ∷ []
unfolding Serving.accept accept_loop create new_sockets connect emit
accept_closed = refl

-- The first connection gets a socket, and the second comes while the program stops.
abbrev rounds : List Round
rounds =
    takes false (ok 8)
    ∷ takes false (err max_connections)
    ∷ takes true (ok 9)
    ∷ stops
    ∷ takes false (ok 10)
    ∷ []

accept_loop-Serves_example : Serves 100000 1 false serving (accept_loop rounds serving)
unfolding offered still_open create connect emit new_sockets run step
accept_loop-Serves_example =
    accept_loop-Serves 100000 (omega arith) rounds serving
      (run-new_sockets default_config (accept false 7 ∷ [])) refl
      ((λ b e. cc), ((λ b e. cc), ((λ b e. cc), ((λ b e. cc), ((λ b e. cc), tt)))))

turns-Agrees_example :
    Agrees 1
      (turns (whole false 3 true) (shared (λ _. outside) (Sockets.heap serving 1)))
      (disconnect 1 serving)
unfolding create connect emit new_sockets is_client is_valid_status
turns-Agrees_example = turns-Agrees 1 serving 3 true (λ _. outside) refl refl refl
