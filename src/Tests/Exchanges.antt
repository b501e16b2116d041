-- ===== src/Tests/Exchanges.antt =====
-- A call from a client to a server.
use cosnet.Prelude.{◌≡◌, refl, true, false, none, List, [], ◌∷◌, ◌++◌, ok, arith, Returns}
use cosnet.Prelude.Int.{pos}
use cosnet.Prelude.Bytes.{Bytes, codes, index_byte}
use cosnet.Message.Flag
use cosnet.Message.Magic
use cosnet.Message.Env.{default_options}
use cosnet.Message.Object.{Message, new_message, path, raw}
use cosnet.Message.Read.{split_query}
use cosnet.Message.RoundTrip.{read_parts, ReadsBack, marshalled_head}
use cosnet.Tcp
use cosnet.Sockets.State.{Sockets, new_sockets, emit}
use cosnet.Sockets.Lifecycle.{create, connect, is_ready, keep_alive}
use cosnet.Sockets.Sending.{done, queue, send_with_magic}
use cosnet.Handler.{wants_reply}
use cosnet.Handler.Incoming.{read_msg_true}
use cosnet.Calls.Answered.{call_answered}
use cosnet.Calls.Queued.{Sent, Answers, Answered, loop}
use cosnet.Calls.Pipelined.{requests-Answered}
use cosnet.Calls.Exchanged.{calls-Delivers}
use cosnet.Goroutines.{waiting, read_msg, write_msg}
use cosnet.Goroutines.Reading.{Delivers}
use cosnet.Goroutines.Writing.{Drained}
use cosnet.Tests.Data.{test_env, path_magic}
use cosnet.Tests.Marking.{
  server, client, marking_search, marked_call, marked_call-IsServed, client-IsOpen, server-IsOpen,
}

call_answered_example :
    (s : Message) × (wire : Bytes) × (send_with_magic
        (test_env (pos 99))
        true
        false
        0xf0
        0
        (pos 5)
        (path (codes "a"))
        (raw (7 ∷ 8 ∷ []))
        new_message
        1
        client
      ≡ (queue s 1 client, done (ok tt)))
    × (Tcp.write_message (test_env (pos 99)) s ≡ ok wire)
    × (received : Message) × (Tcp.read_message (test_env (pos 99)) (new_message, wire ++ (1 ∷ []))
        ≡ ((received, 1 ∷ []), ok tt))
    × (a : Message) × (wire' : Bytes) × (read_msg_true
          (test_env (pos 99))
          (λ b r. ok [])
          marking_search
          false
          new_message
          1
          received
          server
        ≡ (queue a 1 (keep_alive 1 server), done (ok tt)))
    × (Tcp.write_message (test_env (pos 99)) a ≡ ok wire')
    × (back : Message) × (Tcp.read_message (test_env (pos 99)) (new_message, wire' ++ [])
        ≡ ((back, []), ok tt))
    × Returns
        (ReadsBack
          (codes "a")
          (9 ∷ 7 ∷ 8 ∷ [])
          (marshalled_head path_magic 0xf0 1 (pos 5) (codes "a") (9 ∷ 7 ∷ 8 ∷ [])))
        (read_parts (test_env (pos 99)) back)
unfolding Magic.get Magic.default_magics Magic.register Magic.has default_options Flag.has
    wants_reply split_query index_byte
call_answered_example =
    call_answered (test_env (pos 99)) (λ b r. ok []) marking_search false path_magic refl refl refl
      (omega arith) marked_call new_message new_message new_message new_message (1 ∷ []) [] client
      server 1 1 marked_call-IsServed client-IsOpen server-IsOpen refl refl

requests-Answered_example :
    (stream : Bytes) × Sent (test_env (pos 99)) path_magic (marked_call ∷ marked_call ∷ []) stream
    × Answered
        (test_env (pos 99))
        (λ b r. ok [])
        marking_search
        false
        new_message
        (λ i. new_message)
        1
        path_magic
        3
        (marked_call ∷ marked_call ∷ [])
        (1 ∷ [])
        server
        (read_msg
          (test_env (pos 99))
          (λ b r. ok [])
          marking_search
          false
          new_message
          (Tcp.read_message (test_env (pos 99)))
          (λ i. new_message)
          1
          5
          (stream ++ (1 ∷ []))
          server)
unfolding Magic.get Magic.default_magics Magic.register Magic.has default_options create connect
    emit new_sockets is_ready
requests-Answered_example =
    requests-Answered (test_env (pos 99)) (λ b r. ok []) marking_search false new_message
      (λ i. new_message) 1 path_magic refl refl refl (omega arith) refl (λ i. refl) 3
      (marked_call ∷ marked_call ∷ []) (1 ∷ []) server
      (marked_call-IsServed, (marked_call-IsServed, tt)) (refl, refl, omega arith)

calls-Delivers_example :
    (stream : Bytes) × Sent (test_env (pos 99)) path_magic (marked_call ∷ marked_call ∷ []) stream
    × (w' : Sockets) × (answers : List Message) × (read_msg
          (test_env (pos 99))
          (λ b r. ok [])
          marking_search
          false
          new_message
          (Tcp.read_message (test_env (pos 99)))
          (λ i. new_message)
          1
          5
          (stream ++ [])
          server
        ≡ loop
            (test_env (pos 99))
            (λ b r. ok [])
            marking_search
            false
            new_message
            (λ i. new_message)
            1
            3
            []
            w')
    × Answers (test_env (pos 99)) path_magic (marked_call ∷ marked_call ∷ []) answers
    × (back : Bytes) × (w'' : Sockets) × (write_msg 1
          (Tcp.write_message (test_env (pos 99)))
          3
          (w', [])
        ≡ ((w'', back), waiting))
    × Drained answers 1 w' w''
    × Delivers
        (test_env (pos 99))
        (λ b r. ok [])
        false
        new_message
        (λ i. new_message)
        1
        answers
        client
        (read_msg
          (test_env (pos 99))
          (λ b r. ok [])
          (λ p. none)
          false
          new_message
          (Tcp.read_message (test_env (pos 99)))
          (λ i. new_message)
          1
          4
          back
          client)
unfolding Magic.get Magic.default_magics Magic.register Magic.has default_options create connect
    emit new_sockets is_ready
calls-Delivers_example =
    calls-Delivers (test_env (pos 99)) (λ b r. ok []) marking_search false new_message
      (λ i. new_message) 1 1 path_magic 3 3 4 (marked_call ∷ marked_call ∷ []) [] server client refl
      refl refl (omega arith) refl (λ i. refl) (marked_call-IsServed, (marked_call-IsServed, tt))
      (refl, refl, omega arith) refl (omega arith) (omega arith)
