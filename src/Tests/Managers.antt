-- ===== src/Tests/Managers.antt =====
-- A manager with one socket, at work.
use cosnet.Prelude.{
  ◌<◌, ◌≤◌, ◌≡◌, refl, false, true, some, [], ◌∷◌, ◌⊎◌, ok, err, arith, length, max_connections,
  server_closed,
}
use cosnet.Prelude.Int.{pos}
use cosnet.Prelude.Bytes.{codes}
use cosnet.Message.Object.{new_message, path, value}
use cosnet.Message.Marshal.{marshal}
use cosnet.Sockets.Sending.{send_with_magic}
use cosnet.Sockets.Sending.Ownership.{Owned, send_with_magic-Owned}
use cosnet.Tests.Data.{test_env}
use cosnet.Config.{default_config}
use cosnet.Sockets.State.{Socket, Sockets, new_sockets, emit}
use cosnet.Sockets.Lifecycle.{is_valid_status, close, create, connect}
use cosnet.Sockets.Invariant.{Inv}
use cosnet.Sockets.Runs.{
  accept, dial, drop_socket, reconnect, close_socket, beat, run, step, run-new_sockets,
}
use cosnet.Sockets.Admission.{Ready, create-Admitted}
use cosnet.Sockets.Timing.{Closing, beats, close-beats}

-- One server socket with the id 1.
abbrev serving : Sockets
serving = (create false 7 (new_sockets default_config)).0

run-new_sockets_example : Inv (
    run
      (accept false 7
        ∷ dial false (codes "h") 8
        ∷ drop_socket 2
        ∷ reconnect 2 (some 9)
        ∷ close_socket 1 (some (pos 3))
        ∷ beat (pos 9) 1
        ∷ [])
      (new_sockets default_config))
run-new_sockets_example = run-new_sockets default_config (
    accept false 7
    ∷ dial false (codes "h") 8
    ∷ drop_socket 2
    ∷ reconnect 2 (some 9)
    ∷ close_socket 1 (some (pos 3))
    ∷ beat (pos 9) 1
    ∷ [])

-- Five seconds after `Close(5)`, with a heartbeat every two.
close-beats_example :
    Closing 1 29 (beats 2 (pos 2) 1 (close 1 (some (pos 5)) serving))
    × (is_valid_status
          (Socket.status (Sockets.heap (beats 3 (pos 2) 1 (close 1 (some (pos 5)) serving)) 1))
        ≡ false)
unfolding create connect emit new_sockets
close-beats_example =
    close-beats 1 30 5 2 2 serving refl (omega arith) (omega arith) (omega arith) refl refl
      (omega arith) (omega arith)

create-Admitted_example :
    ((false ≡ true) × (create false 8 serving ≡ (serving, err server_closed)))
    ⊎ (((false ≡ false)
          × (100000 ≤ length (Sockets.sockets serving))
          × (create false 8 serving
              ≡ (record serving { closed_conns = 8 ∷ serving.closed_conns }, err max_connections)))
        ⊎ ((false ≡ false)
            × (length (Sockets.sockets serving) < 100000)
            × ((create false 8 serving).1 ≡ ok 2)
            × (length (Sockets.sockets (create false 8 serving).0) ≡ 2)
            × Ready 2 8 (create false 8 serving).0))
unfolding create connect emit new_sockets run step
create-Admitted_example =
    create-Admitted false serving 8 100000 (run-new_sockets default_config (accept false 7 ∷ []))
      refl (omega arith)

-- A queue of one message, and a call that does not wait.
send_with_magic-Owned_example :
    Owned
      (marshal (test_env (pos 3)) 0xf0 0 (pos 5) (path (codes "a")) (value 9) new_message).0
      1
      serving
      (send_with_magic
        (test_env (pos 3))
        false
        false
        0xf0
        0
        (pos 5)
        (path (codes "a"))
        (value 9)
        new_message
        1
        serving)
send_with_magic-Owned_example =
    send_with_magic-Owned (test_env (pos 3)) false false 0xf0 0 (pos 5) (path (codes "a")) (value 9)
      new_message 1 serving
