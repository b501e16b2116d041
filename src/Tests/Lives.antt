-- ===== src/Tests/Lives.antt =====
-- The statuses of sockets over their lives.
use cosnet.Prelude.{refl, false, some, [], ◌∷◌, arith}
use cosnet.Prelude.Bytes.{codes}
use cosnet.Config.{default_config}
use cosnet.Sockets.State.{Sockets, new_sockets, emit}
use cosnet.Sockets.Lifecycle.{
  create, connect, disconnect, stop_and_settle, close_conn, settle, release, is_client,
  is_valid_status,
}
use cosnet.Sockets.Runs.{accept, dial, drop_socket, reconnect, run, step, run-new_sockets}
use cosnet.Sockets.Graph.Steps.{Follows}
use cosnet.Sockets.Graph.Paths.{Final, step-Follows, run-Final}
use cosnet.Sockets.Timing.Idle.{elapses, hears, ticks, silences, all_within, Alive, ticks-silences}

abbrev serving : Sockets
serving = (create false 7 (new_sockets default_config)).0

step-Follows_example :
    Follows (run (accept false 7 ∷ dial false (codes "h") 8 ∷ []) (new_sockets default_config)) (
      step
        (drop_socket 2)
        (run (accept false 7 ∷ dial false (codes "h") 8 ∷ []) (new_sockets default_config)))
step-Follows_example =
    step-Follows (drop_socket 2)
      (run (accept false 7 ∷ dial false (codes "h") 8 ∷ []) (new_sockets default_config))
      (run-new_sockets default_config (accept false 7 ∷ dial false (codes "h") 8 ∷ []))

run-Final_example : Final 1 (
    run
      (accept false 8 ∷ reconnect 1 (some 9) ∷ [])
      (run (accept false 7 ∷ drop_socket 1 ∷ []) (new_sockets default_config)))
unfolding run step create connect emit new_sockets disconnect stop_and_settle close_conn settle
    release is_client is_valid_status
run-Final_example =
    run-Final default_config (accept false 7 ∷ drop_socket 1 ∷ [])
      (accept false 8 ∷ reconnect 1 (some 9) ∷ []) 1 (omega arith) refl

-- A message after twenty seconds, and silence for longer than thirty.
ticks-silences_example :
    Alive
      (all_within 30 (silences 0 (elapses 20 ∷ hears ∷ elapses 20 ∷ elapses 20 ∷ [])))
      1
      (ticks (elapses 20 ∷ hears ∷ elapses 20 ∷ elapses 20 ∷ []) 1 serving)
unfolding create connect emit new_sockets
ticks-silences_example =
    ticks-silences 1 30 0 (elapses 20 ∷ hears ∷ elapses 20 ∷ elapses 20 ∷ []) serving refl
      (omega arith) (omega arith) (omega arith) (refl, refl, refl)
