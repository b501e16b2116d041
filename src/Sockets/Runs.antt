-- ===== src/Sockets/Runs.antt =====
-- Runs of the manager: any sequence of its methods, from `New()`.
use cosnet.Prelude.{ℕ, Bool, Option, List, [], ◌∷◌}
use cosnet.Prelude.Int.{ℤ}
use cosnet.Prelude.Bytes.{Bytes}
use cosnet.Config.{Config}
use cosnet.Sockets.State.{Sockets, new_sockets}
use cosnet.Sockets.Lifecycle.{
  disconnect, reconnect_done, close, authentication, replaced, keep_alive, heartbeat, create,
  connected_to,
}
use cosnet.Sockets.Connecting.{create-Inv, connected_to-Inv, reconnect_done-Inv}
use cosnet.Sockets.Sending
use cosnet.Sockets.Sending.Ownership.{write-Inv}
use cosnet.Message.Object.{Message}
use cosnet.Sockets.Invariant.{Inv, Inv-new}
use cosnet.Sockets.Preserved.{disconnect-Inv}
use cosnet.Sockets.Touched.{
  keep_alive-Inv, authentication-Inv, close-Inv, replaced-Inv, heartbeat-Inv,
}

-- What the goroutines and the program do to the manager, in the order in which it happens.
pub data Operation : Type 0 where
  accept : Bool → ℕ → Operation
  dial : Bool → Bytes → ℕ → Operation
  drop_socket : ℕ → Operation
  reconnect : ℕ → Option ℕ → Operation
  close_socket : ℕ → Option ℤ → Operation
  authenticate : ℕ → Option ℕ → Bool → Operation
  replace : ℕ → Bytes → Operation
  keep : ℕ → Operation
  beat : ℤ → ℕ → Operation
  write_message : Bool → Bool → Message → ℕ → Operation

unfoldable pub step : Operation → Sockets → Sockets
step (accept stopped conn) w = (create stopped conn w).0
step (dial stopped address conn) w = (connected_to stopped address conn w).0
step (drop_socket id) w = (disconnect id w).0
step (reconnect id result) w = reconnect_done id result w
step (close_socket id delay) w = close id delay w
step (authenticate id v again) w = authentication id v again w
step (replace id ip) w = replaced id ip w
step (keep id) w = keep_alive id w
step (beat v id) w = heartbeat v id w
step (write_message safe pick_stop m id) w = (Sending.write safe pick_stop m id w).0

unfoldable pub run : List Operation → Sockets → Sockets
run [] w = w
run (op ∷ ops) w = run ops (step op w)

-- Every method keeps the invariant.
pub step-Inv : (op : Operation) (w : Sockets) → Inv w → Inv (step op w)
unfolding step
step-Inv (accept stopped conn) w inv = create-Inv w inv conn stopped
step-Inv (dial stopped address conn) w inv = connected_to-Inv w inv stopped address conn
step-Inv (drop_socket id) w inv = disconnect-Inv id w inv
step-Inv (reconnect id result) w inv = reconnect_done-Inv w inv id result
step-Inv (close_socket id delay) w inv = close-Inv id delay w inv
step-Inv (authenticate id v again) w inv = authentication-Inv id v again w inv
step-Inv (replace id ip) w inv = replaced-Inv id ip w inv
step-Inv (keep id) w inv = keep_alive-Inv id w inv
step-Inv (beat v id) w inv = heartbeat-Inv v id w inv
step-Inv (write_message safe pick_stop m id) w inv = write-Inv safe pick_stop m id w inv

run-Inv : (ops : List Operation) (w : Sockets) → Inv w → Inv (run ops w)
unfolding run
run-Inv [] w inv = inv
run-Inv (op ∷ ops) w inv = run-Inv ops (step op w) (step-Inv op w inv)

-- After any sequence of methods from `New()`, the counter is the number of sockets in the map, no
-- id is in the map twice, no id above `index` is in use, and the status and the channel of each
-- socket agree with its membership of the map and with whether it reconnects: no status of an
-- unfinished method remains.
pub run-new_sockets :
    (options : Config) (ops : List Operation) → Inv (run ops (new_sockets options))
run-new_sockets options ops = run-Inv ops (new_sockets options) (Inv-new options)
