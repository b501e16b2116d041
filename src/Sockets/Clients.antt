-- ===== src/Sockets/Clients.antt =====
-- `Connect` of sockets.go and the goroutine of `tryReconnect` of socket.go: dialling, and what the
-- manager does with the connection. `none` and no change are a `tryConnect` that still runs.
pub mod Tries
pub mod Ends
use cosnet.Prelude.{ℕ, Bool, Option, none, some, Result, err, max_retry_reached, context_done}
use cosnet.Prelude.Bytes.{Bytes}
use cosnet.Sockets.State.{Sockets}
use cosnet.Sockets.Lifecycle.{reconnect_done, connected_to}
use cosnet.Sockets.Dialing.{Dialled, reached, max_retry, cancelled, unfinished, try_connect}

-- `Connect` behind `tryConnect`.
unfoldable pub after_try_connect : Bool → Bytes → Dialled → Sockets → Option (Sockets × Result ℕ)
after_try_connect stopped address (reached conn) w = some (connected_to stopped address conn w)
after_try_connect stopped address max_retry w = some (w, err max_retry_reached)
after_try_connect stopped address cancelled w = some (w, err context_done)
after_try_connect stopped address unfinished w = none

-- `tryReconnect` behind `tryConnect`.
unfoldable pub reconnect_after : ℕ → Dialled → Sockets → Sockets
reconnect_after id (reached conn) w = reconnect_done id (some conn) w
reconnect_after id max_retry w = reconnect_done id none w
reconnect_after id cancelled w = reconnect_done id none w
reconnect_after id unfinished w = w

module _ (dial : ℕ → Option ℕ) (stops : ℕ → Bool) (fuel : ℕ) where
  -- `Connect(address)`
  unfoldable pub connect_to : Bool → Bytes → Sockets → Option (Sockets × Result ℕ)
  connect_to stopped address w =
      after_try_connect stopped address (try_connect w.options dial stops fuel 0).0 w

  -- The goroutine of `tryReconnect`.
  unfoldable pub try_reconnect : ℕ → Sockets → Sockets
  try_reconnect id w = reconnect_after id (try_connect w.options dial stops fuel 0).0 w
