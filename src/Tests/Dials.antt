-- ===== src/Tests/Dials.antt =====
-- Dialling with the default options.
use cosnet.Prelude.{
  ℕ, ◌<◌, ◌≡◌, refl, false, Option, none, some, [], ◌∷◌, arith, if◌then◌else◌, ◌==◌,
}
use cosnet.Prelude.Int.{pos}
use cosnet.Prelude.Bytes.{codes}
use cosnet.Config.{default_config}
use cosnet.Sockets.State.{Sockets, new_sockets, emit}
use cosnet.Sockets.Lifecycle.{
  is_valid_status, close, is_client, connect, create, connected_to, disconnect,
}
use cosnet.Sockets.Invariant.{Inv}
use cosnet.Sockets.Runs.{dial, close_socket, run, step, run-new_sockets}
use cosnet.Sockets.Admission.{Ready}
use cosnet.Sockets.Clients.{connect_to, try_reconnect}
use cosnet.Sockets.Clients.Tries.{Connects, connect_to-Connects, try_reconnect-Ready}
use cosnet.Sockets.Clients.Ends.{Settles, try_reconnect-Settles}
use cosnet.Sockets.Dialing.{try_connect, max_retry, waits, try_connect-waits}

-- The third try connects.
abbrev third : ℕ → Option ℕ
third k = if k == 2 then some 9 else none

-- A client's manager, after `Connect("h")`.
abbrev client : Sockets
client = (connected_to false (codes "h") 7 (new_sockets default_config)).0

client-Inv : Inv client
unfolding run step
client-Inv = run-new_sockets default_config (dial false (codes "h") 7 ∷ [])

earlier : (i : ℕ) → i < 2 → (third i ≡ none) × (false ≡ false)
earlier i lt = (ground arith, refl)

connect_to-Connects_example :
    Connects 9
      (new_sockets default_config)
      (connect_to third (λ k. false) 3 false (codes "h") (new_sockets default_config))
unfolding new_sockets run
connect_to-Connects_example =
    connect_to-Connects third (λ k. false) 10 3 9 2 (omega arith) (omega arith) refl earlier
      (codes "h") 100000 (new_sockets default_config) (run-new_sockets default_config []) refl refl
      (omega arith) refl

-- `Close` was called on the client's socket.
abbrev closing_client : Sockets
closing_client = close 1 none client

try_reconnect-Ready_example :
    Ready 1 9 (try_reconnect third (λ k. false) 3 1 (disconnect 1 closing_client).0)
unfolding connected_to create connect emit new_sockets is_valid_status is_client close run step
try_reconnect-Ready_example =
    try_reconnect-Ready third (λ k. false) 10 3 9 2 (omega arith) (omega arith) refl earlier 1
      closing_client
      (run-new_sockets default_config (dial false (codes "h") 7 ∷ close_socket 1 none ∷ [])) refl
      refl refl

try_reconnect-Settles_example :
    Settles third
      (λ k. false)
      10
      1
      (pos 1)
      (try_reconnect third (λ k. false) 11 1 (disconnect 1 client).0)
unfolding connected_to create connect emit new_sockets is_valid_status is_client
try_reconnect-Settles_example =
    try_reconnect-Settles third (λ k. false) 10 11 1 client client-Inv refl (omega arith)
      (omega arith) refl refl

try_connect-waits_example :
    try_connect default_config (λ k. none) (λ k. false) 11 0 ≡ (max_retry, waits 1000 30000 10 0)
try_connect-waits_example =
    try_connect-waits default_config (λ k. none) (λ k. false) 10 1000 30000 refl refl refl
      (omega arith) (λ k h. omega (arith, h)) (λ k. refl) (λ k. refl) 10 11 0 (omega arith)
      (omega arith) (omega arith)
