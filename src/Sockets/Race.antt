-- ===== src/Sockets/Race.antt =====
-- `disconnect`, `tryReconnect`, `release` and `Close` of socket.go, run by several goroutines on one
-- socket, one atomic access at a time.
pub mod Exclusive
pub mod Turns
pub mod Alone
pub mod Stale
use cosnet.Prelude.{ℕ, zero, suc, ◌≡◌, Bool, true, false, List, [], ◌∷◌, ◌==◌, if◌then◌else◌}
use cosnet.Sockets.State.{
  Status, status_none, status_connected, status_closing, status_disconnect, status_disconnected,
  status_reconnecting, status_released, Stop, unset, opened, closed,
}
use cosnet.Sockets.Lifecycle.{is_valid_status}

unfoldable pub Status-discrete : Discrete Status
Status-discrete = hlevel

-- Where a goroutine is: outside; it has read a valid status and is about to compare and swap; it has
-- won, and goes on to close the channel, then the connection, then to leave or to dial; a dialled
-- connection has a new channel before it is connected.
pub data Place : Type 0 where
  outside won stopped hung leaving dialing dialled : Place
  seen : Status → Place

-- `hangups` counts the connections that were closed, and `releases` the calls of `release`;
-- `panicked` is a `close` of a nil or closed channel.
pub record Shared : Type 0 where
  pub client : Bool
  pub status : Status
  pub stop : Stop
  pub places : ℕ → Place
  pub hangups : ℕ
  pub releases : ℕ
  pub panicked : Bool

abbrev pub move : ℕ → Place → (ℕ → Place) → ℕ → Place
move i p places j = if i == j then p else places j

abbrev pub at : ℕ → Place → Shared → Shared
at i p w = record w { places = move i p w.places }

-- `close(sock.stop)`, whose panic is recovered.
unfoldable pub close_stop : Stop → ℕ → Shared → Shared
close_stop opened i w = at i stopped (record w { stop = closed })
close_stop closed i w = at i outside (record w { panicked = true })
close_stop unset i w = at i outside (record w { panicked = true })

-- `CompareAndSwapInt32(&sock.status, status, SocketStatusDisconnect)`
unfoldable pub swap : Status → ℕ → Shared → Shared
swap s i w = elim (Status-discrete s w.status) [
  | yes e ↦ at i won (record w { status = status_disconnect })
  | no e ↦ at i outside w
]

-- The next access of the goroutine `i`; `reached` is the result of `tryConnect`.
unfoldable pub advance : Place → Bool → ℕ → Shared → Shared
advance outside reached i w = if is_valid_status w.status then at i (seen w.status) w else w
advance (seen s) reached i w = swap s i w
advance won reached i w = close_stop w.stop i w
advance stopped reached i w = at i hung (record w { hangups = suc w.hangups })
advance hung reached i w =
    if w.client
    then at i dialing (record w { status = status_reconnecting })
    else at i leaving (record w { status = status_disconnected })
advance leaving reached i w =
    at i outside (record w { status = status_released; releases = suc w.releases })
advance dialing reached i w =
    if reached
    then at i dialled (record w { stop = opened })
    else at i outside (record w { status = status_released; releases = suc w.releases })
advance dialled reached i w = at i outside (record w { status = status_connected })

unfoldable pub force_close : Status → Shared → Shared
force_close status_connected w = record w { status = status_closing }
force_close _ w = w

-- What happens next: an access of a goroutine, or a `Close` of the socket.
pub data Turn : Type 0 where
  goroutine : ℕ → Bool → Turn
  closes : Turn

unfoldable pub turn : Turn → Shared → Shared
turn (goroutine i reached) w = advance (w.places i) reached i w
turn closes w = force_close w.status w

unfoldable pub turns : List Turn → Shared → Shared
turns [] w = w
turns (t ∷ ts) w = turns ts (turn t w)

-- A connected socket, before any goroutine ends it.
abbrev pub connected : Bool → Shared
connected client = record {
  client = client;
  status = status_connected;
  stop = opened;
  places = λ _. outside;
  hangups = 0;
  releases = 0;
  panicked = false;
}
