-- ===== src/Sockets/State.antt =====
-- The state of `Sockets` and of each `Socket`. Goroutines keep a socket after the manager forgot it,
-- so every socket ever created stays in `heap`, under its id, and `sockets` holds the ids that the
-- manager's map has. The counters do not wrap: a uint64 of ids and an int64 of connections.
use cosnet.Prelude.{
  ℕ, zero, suc, Bool, false, ◌||◌, Option, none, List, [], ◌∷◌, ◌++◌, Error, ◌==◌, if◌then◌else◌,
}
use cosnet.Prelude.Int.{ℤ, pos, negsuc}
use cosnet.Prelude.Bytes.{Bytes}
use cosnet.Config.{Config, EventType}
use cosnet.Message.Object.{Message}

pub data Status : Type 0 where
  status_none status_connected status_closing : Status
  status_disconnect status_disconnected status_reconnecting status_released : Status

-- The channel `stop`: nil before the first connection.
pub data Stop : Type 0 where
  unset opened closed : Stop

-- The connection is a handle of the network layer, the data that of a session.
pub record Socket : Type 0 where
  pub conn : Option ℕ
  pub session : Option ℕ
  pub stop : Stop
  pub magic : ℕ
  pub cwrite : List Message
  pub status : Status
  pub address : Bytes
  pub heartbeat : ℤ

-- What an event carries besides its socket; `recovered` is the value of a panic.
pub data Attached : Type 0 where
  nothing : Attached
  number : ℤ → Attached
  bool : Bool → Attached
  text : Bytes → Attached
  error : Error → Attached
  message : Message → Attached
  recovered : Attached

-- `global` is the package's `Options`, which the sockets read; `options` is the manager's copy of it.
-- `events` has the events in the order in which they were emitted, `closed_conns` the connections that
-- were closed, `recycled` the messages that were released, and `reconnecting` the sockets for which
-- the goroutine of `tryReconnect` runs.
pub record Sockets : Type 0 where
  pub global : Config
  pub options : Config
  pub index : ℕ
  pub count : ℤ
  pub sockets : List ℕ
  pub heap : ℕ → Socket
  pub events : List (EventType × ℕ × Attached)
  pub closed_conns : List ℕ
  pub recycled : List Message
  pub reconnecting : List ℕ

-- A socket that is not there (yet).
abbrev pub no_socket : Socket
no_socket = record {
  conn = none;
  session = none;
  stop = unset;
  magic = 0;
  cwrite = [];
  status = status_released;
  address = [];
  heartbeat = pos 0;
}

-- `New()`, with `Options` as it stands
unfoldable pub new_sockets : Config → Sockets
new_sockets options = record {
  global = options;
  options = options;
  index = 0;
  count = pos 0;
  sockets = [];
  heap = λ _. no_socket;
  events = [];
  closed_conns = [];
  recycled = [];
  reconnecting = [];
}

-- The keys of a map: membership and deletion.
unfoldable pub member : ℕ → List ℕ → Bool
member id [] = false
member id (x ∷ xs) = x == id || member id xs

unfoldable pub remove : ℕ → List ℕ → List ℕ
remove id [] = []
remove id (x ∷ xs) = if x == id then remove id xs else x ∷ remove id xs

abbrev pub update : (ℕ → Socket) → ℕ → Socket → ℕ → Socket
update heap id s i = if id == i then s else heap i

-- `atomic.AddInt64(&count, ±1)`
abbrev pub increment : ℤ → ℤ
increment (pos n) = pos (suc n)
increment (negsuc zero) = pos 0
increment (negsuc (suc n)) = negsuc n

abbrev pub decrement : ℤ → ℤ
decrement (pos zero) = negsuc 0
decrement (pos (suc n)) = pos n
decrement (negsuc n) = negsuc (suc n)

abbrev pub set_socket : ℕ → Socket → Sockets → Sockets
set_socket id s w = record w { heap = update w.heap id s }

-- `Emit`: the handlers that the program registered run here; the model keeps the event.
unfoldable pub emit : EventType → ℕ → Attached → Sockets → Sockets
emit e id attached w = record w { events = w.events ++ ((e, id, attached) ∷ []) }
