-- ===== src/Udp/State.antt =====
-- udp/options.go, and the structs of udp/listener.go and udp/conn.go with the map of connections.
use cosnet.Prelude.{ℕ, Bool, false, Option, none, some, List, [], ◌∷◌, Result, ◌==◌, if◌then◌else◌}
use cosnet.Prelude.Bytes.{Bytes}

-- `Options` of udp/options.go.
pub record Options : Type 0 where
  pub conn_chan_size : ℕ
  pub msg_chan_size : ℕ

unfoldable pub default_options : Options
default_options = record { conn_chan_size = 100; msg_chan_size = 100 }

-- The channel `msgChan` by what it holds, and whether it is closed.
pub record Conn : Type 0 where
  pub addr : ℕ
  pub msg_chan : List Bytes
  pub closed : Bool

-- `locked` is the mutex, `next` the number of connections made, `sent` the datagrams written, with
-- their addresses, and `down` whether the socket is closed.
pub record Listener : Type 0 where
  pub options : Options
  pub conn_ch : List ℕ
  pub conn_ch_closed : Bool
  pub conns : Option (List (ℕ × ℕ))
  pub locked : Bool
  pub heap : ℕ → Conn
  pub next : ℕ
  pub sent : List (ℕ × Bytes)
  pub down : Bool

-- What a call comes to; `waits` where it waits for a channel or for the mutex.
pub data Outcome (A : Type 0) : Type 0 where
  done : Result A → Outcome A
  waits : Outcome A

abbrev pub no_conn : Conn
no_conn = record { addr = 0; msg_chan = []; closed = false }

-- `New`, once the socket is open.
unfoldable pub new_listener : Options → Listener
new_listener options = record {
  options = options;
  conn_ch = [];
  conn_ch_closed = false;
  conns = some [];
  locked = false;
  heap = λ _. no_conn;
  next = 0;
  sent = [];
  down = false;
}

-- The map of connections.
unfoldable pub find : ℕ → List (ℕ × ℕ) → Option ℕ
find key [] = none
find key ((k, i) ∷ rest) = if k == key then some i else find key rest

unfoldable pub delete : ℕ → List (ℕ × ℕ) → List (ℕ × ℕ)
delete key [] = []
delete key ((k, i) ∷ rest) = if k == key then delete key rest else (k, i) ∷ delete key rest

-- `ln.conns[key]` and `delete(ln.conns, key)`, which a nil map allows.
abbrev pub conn_of : ℕ → Listener → Option ℕ
conn_of key l = elim l.conns [ none ↦ none | some m ↦ find key m ]

abbrev pub update : (ℕ → Conn) → ℕ → Conn → ℕ → Conn
update heap i c j = if i == j then c else heap j

abbrev pub set_conn : ℕ → Conn → Listener → Listener
set_conn i c l = record l { heap = update l.heap i c }
