-- ===== src/Sockets/Serving.antt =====
-- sockets.go: `Matcher`, `Range`, `Listen`, `Accept`, `Start`, `stop` and `daemon`, by which a manager
-- serves its listeners and its sockets.
pub mod Accepting
use cosnet.Prelude.{
  ℕ, zero, suc, ◌≡◌, refl, ap, Bool, true, false, ◌&&◌, ◌||◌, Option, none, some, List, [], ◌∷◌,
  ◌++◌, Error, Result, ok, err, panic, ◌==◌, if◌then◌else◌, err_closed, listener_closed,
  unknown_scheme, All,
}
use cosnet.Prelude.Int.{ℤ, pos}
use cosnet.Prelude.Bytes.{Bytes, codes}
use cosnet.Config.{Config}
use cosnet.Message.Magic.{Magics}
use cosnet.Message.Magic
use cosnet.Message.Read.{is_zero}
use cosnet.Sockets.State.{Sockets}
use cosnet.Sockets.Lifecycle.{create, heartbeat, heartbeat_all}

-- `Matcher(r)`: whether the first byte of a stream is a registered magic number.
unfoldable pub matcher : Magics → Bytes → Bool
matcher magics [] = false
matcher magics (c ∷ s) = Magic.has magics c

-- `Range(fn)`, over the ids in some order, until `fn` returns false.
abbrev pub range_on : (Sockets → Sockets) → Sockets × Bool → Sockets
range_on next (w, true) = next w
range_on next (w, false) = w

unfoldable pub range : (ℕ → Sockets → Sockets × Bool) → List ℕ → Sockets → Sockets
range fn [] w = w
range fn (id ∷ ids) w = range_on (range fn ids) (fn id w)

-- `Heartbeat(v)` is `Range` of the sockets' own.
pub heartbeat_all-range :
    (v : ℤ) (ids : List ℕ) (w : Sockets)
    → heartbeat_all v ids w ≡ range (λ id w1. (heartbeat v id w1, true)) ids w
unfolding heartbeat_all range
heartbeat_all-range v [] w = refl
heartbeat_all-range v (id ∷ ids) w = heartbeat_all-range v ids (heartbeat v id w)

-- `daemon`: at each tick of the timer the heartbeat of all sockets; a tick has the order of its
-- `Range`. Without an interval no timer is started.
unfoldable pub ticks : List (List ℕ) → Sockets → Sockets
ticks [] w = w
ticks (ids ∷ rest) w = ticks rest (heartbeat_all w.options.heartbeat ids w)

unfoldable pub daemon : List (List ℕ) → Sockets → Sockets
daemon rounds w = if is_zero w.options.heartbeat then w else ticks rounds w

-- `Start()` with the flag `started`: the flag afterwards, and whether the daemon is started.
unfoldable pub start : Bool → Bool × Bool
start true = (true, false)
start false = (true, true)

-- `stop()`: every listener is closed, and its error is dropped.
unfoldable pub stop : {L : Type 0} → (L → L × Result (Unit {0})) → List L → List L
stop close [] = []
stop close (ln ∷ rest) = (close ln).0 ∷ stop close rest

-- The scheme of an address, in lower case, names the package that listens.
pub data Network : Type 0 where
  tcp wss udp unknown : Network

unfoldable pub same_bytes : Bytes → Bytes → Bool
same_bytes [] [] = true
same_bytes [] (d ∷ t) = false
same_bytes (c ∷ s) [] = false
same_bytes (c ∷ s) (d ∷ t) = c == d && same_bytes s t

unfoldable pub is_one_of : Bytes → List Bytes → Bool
is_one_of s [] = false
is_one_of s (t ∷ ts) = same_bytes s t || is_one_of s ts

unfoldable pub network_of : Bytes → Network
unfolding is_one_of same_bytes
network_of scheme =
    if is_one_of scheme (codes "tcp" ∷ codes "tcp4" ∷ codes "tcp6" ∷ [])
    then tcp
    else if is_one_of scheme
        (codes "ws" ∷ codes "wss" ∷ codes "wss4" ∷ codes "wss5" ∷ codes "wss6" ∷ [])
    then wss
    else if is_one_of scheme (codes "udp" ∷ codes "udp4" ∷ codes "udp6" ∷ [])
    then udp
    else unknown

-- `Address()`, over what `Addr` of each listener gives, with `none` for nil. `split` is
-- `net.SplitHostPort`, `join` is `net.JoinHostPort`, and `local` is the address in the local network,
-- if there is one. An address that cannot be split is passed over.
module _ (split : Bytes → Option (Bytes × Bytes)) (join : Bytes → Bytes → Bytes)
    (local : Option Bytes) where
  unfoldable pub public_address : Bytes → Bytes × Bytes → Bytes
  unfolding is_one_of same_bytes
  public_address a (ip, port) =
      if is_one_of ip ([] ∷ codes "0.0.0.0" ∷ codes "127.0.0.1" ∷ codes "localhost" ∷ [])
      then elim local [ none ↦ a | some l ↦ join l port ]
      else a

  abbrev found : Bytes → Bytes → Option (Bytes × Bytes) → Bytes
  found a next none = next
  found a next (some parts) = public_address a parts

  unfoldable pub address : List (Option Bytes) → Bytes
  address [] = []
  address (none ∷ rest) = address rest
  address (some a ∷ rest) = found a (address rest) (split a)

-- A round of the loop of `Accept`: the test of the loop finds that the program has stopped; or it
-- finds that it runs, the listener returns a connection or an error, and the flag is what `Create`
-- finds then.
pub data Round : Type 0 where
  stops : Round
  takes : Bool → Result ℕ → Round

abbrev pub accept_next : (Sockets → Sockets × Bool) → Error → Sockets → Sockets × Bool
accept_next next err_closed w = (w, false)
accept_next next _ w = next w

abbrev pub created : (Sockets → Sockets × Bool) → Sockets × Result ℕ → Sockets × Bool
created next (w, ok id) = next w
created next (w, err e) = accept_next next e w
created next (w, panic) = (w, false)

-- The loop of `Accept(ln)`, with whether it still runs: without a next round it waits for the
-- listener. It ends where the program has stopped and at `net.ErrClosed`; `Create` may fail too.
unfoldable pub accept_loop : List Round → Sockets → Sockets × Bool
accept_loop [] w = (w, true)
accept_loop (stops ∷ rs) w = (w, false)
accept_loop (takes stopped (ok conn) ∷ rs) w = created (accept_loop rs) (create stopped conn w)
accept_loop (takes stopped (err e) ∷ rs) w = accept_next (accept_loop rs) e w
accept_loop (takes stopped panic ∷ rs) w = (w, false)

-- The goroutine of `Accept(ln)`, with the listeners that `stop` closes. Where the loop has ended, the
-- deferred `ln.Close()` is called, whose error is dropped.
unfoldable pub accept :
    {L : Type 0}
    → (L → L × Result (Unit {0}))
    → L
    → List Round
    → List L × Sockets
    → List L × Sockets
accept close ln rs (listeners, w) =
    let (w', running) = accept_loop rs w in
    (listeners ++ ((if running then ln else (close ln).0) ∷ []), w')

-- The scheme of an address, with the default.
unfoldable pub scheme_or_tcp : Bytes → Bytes
scheme_or_tcp [] = codes "tcp"
scheme_or_tcp (c ∷ s) = c ∷ s

-- `Listen(address)`: `parse` is `utils.NewAddress`, with the scheme of what it returns and its
-- `String()` under another scheme, `to_lower` is `strings.ToLower`, and the others are the `New` of each
-- package. The listener that it returns is handed to `Accept`.
module _ {A L : Type 0} (parse : Bytes → A) (scheme : A → Bytes) (print : Bytes → A → Bytes)
    (to_lower : Bytes → Bytes) (new_tcp new_wss new_udp : Bytes → Bytes → Result L) where
  unfoldable pub open_listener : Network → Bytes → Bytes → Result L
  open_listener tcp network a = new_tcp network a
  open_listener wss network a = new_wss network a
  open_listener udp network a = new_udp network a
  open_listener unknown network a = err unknown_scheme

  unfoldable pub listen : Bytes → Result L
  listen address =
      let addr = parse address in
      let s = scheme_or_tcp (scheme addr) in
      open_listener (network_of (to_lower s)) (to_lower s) (print s addr)
