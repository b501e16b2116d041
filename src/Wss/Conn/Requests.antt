-- ===== src/Wss/Conn/Requests.antt =====
-- Requests to a WebSocket listener, and what becomes of their connections.
use cosnet.Prelude.{
  ℕ, ◌≤◌, ◌≡◌, Bool, false, ◌&&◌, not, Option, none, some, List, [], ◌∷◌, ◌++◌, Result, ok, length,
  if◌then◌else◌,
}
use cosnet.Prelude.Bytes.{Bytes}
use cosnet.Message.Read.{is_empty}
use cosnet.Sockets.Serving.{same_bytes}
use cosnet.Wss.Conn.{Listener, accept, serve_http}

-- A request with its path and what `Upgrade` returns for it, and whether the program stops; or a call
-- of `Accept`, which waits if it finds nothing.
pub data Event : Type 0 where
  requests : Bool → Bytes → Result ℕ → Event
  accepts : Event

abbrev pub took : List ℕ → Listener × Option ℕ → Listener × List ℕ
took taken (ln, none) = (ln, taken)
took taken (ln, some conn) = (ln, taken ++ (conn ∷ []))

-- With the connections that `Accept` has returned.
unfoldable pub happens : Event → Listener × List ℕ → Listener × List ℕ
happens (requests stopped path result) (ln, taken) = (serve_http stopped path result ln, taken)
happens accepts (ln, taken) = took taken (accept ln.conn_chan ln)

unfoldable pub all_happen : List Event → Listener × List ℕ → Listener × List ℕ
all_happen [] s = s
all_happen (e ∷ es) s = all_happen es (happens e s)

-- The route of a listener that has one is asked for.
abbrev pub is_route : Bytes → Bytes → Bool
is_route route path = not (not (is_empty route) && not (same_bytes path route))

-- The connections that were upgraded, in order.
unfoldable pub upgrades : Bytes → List Event → List ℕ
upgrades route [] = []
upgrades route (requests false path (ok conn) ∷ es) =
    let rest = upgrades route es in if is_route route path then conn ∷ rest else rest
upgrades route (_ ∷ es) = upgrades route es

-- The list `zs` has those of `xs` and those of `ys`, each in their order.
pub data Interleaves : List ℕ → List ℕ → List ℕ → Type 0 where
  neither : Interleaves [] [] []
  first : {xs ys zs : List ℕ} (x : ℕ) → Interleaves xs ys zs → Interleaves (x ∷ xs) ys (x ∷ zs)
  second : {xs ys zs : List ℕ} (y : ℕ) → Interleaves xs ys zs → Interleaves xs (y ∷ ys) (y ∷ zs)

pub first_last :
    {xs ys zs : List ℕ} (c : ℕ)
    → Interleaves xs ys zs
    → Interleaves (xs ++ (c ∷ [])) ys (zs ++ (c ∷ []))
first_last c neither = first c neither
first_last c (first x h) = first x (first_last c h)
first_last c (second y h) = second y (first_last c h)

pub second_last :
    {xs ys zs : List ℕ} (c : ℕ)
    → Interleaves xs ys zs
    → Interleaves xs (ys ++ (c ∷ [])) (zs ++ (c ∷ []))
second_last c neither = second c neither
second_last c (first x h) = first x (second_last c h)
second_last c (second y h) = second y (second_last c h)

-- Every upgraded connection is accepted, waits in the channel, or was closed; those that are accepted
-- or wait are so in their order; and the channel holds no more than its size.
abbrev pub Accounted : Bytes → ℕ → List ℕ → Listener × List ℕ → Type 0
Accounted route size seen (ln, taken) =
    Interleaves (taken ++ ln.conn_chan) ln.hung_up seen
    × (length ln.conn_chan ≤ size)
    × (ln.route ≡ route)
    × (ln.conn_chan_size ≡ size)
