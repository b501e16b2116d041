-- ===== src/Sockets/Timing/Idle.antt =====
-- How long a socket lives from which nothing is heard: `Heartbeat` and `KeepAlive` in any order.
use cosnet.Prelude.{
  ℕ, ◌+◌, ◌^◌, ◌<◌, ◌≤◌, ◌≡◌, refl, ap, ◌&&◌, Bool, true, false, List, [], ◌∷◌, leb, arith,
  Bool-cases, inl, inr, All,
}
use cosnet.Prelude.Int.{pos}
use cosnet.Sockets.State.{Status, status_connected, Socket, Sockets}
use cosnet.Sockets.Lifecycle.{is_valid_status, is_connected, keep_alive, heartbeat}
use cosnet.Sockets.Frame.{update_at}
use cosnet.Sockets.Timing.{Counting, step_counts, beat_expires}

-- Seconds go by, which a heartbeat adds up, or a message is heard.
pub data Tick : Type 0 where
  elapses : ℕ → Tick
  hears : Tick

abbrev pub tick : Tick → ℕ → Sockets → Sockets
tick (elapses v) id w = heartbeat (pos v) id w
tick hears id w = keep_alive id w

unfoldable pub ticks : List Tick → ℕ → Sockets → Sockets
ticks [] id w = w
ticks (t ∷ ts) id w = ticks ts id (tick t id w)

-- The times without a message, the first of which began `n` seconds ago.
unfoldable pub silences : ℕ → List Tick → List ℕ
silences n [] = n ∷ []
silences n (elapses v ∷ ts) = silences (n + v) ts
silences n (hears ∷ ts) = n ∷ silences 0 ts

unfoldable pub all_within : ℕ → List ℕ → Bool
all_within limit [] = true
all_within limit (n ∷ ns) = leb n limit && all_within limit ns

-- No heartbeat overflows.
abbrev pub Fits : ℕ → Tick → Type 0
Fits limit (elapses v) = limit + v < 2 ^ 31
Fits limit hears = Unit

too_long : (limit n : ℕ) (ts : List Tick) → limit < n → all_within limit (silences n ts) ≡ false
unfolding all_within silences
too_long limit n [] h = ground arith
too_long limit n (elapses v ∷ ts) h = too_long limit (n + v) ts (omega arith)
too_long limit n (hears ∷ ts) h = ground arith

not_connected : (s : Status) → is_valid_status s ≡ false → is_connected s ≡ false
unfolding is_valid_status
not_connected s h = ground arith

connected_is_valid : is_valid_status status_connected ≡ true
unfolding is_valid_status
connected_is_valid = refl

-- A socket that has ended hears nothing.
ended_stays :
    (ts : List Tick) (id : ℕ) (w : Sockets)
    → is_valid_status (Socket.status (w.heap id)) ≡ false
    → ticks ts id w ≡ w
unfolding ticks heartbeat keep_alive
ended_stays [] id w h = refl
ended_stays (elapses v ∷ ts) id w h = rw h (ended_stays ts id w h)
ended_stays (hears ∷ ts) id w h =
    rw (not_connected (Socket.status (w.heap id)) h) (ended_stays ts id w h)

keep_alive-Counting :
    (id n : ℕ) (w : Sockets)
    → Counting status_connected id n w
    → Counting status_connected id 0 (keep_alive id w)
      × (Sockets.global (keep_alive id w) ≡ w.global)
unfolding keep_alive
keep_alive-Counting id n w (status, stop, beat) =
    let on : is_connected (Socket.status (w.heap id)) ≡ true = ap is_connected status in
    rw on (
      rw (update_at w.heap id (record (w.heap id) { heartbeat = pos 0 })) (status, stop, refl),
      refl,
    )

abbrev pub Alive : Bool → ℕ → Sockets → Type 0
Alive b id w =
    (is_connected (Socket.status (w.heap id)) ≡ b)
    × (is_valid_status (Socket.status (w.heap id)) ≡ b)

-- With a positive connect time of `limit` seconds that no heartbeat takes beyond an int32, a
-- connected socket with an open channel, from which nothing was heard for `n` seconds, n ≤ limit,
-- is connected after any sequence of heartbeats and `KeepAlive` exactly if no time without a
-- message is longer than `limit`; otherwise its status is not valid any more.
pub ticks-silences :
    (id limit n : ℕ) (ts : List Tick) (w : Sockets)
    → w.global.socket_connect_time ≡ pos limit
    → 0 < limit
    → n ≤ limit
    → All (Fits limit) ts
    → Counting status_connected id n w
    → Alive (all_within limit (silences n ts)) id (ticks ts id w)
unfolding ticks silences all_within
ticks-silences id limit n [] w time positive le fits (status, stop, beat) =
    let within : (leb n limit && true) ≡ true = ground arith in
    rw (within, status) (refl, connected_is_valid)
ticks-silences id limit n (elapses v ∷ ts) w time positive le (fit, fits) counting =
    elim (Bool-cases (leb (n + v) limit)) [
      | inl e ↦
          (let (counting', same) =
              step_counts status_connected connected_is_valid id limit v fit w n time counting
                (ground arith) in
            ticks-silences id limit (n + v) ts (heartbeat (pos v) id w) (rw same time) positive
              (ground arith) fits counting')
      | inr e ↦
          (let passed : limit < n + v = ground arith in
            let gone =
              beat_expires status_connected connected_is_valid id limit v fit w n time counting le
                positive passed in
            rw (ended_stays ts id (heartbeat (pos v) id w) gone, too_long limit (n + v) ts passed)
              (not_connected (Socket.status (Sockets.heap (heartbeat (pos v) id w) id)) gone, gone))
    ]
ticks-silences id limit n (hears ∷ ts) w time positive le (fit, fits) counting =
    let (counting', same) = keep_alive-Counting id n w counting in
    let within : leb n limit ≡ true = ground arith in
    rw within (
      ticks-silences id limit 0 ts (keep_alive id w) (rw same time) positive (omega arith) fits
        counting')
