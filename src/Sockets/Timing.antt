-- ===== src/Sockets/Timing.antt =====
-- How long a socket lives after `Close`: the heartbeats of the daemon count its time.
pub mod Idle
use cosnet.Prelude.{
  ℕ, zero, suc, ◌+◌, ◌-◌, ◌*◌, ◌^◌, ◌<◌, ◌≤◌, ◌≡◌, refl, ap, subst, ◌∙◌, ◌&&◌, true, false, some,
  if◌then◌else◌, arith, Bool-cases, inl, inr,
}
use cosnet.Prelude.Int.{ℤ, pos, ltb_ℤ, add_int32, sub_int32}
use cosnet.Config.{event_heartbeat}
use cosnet.Sockets.State.{
  Status, status_connected, status_closing, opened, Socket, Sockets, number, set_socket, emit,
}
use cosnet.Sockets.Lifecycle.{is_valid_status, is_client, disconnect, close, heartbeat}
use cosnet.Sockets.Frame.{update_at, heap-emit}
use cosnet.Sockets.Disconnect.{disconnect_client, disconnect_server}

-- `Heartbeat(v)`, `k` times.
unfoldable pub beats : ℕ → ℤ → ℕ → Sockets → Sockets
beats zero v id w = w
beats (suc k) v id w = beats k v id (heartbeat v id w)

add_int32_small : (a b : ℕ) → a + b < 2 ^ 31 → add_int32 (pos a) (pos b) ≡ pos (a + b)
add_int32_small a b h = ground arith

sub_int32_small : (a b : ℕ) → b ≤ a → a < 2 ^ 31 → sub_int32 (pos a) (pos b) ≡ pos (a - b)
sub_int32_small a b h l = ground arith

-- A socket of the status `st` whose counter stands at `n`.
abbrev pub Counting : Status → ℕ → ℕ → Sockets → Type 0
Counting st id n w =
    (Socket.status (w.heap id) ≡ st)
    × (Socket.stop (w.heap id) ≡ opened)
    × (Socket.heartbeat (w.heap id) ≡ pos n)

abbrev pub Closing : ℕ → ℕ → Sockets → Type 0
Closing = Counting status_closing

emit_global :
    (id : ℕ) (v : ℤ) (w : Sockets)
    → Sockets.global (emit event_heartbeat id (number v) w) ≡ w.global
unfolding emit
emit_global id v w = refl

disconnected_invalid :
    (id : ℕ) (w : Sockets)
    → is_valid_status (Socket.status (w.heap id)) ≡ true
    → Socket.stop (w.heap id) ≡ opened
    → is_valid_status (Socket.status (Sockets.heap (disconnect id w).0 id)) ≡ false
unfolding is_valid_status
disconnected_invalid id w valid stop = elim (Bool-cases (is_client (w.heap id))) [
  | inl c ↦ rw ((disconnect_client id w valid stop c).0.5) refl
  | inr c ↦ rw ((disconnect_server id w valid stop c).0.5) refl
]

closing_is_valid : is_valid_status status_closing ≡ true
unfolding is_valid_status
closing_is_valid = refl

closing_valid : (s : Status) → s ≡ status_closing → is_valid_status s ≡ true
unfolding is_valid_status
closing_valid s e = rw e refl

beat_unlimited :
    (v : ℤ) (id : ℕ) (w : Sockets)
    → ltb_ℤ (pos 0) w.global.socket_connect_time ≡ false
    → Socket.status (w.heap id) ≡ status_closing
    → (Socket.status (Sockets.heap (heartbeat v id w) id) ≡ status_closing)
      × (Sockets.global (heartbeat v id w) ≡ w.global)
unfolding heartbeat
beat_unlimited v id w off status =
    let s = record (w.heap id) { heartbeat = add_int32 (Socket.heartbeat (w.heap id)) v } in
    let w1 = set_socket id s w in
    rw (closing_valid (Socket.status (w.heap id)) status, off)
      (
        ap (λ heap. Socket.status (heap id)) (heap-emit event_heartbeat id (number v) w1)
            ∙ ap Socket.status (update_at w.heap id s)
            ∙ status,
        emit_global id v w1,
      )

module _ (st : Status) (valid : is_valid_status st ≡ true) (id limit v : ℕ)
    (bound : limit + v < 2 ^ 31) where
  counted :
      (w : Sockets) (n : ℕ)
      → w.global.socket_connect_time ≡ pos limit
      → Counting st id n w
      → n ≤ limit
      → heartbeat (pos v) id w ≡ (
          let w1 = set_socket id (record (w.heap id) { heartbeat = pos (n + v) }) w in
          if ltb_ℤ (pos 0) (pos limit) && ltb_ℤ (pos limit) (pos (n + v))
          then (disconnect id w1).0
          else emit event_heartbeat id (number (pos v)) w1)
  unfolding heartbeat
  counted w n time (status, stop, beat) le =
      rw (status, valid, beat, time, add_int32_small n v (omega arith)) refl

  pub step_counts :
      (w : Sockets) (n : ℕ)
      → w.global.socket_connect_time ≡ pos limit
      → Counting st id n w
      → n + v ≤ limit
      → Counting st id (n + v) (heartbeat (pos v) id w)
        × (Sockets.global (heartbeat (pos v) id w) ≡ w.global)
  step_counts w n time closing le =
      let s = record (w.heap id) { heartbeat = pos (n + v) } in
      let w1 = set_socket id s w in
      let off : (ltb_ℤ (pos 0) (pos limit) && ltb_ℤ (pos limit) (pos (n + v))) ≡ false =
        ground arith in
      rw
        (
          counted w n time closing (omega arith),
          off,
          heap-emit event_heartbeat id (number (pos v)) w1,
          update_at w.heap id s,
        )
        ((closing.0, closing.1, refl), emit_global id (pos v) w1)

  -- The counter runs on until the limit.
  pub beats_count :
      (k : ℕ) (w : Sockets) (n : ℕ)
      → w.global.socket_connect_time ≡ pos limit
      → Counting st id n w
      → n + k * v ≤ limit
      → Counting st id (n + k * v) (beats k (pos v) id w)
        × (Sockets.global (beats k (pos v) id w) ≡ w.global)
  unfolding beats
  beats_count zero w n time closing le =
      (subst (λ m. Counting st id m w) (omega arith) closing, refl)
  beats_count (suc k) w n time closing le =
      let (closing', same) = step_counts w n time closing (omega arith) in
      let (c, o) =
        beats_count k (heartbeat (pos v) id w) (n + v) (rw same time) closing' (omega arith) in
      (
        subst (λ m. Counting st id m (beats k (pos v) id (heartbeat (pos v) id w))) (omega arith) c,
        o ∙ same,
      )

  -- A heartbeat that passes the limit ends the socket.
  pub beat_expires :
      (w : Sockets) (n : ℕ)
      → w.global.socket_connect_time ≡ pos limit
      → Counting st id n w
      → n ≤ limit
      → 0 < limit
      → limit < n + v
      → is_valid_status (Socket.status (Sockets.heap (heartbeat (pos v) id w) id)) ≡ false
  beat_expires w n time closing le positive passed =
      let s = record (w.heap id) { heartbeat = pos (n + v) } in
      let w1 = set_socket id s w in
      let on : (ltb_ℤ (pos 0) (pos limit) && ltb_ℤ (pos limit) (pos (n + v))) ≡ true =
        ground arith in
      rw (counted w n time closing le, on)
        (disconnected_invalid id w1
          (ap (λ x. is_valid_status (Socket.status x)) (update_at w.heap id s)
            ∙ ap is_valid_status closing.0
            ∙ valid)
          (ap Socket.stop (update_at w.heap id s) ∙ closing.1))

beats_last :
    (k : ℕ) (v : ℤ) (id : ℕ) (w : Sockets) → beats (suc k) v id w ≡ heartbeat v id (beats k v id w)
unfolding beats
beats_last zero v id w = refl
beats_last (suc k) v id w = beats_last k v id (heartbeat v id w)

close-Closing :
    (id limit d : ℕ) (w : Sockets)
    → w.global.socket_connect_time ≡ pos limit
    → limit < 2 ^ 31
    → d ≤ limit
    → Socket.status (w.heap id) ≡ status_connected
    → Socket.stop (w.heap id) ≡ opened
    → Closing id (limit - d) (close id (some (pos d)) w)
      × (Sockets.global (close id (some (pos d)) w) ≡ w.global)
unfolding close
close-Closing id limit d w time bound le status stop =
    rw (status, time, sub_int32_small limit d le bound)
      (
        rw
            (update_at w.heap id
              (record (w.heap id) { status = status_closing; heartbeat = pos (limit - d) }))
            (refl, stop, refl),
        refl,
      )

-- With a positive connect time of `limit` seconds, where `limit + v` fits an int32, after
-- `Close(d)` of a connected socket with an open channel, d ≤ limit, the heartbeats of `v` seconds
-- keep the socket closing, with its channel open, while their total is within `d`, and the first
-- one that takes the total above `d` gives it a status that is not valid.
pub close-beats :
    (id limit d v k : ℕ) (w : Sockets)
    → w.global.socket_connect_time ≡ pos limit
    → 0 < limit
    → limit + v < 2 ^ 31
    → d ≤ limit
    → Socket.status (w.heap id) ≡ status_connected
    → Socket.stop (w.heap id) ≡ opened
    → k * v ≤ d
    → d < k * v + v
    → Closing id (limit - d + k * v) (beats k (pos v) id (close id (some (pos d)) w))
      × (is_valid_status
            (Socket.status (Sockets.heap (beats (suc k) (pos v) id (close id (some (pos d)) w)) id))
          ≡ false)
close-beats id limit d v k w time positive bound le status stop within passed =
    let w1 = close id (some (pos d)) w in
    let (closing, same) = close-Closing id limit d w time (omega arith) le status stop in
    let (last, same') =
      beats_count status_closing closing_is_valid id limit v bound k w1 (limit - d) (rw same time)
        closing (omega arith) in
    (
      last,
      rw (beats_last k (pos v) id w1) (
          beat_expires status_closing closing_is_valid id limit v bound (beats k (pos v) id w1)
            (limit - d + k * v) (rw (same', same) time) last (omega arith) positive (omega arith)),
    )

-- Where the connect time is not positive, a socket that is closing is still closing after any
-- number of heartbeats.
pub beats_unlimited :
    (k : ℕ) (v : ℤ) (id : ℕ) (w : Sockets)
    → ltb_ℤ (pos 0) w.global.socket_connect_time ≡ false
    → Socket.status (w.heap id) ≡ status_closing
    → Socket.status (Sockets.heap (beats k v id w) id) ≡ status_closing
unfolding beats
beats_unlimited zero v id w off status = status
beats_unlimited (suc k) v id w off status =
    let (status', same) = beat_unlimited v id w off status in
    beats_unlimited k v id (heartbeat v id w) (rw same off) status'
