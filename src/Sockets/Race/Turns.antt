-- ===== src/Sockets/Race/Turns.antt =====
-- Every interleaving of the goroutines that end a connection.
use cosnet.Prelude.{ℕ, suc, ◌≡◌, refl, ap, sym, ◌∙◌, Bool, true, List, [], ◌∷◌, subst, arith}
use cosnet.Sockets.State.{
  Status, status_none, status_connected, status_closing, status_disconnect, status_disconnected,
  status_reconnecting, status_released, opened, closed,
}
use cosnet.Sockets.Lifecycle.{is_valid_status}
use cosnet.Sockets.Race.{
  Place, outside, won, stopped, hung, leaving, dialing, dialled, seen, Shared, at, close_stop,
  advance, force_close, Turn, goroutine, closes, turn, turns, connected,
}
use cosnet.Sockets.Race.Exclusive.{
  ending, fits, release_count, Exclusive, fits_calm, calm_if_valid, either-Exclusive, fits_inv,
  beside, owned, placed, mine, swap-Exclusive,
}

module _ (w : Shared) (h : Exclusive w) (i : ℕ) where
  advance-Exclusive :
      (p : Place) (reached : Bool) → w.places i ≡ p → Exclusive (advance p reached i w)
  unfolding advance ending fits is_valid_status close_stop
  advance-Exclusive outside reached here =
      either-Exclusive (is_valid_status w.status) (at i (seen w.status) w) w
        (λ valid. beside w i (seen w.status) h refl valid) (λ ended. h)
  advance-Exclusive (seen s) reached here = swap-Exclusive w h i s (placed w h i (seen s) here)
  advance-Exclusive won reached here =
      let (lost, live) =
        fits_inv won status_disconnect opened w.status w.stop refl (placed w h i won here) in
      subst (λ c. Exclusive (close_stop c i w)) (sym live)
        (owned w h i stopped w.status closed w.hangups w.releases (mine w h i won here refl)
          (ap (λ s. fits stopped s closed) lost) (λ valid. absurd (ground (arith, valid, lost)))
          h.released_once)
  advance-Exclusive stopped reached here =
      owned w h i hung w.status w.stop (suc w.hangups) w.releases (mine w h i stopped here refl)
        (placed w h i stopped here) h.open_if_valid h.released_once
  advance-Exclusive hung reached here =
      let (lost, shut) =
        fits_inv hung status_disconnect closed w.status w.stop refl (placed w h i hung here) in
      let once : w.releases ≡ 0 = h.released_once ∙ ap release_count lost in
      either-Exclusive w.client (at i dialing (record w { status = status_reconnecting }))
        (at i leaving (record w { status = status_disconnected }))
        (λ client.
          owned w h i dialing status_reconnecting w.stop w.hangups w.releases
            (mine w h i hung here refl) (ap (fits dialing status_reconnecting) shut)
            (λ valid. absurd (cc)) once)
        (λ server.
          owned w h i leaving status_disconnected w.stop w.hangups w.releases
            (mine w h i hung here refl) (ap (fits leaving status_disconnected) shut)
            (λ valid. absurd (cc)) once)
  advance-Exclusive leaving reached here =
      let (lost, shut) =
        fits_inv leaving status_disconnected closed w.status w.stop refl
          (placed w h i leaving here) in
      owned w h i outside status_released w.stop w.hangups (suc w.releases)
        (mine w h i leaving here refl) refl (λ valid. absurd (cc))
        (ap suc (h.released_once ∙ ap release_count lost))
  advance-Exclusive dialing reached here =
      let (lost, shut) =
        fits_inv dialing status_reconnecting closed w.status w.stop refl
          (placed w h i dialing here) in
      either-Exclusive reached (at i dialled (record w { stop = opened }))
        (at i outside (record w { status = status_released; releases = suc w.releases }))
        (λ up.
          owned w h i dialled w.status opened w.hangups w.releases (mine w h i dialing here refl)
            (ap (λ s. fits dialled s opened) lost) (λ valid. refl) h.released_once)
        (λ down.
          owned w h i outside status_released w.stop w.hangups (suc w.releases)
            (mine w h i dialing here refl) refl (λ valid. absurd (cc))
            (ap suc (h.released_once ∙ ap release_count lost)))
  advance-Exclusive dialled reached here =
      let (lost, live) =
        fits_inv dialled status_reconnecting opened w.status w.stop refl
          (placed w h i dialled here) in
      owned w h i outside status_connected w.stop w.hangups w.releases
        (mine w h i dialled here refl) refl (λ valid. live)
        (h.released_once ∙ ap release_count lost)

force_close-Exclusive :
    (s : Status) (w : Shared) → w.status ≡ s → Exclusive w → Exclusive (force_close s w)
unfolding force_close is_valid_status
force_close-Exclusive status_connected w e h =
    let valid : is_valid_status w.status ≡ true = ap is_valid_status e in
    record {
      all_fit = λ j.
          fits_calm (w.places j) w.status status_closing w.stop w.stop
            (calm_if_valid (w.places j) w.status w.stop (h.all_fit j) valid) (h.all_fit j);
      single = h.single;
      open_if_valid = λ _. h.open_if_valid valid;
      released_once = h.released_once ∙ ap release_count e;
      no_panic = h.no_panic;
    }
force_close-Exclusive status_none w e h = h
force_close-Exclusive status_closing w e h = h
force_close-Exclusive status_disconnect w e h = h
force_close-Exclusive status_disconnected w e h = h
force_close-Exclusive status_reconnecting w e h = h
force_close-Exclusive status_released w e h = h

turn-Exclusive : (t : Turn) (w : Shared) → Exclusive w → Exclusive (turn t w)
unfolding turn
turn-Exclusive (goroutine i reached) w h = advance-Exclusive w h i (w.places i) reached refl
turn-Exclusive closes w h = force_close-Exclusive w.status w refl h

turns-Exclusive : (ts : List Turn) (w : Shared) → Exclusive w → Exclusive (turns ts w)
unfolding turns
turns-Exclusive [] w h = h
turns-Exclusive (t ∷ ts) w h = turns-Exclusive ts (turn t w) (turn-Exclusive t w h)

-- From a connected socket, in every interleaving of the atomic accesses of any number of goroutines
-- in `disconnect` with `Close`, of clients that dial again and of sockets of a server: at most one
-- goroutine is past its compare-and-swap, no channel is closed twice and `disconnect` does not
-- panic, a valid status means an open channel, and `release` has run once if the status is
-- released, and else never.
pub turns-connected : (client : Bool) (ts : List Turn) → Exclusive (turns ts (connected client))
unfolding fits ending
turns-connected client ts = turns-Exclusive ts (connected client) (record {
  all_fit = λ i. refl;
  single = λ i j ei ej. absurd (cc);
  open_if_valid = λ valid. refl;
  released_once = refl;
  no_panic = refl;
})
