-- ===== src/Sockets/Race/Stale.antt =====
-- A goroutine of a client's first connection that is late: it read the status, and another one ends
-- that connection and dials again before the late one compares.
use cosnet.Prelude.{ℕ, suc, ◌≡◌, ◌≢◌, refl, ap, sym, ◌∙◌, Bool, true, List, [], ◌∷◌, arith}
use cosnet.Sockets.State.{status_connected, status_disconnect, status_reconnecting, opened, closed}
use cosnet.Sockets.Lifecycle.{is_valid_status}
use cosnet.Sockets.Race.{
  Place, outside, seen, won, stopped, hung, dialing, dialled, Shared, move, at, close_stop, advance,
  Turn, goroutine, turns,
}
use cosnet.Sockets.Race.Alone.{moved, swap_same, started, taken, won_and_stopped}

-- Seven turns of `j`, which end the connection and make another one, and three of `i`.
abbrev pub late : ℕ → ℕ → Bool → List Turn
late i j r =
    goroutine j true
    ∷ goroutine j true
    ∷ goroutine j true
    ∷ goroutine j true
    ∷ goroutine j true
    ∷ goroutine j true
    ∷ goroutine j true
    ∷ goroutine i r
    ∷ goroutine i r
    ∷ goroutine i r
    ∷ []

-- Both connections were closed, the second by `i`, which goes on to dial; `j` is done, and the socket
-- was not released.
abbrev pub Robbed : ℕ → ℕ → ℕ → ℕ → Shared → Type 0
Robbed i j hangups releases w =
    (w.status ≡ status_disconnect)
    × (w.stop ≡ closed)
    × (w.hangups ≡ suc (suc hangups))
    × (w.releases ≡ releases)
    × (w.places i ≡ hung)
    × (w.places j ≡ outside)

stays : (i j : ℕ) (p : Place) (f : ℕ → Place) → i ≢ j → move i p f j ≡ f j
stays i j p f apart = ground arith

module _ (i j : ℕ) (r : Bool) (f : ℕ → Place) (hangups releases : ℕ) (panicked : Bool) where
  -- A client's socket is connected, two goroutines are about to run `disconnect`, `j` from its start
  -- and `i` with the status that it has read. Where `j` runs first, as far as the next connection, the
  -- comparison of `i` succeeds: after its three turns the new connection is closed too, the socket is
  -- not connected, and `j` is done.
  pub late-Robbed :
      i ≢ j
      → f i ≡ seen status_connected
      → f j ≡ outside
      → Robbed i j hangups releases (
          turns
            (late i j r)
            (started j true f hangups releases panicked true status_connected opened))
  unfolding advance close_stop turns is_valid_status
  late-Robbed apart old here =
      let apart' : j ≢ i = λ e. apart (sym e) in
      let w0 = started j true f hangups releases panicked true status_connected opened in
      let w1 = at j (seen status_connected) w0 in
      let w2 = at j won (record w1 { status = status_disconnect }) in
      let w3 = at j stopped (record w2 { stop = closed }) in
      let w4 = at j hung (record w3 { hangups = suc hangups }) in
      let w5 = at j dialing (record w4 { status = status_reconnecting }) in
      let w6 = at j dialled (record w5 { stop = opened }) in
      let w7 = at j outside (record w6 { status = status_connected }) in
      let w8 = at i won (record w7 { status = status_disconnect }) in
      let w9 = at i stopped (record w8 { stop = closed }) in
      let w10 = at i hung (record w9 { hangups = suc (suc hangups) }) in
      let third = goroutine i r ∷ [] in
      let second = goroutine i r ∷ third in
      let first = goroutine i r ∷ second in
      let again = goroutine j true ∷ first in
      let kept : w7.places i ≡ seen status_connected =
        stays j i outside w6.places apart'
        ∙ stays j i dialled w5.places apart'
        ∙ stays j i dialing w4.places apart'
        ∙ stays j i hung w3.places apart'
        ∙ stays j i stopped w2.places apart'
        ∙ stays j i won w1.places apart'
        ∙ stays j i (seen status_connected) f apart'
        ∙ old in
      let done : w10.places j ≡ outside =
        stays i j hung w9.places apart
        ∙ stays i j stopped w8.places apart
        ∙ stays i j won w7.places apart
        ∙ moved j outside w6.places in
      let path : turns (late i j r) w0 ≡ w10 =
        won_and_stopped j true f hangups releases panicked true status_connected
          (goroutine j true ∷ goroutine j true ∷ goroutine j true ∷ again) refl here
        ∙ taken j true stopped w3 (goroutine j true ∷ goroutine j true ∷ again)
            (moved j stopped w2.places)
        ∙ taken j true hung w4 (goroutine j true ∷ again) (moved j hung w3.places)
        ∙ taken j true dialing w5 again (moved j dialing w4.places)
        ∙ taken j true dialled w6 first (moved j dialled w5.places)
        ∙ taken i r (seen status_connected) w7 second kept
        ∙ ap (turns second) (swap_same status_connected i w7 refl)
        ∙ taken i r won w8 third (moved i won w7.places)
        ∙ taken i r stopped w9 [] (moved i stopped w8.places) in
      rw path (refl, refl, refl, refl, moved i hung w9.places, done)
