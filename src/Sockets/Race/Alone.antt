-- ===== src/Sockets/Race/Alone.antt =====
-- A goroutine that is not interrupted: its accesses come to what `disconnect` of the manager does.
use cosnet.Prelude.{
  ℕ, suc, ◌≡◌, refl, ap, sym, ◌∙◌, Bool, true, false, List, [], ◌∷◌, arith, if◌then◌else◌,
}
use cosnet.Sockets.State.{
  Status, status_disconnect, status_disconnected, status_reconnecting, status_released, Stop,
  opened, closed, Socket, Sockets,
}
use cosnet.Sockets.Lifecycle.{is_valid_status, is_client, release, settle, disconnect}
use cosnet.Sockets.Disconnect.{
  disconnect_client, disconnect_server, disconnect-ended, Frame-ended, ended,
}
use cosnet.Sockets.Race.{
  Place, outside, seen, won, stopped, hung, leaving, dialing, Shared, move, at, Status-discrete,
  swap, close_stop, advance, Turn, goroutine, turn, turns,
}

-- The goroutine takes six turns for a socket of a server, five for one of a client.
abbrev pub whole : Bool → ℕ → Bool → List Turn
whole false i r =
    goroutine i r
    ∷ goroutine i r
    ∷ goroutine i r
    ∷ goroutine i r
    ∷ goroutine i r
    ∷ goroutine i r
    ∷ []
whole true i r = goroutine i r ∷ goroutine i r ∷ goroutine i r ∷ goroutine i r ∷ goroutine i r ∷ []

-- The channel and the connection were closed once; a client dials, and a server's socket was released
-- once.
abbrev pub Ran : Bool → ℕ → ℕ → ℕ → Shared → Type 0
Ran true i hangups releases w =
    (w.status ≡ status_reconnecting)
    × (w.stop ≡ closed)
    × (w.places i ≡ dialing)
    × (w.hangups ≡ suc hangups)
    × (w.releases ≡ releases)
Ran false i hangups releases w =
    (w.status ≡ status_released)
    × (w.stop ≡ closed)
    × (w.places i ≡ outside)
    × (w.hangups ≡ suc hangups)
    × (w.releases ≡ suc releases)

pub moved : (i : ℕ) (p : Place) (f : ℕ → Place) → move i p f i ≡ p
moved i p f = ground arith

pub swap_same :
    (s : Status) (i : ℕ) (w : Shared)
    → s ≡ w.status
    → swap s i w ≡ at i won (record w { status = status_disconnect })
unfolding swap
swap_same s i w e = go (Status-discrete s w.status)
  where
    go :
        (d : Dec (s ≡ w.status))
        → elim d as (λ _. Shared) [
          | yes h ↦ at i won (record w { status = status_disconnect })
          | no h ↦ at i outside w
        ]
          ≡ at i won (record w { status = status_disconnect })
    go (yes h) = refl
    go (no h) = absurd (h e)

pub taken :
    (i : ℕ) (r : Bool) (p : Place) (w : Shared) (ts : List Turn)
    → w.places i ≡ p
    → turns (goroutine i r ∷ ts) w ≡ turns ts (advance p r i w)
unfolding turns turn
taken i r p w ts e = ap (λ q. turns ts (advance q r i w)) e

module _ (i : ℕ) (r : Bool) (f : ℕ → Place) (hangups releases : ℕ) (panicked : Bool) where
  abbrev pub started : Bool → Status → Stop → Shared
  started client status stop = record {
    client = client;
    status = status;
    stop = stop;
    places = f;
    hangups = hangups;
    releases = releases;
    panicked = panicked;
  }

  -- The first three turns win and close the channel.
  pub won_and_stopped :
      (client : Bool) (status : Status) (ts : List Turn)
      → is_valid_status status ≡ true
      → f i ≡ outside
      → turns (goroutine i r ∷ goroutine i r ∷ goroutine i r ∷ ts) (started client status opened)
        ≡ turns ts (
            at i stopped
              (record (at i won (record (at i (seen status) (started client status opened)) {
                status = status_disconnect;
              })) { stop = closed }))
  unfolding advance close_stop
  won_and_stopped client status ts valid here =
      let w0 = started client status opened in
      let w1 = at i (seen status) w0 in
      let w2 = at i won (record w1 { status = status_disconnect }) in
      let first : advance outside r i w0 ≡ w1 = rw valid refl in
      taken i r outside w0 (goroutine i r ∷ goroutine i r ∷ ts) here
      ∙ ap (turns (goroutine i r ∷ goroutine i r ∷ ts)) first
      ∙ taken i r (seen status) w1 (goroutine i r ∷ ts) (moved i (seen status) f)
      ∙ ap (turns (goroutine i r ∷ ts)) (swap_same status i w1 refl)
      ∙ taken i r won w2 ts (moved i won w1.places)

  whole-Ran :
      (client : Bool) (status : Status)
      → is_valid_status status ≡ true
      → f i ≡ outside
      → Ran client i hangups releases (turns (whole client i r) (started client status opened))
  unfolding advance turns
  whole-Ran true status valid here =
      let w0 = started true status opened in
      let w2 = at i won (record (at i (seen status) w0) { status = status_disconnect }) in
      let w3 = at i stopped (record w2 { stop = closed }) in
      let w4 = at i hung (record w3 { hangups = suc hangups }) in
      let w5 = at i dialing (record w4 { status = status_reconnecting }) in
      let path : turns (whole true i r) w0 ≡ w5 =
        won_and_stopped true status (goroutine i r ∷ goroutine i r ∷ []) valid here
        ∙ taken i r stopped w3 (goroutine i r ∷ []) (moved i stopped w2.places)
        ∙ taken i r hung w4 [] (moved i hung w3.places) in
      rw path (refl, refl, moved i dialing w4.places, refl, refl)
  whole-Ran false status valid here =
      let w0 = started false status opened in
      let w2 = at i won (record (at i (seen status) w0) { status = status_disconnect }) in
      let w3 = at i stopped (record w2 { stop = closed }) in
      let w4 = at i hung (record w3 { hangups = suc hangups }) in
      let w5 = at i leaving (record w4 { status = status_disconnected }) in
      let w6 = at i outside (record w5 { status = status_released; releases = suc releases }) in
      let path : turns (whole false i r) w0 ≡ w6 =
        won_and_stopped false status (goroutine i r ∷ goroutine i r ∷ goroutine i r ∷ []) valid here
        ∙ taken i r stopped w3 (goroutine i r ∷ goroutine i r ∷ []) (moved i stopped w2.places)
        ∙ taken i r hung w4 (goroutine i r ∷ []) (moved i hung w3.places)
        ∙ taken i r leaving w5 [] (moved i leaving w4.places) in
      rw path (refl, refl, moved i outside w5.places, refl, refl)

-- The same status, the same channel, and a release where `disconnect` returns true.
abbrev pub Agrees : ℕ → Shared → Sockets × Bool → Type 0
Agrees id s (w, left) =
    (s.status ≡ Socket.status (w.heap id))
    × (s.stop ≡ Socket.stop (w.heap id))
    × (s.releases ≡ (if left then 1 else 0))

-- The socket of the manager, before the goroutine starts.
abbrev pub shared : (ℕ → Place) → Socket → Shared
shared f s = record {
  client = is_client s;
  status = s.status;
  stop = s.stop;
  places = f;
  hangups = 0;
  releases = 0;
  panicked = false;
}

stop-settle :
    (id : ℕ) (w : Sockets) → Socket.stop (Sockets.heap (settle id w).0 id) ≡ Socket.stop (w.heap id)
unfolding settle release is_client
stop-settle id w = ground arith

stop-disconnect :
    (id : ℕ) (w : Sockets)
    → is_valid_status (Socket.status (w.heap id)) ≡ true
    → Socket.stop (w.heap id) ≡ opened
    → Socket.stop (Sockets.heap (disconnect id w).0 id) ≡ closed
stop-disconnect id w v o =
    ap (λ p. Socket.stop (Sockets.heap p.0 id)) (disconnect-ended id w v o)
    ∙ stop-settle id (ended id w)
    ∙ (Frame-ended id w).1

-- A socket with a valid status and an open channel, of which a goroutine is about to run `disconnect`
-- and no other goroutine interrupts it: after its turns (six for a server's socket, with its release,
-- five for a client's, until it dials) the status and the channel are what `disconnect` of the manager
-- leaves, and the socket was released once where that returns true and not at all where it returns
-- false.
pub turns-Agrees :
    (id : ℕ) (w : Sockets) (i : ℕ) (r : Bool) (f : ℕ → Place)
    → is_valid_status (Socket.status (w.heap id)) ≡ true
    → Socket.stop (w.heap id) ≡ opened
    → f i ≡ outside
    → Agrees id (turns (whole (is_client (w.heap id)) i r) (shared f (w.heap id))) (disconnect id w)
unfolding is_client
turns-Agrees id w i r f v o here =
    let s = w.heap id in let stop = stop-disconnect id w v o in rw o (go (is_client s) refl stop)
  where
    go :
        (c : Bool)
        → is_client (w.heap id) ≡ c
        → Socket.stop (Sockets.heap (disconnect id w).0 id) ≡ closed
        → Agrees id
            (turns (whole c i r) (started i r f 0 0 false c (Socket.status (w.heap id)) opened))
            (disconnect id w)
    go true c stop =
        let (p, left) = disconnect_client id w v o c in
        let run = whole-Ran i r f 0 0 false true (Socket.status (w.heap id)) v here in
        (run.0 ∙ sym p.5, run.1 ∙ sym stop, rw left run.4)
    go false c stop =
        let (g, left) = disconnect_server id w v o c in
        let run = whole-Ran i r f 0 0 false false (Socket.status (w.heap id)) v here in
        (run.0 ∙ sym g.5, run.1 ∙ sym stop, rw left run.4)
