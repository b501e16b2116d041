-- ===== src/Sockets/Graph/Paths.antt =====
-- Whole runs of the manager along the graph of statuses.
use cosnet.Prelude.{
  ℕ, suc, ◌≡◌, ◌≤◌, refl, ap, subst, ◌&&◌, Bool, true, false, none, List, [], ◌∷◌, ◌++◌, ◌==◌,
  Result, ok, err, panic, arith, Bool-cases, inl, inr,
}
use cosnet.Prelude.Int.{pos, ltb_ℤ, leb_ℤ}
use cosnet.Prelude.Bytes.{Bytes}
use cosnet.Config.{Config}
use cosnet.Message.Object.{Message}
use cosnet.Sockets.State.{
  status_released, Stop, Socket, Sockets, member, set_socket, emit, new_sockets,
}
use cosnet.Sockets.Lifecycle.{is_ready, connect, get, create, connected_to}
use cosnet.Sockets.Invariant.{agrees, settled, Inv, valid_settled}
use cosnet.Sockets.Sending.{
  Chosen, queues, ends, neither, select, is_closed, has_room, write, write_chosen,
}
use cosnet.Sockets.Runs.{
  Operation, accept, dial, drop_socket, reconnect, close_socket, authenticate, replace, keep, beat,
  write_message, step, step-Inv, run, run-new_sockets,
}
use cosnet.Sockets.Graph.{stays, Moves-before, Moves_released}
use cosnet.Sockets.Graph.Steps.{
  Follows, Follows-refl, set_socket-Follows, disconnect-Follows, reconnect_done-Follows,
  close-Follows, keep_alive-Follows, authentication-Follows, replaced-Follows, heartbeat-Follows,
}

-- A new socket has an id of its own.
create-Follows : (stopped : Bool) (conn : ℕ) (w : Sockets) → Follows w (create stopped conn w).0
unfolding create connect emit
create-Follows true conn w = Follows-refl w
create-Follows false conn w =
    elim (Bool-cases
      (ltb_ℤ (pos 0) w.options.connect_max_size && leb_ℤ w.options.connect_max_size w.count)) [
        | inl e ↦ rw e (Follows-refl w)
        | inr e ↦ rw e (
          omega arith,
          λ i le. stays (let off : (suc w.index == i) ≡ false = ground arith in rw off refl),
        )
      ]

status_set :
    (id : ℕ) (address : Bytes) (w : Sockets) (i : ℕ)
    → Socket.status (Sockets.heap (set_socket id (record (w.heap id) { address = address }) w) i)
      ≡ Socket.status (w.heap i)
status_set id address w i = elim (Bool-cases (id == i)) [
  | inl e ↦ (let same : id ≡ i = ground arith in rw e (ap (λ k. Socket.status (w.heap k)) same))
  | inr e ↦ rw e refl
]

connected_to-Follows :
    (stopped : Bool) (address : Bytes) (conn : ℕ) (w : Sockets)
    → Follows w (connected_to stopped address conn w).0
unfolding connected_to
connected_to-Follows stopped address conn w =
    addressed (create stopped conn w).0 (create stopped conn w).1 (create-Follows stopped conn w)
  where
    addressed :
        (w1 : Sockets) (r : Result ℕ)
        → Follows w w1
        → Follows w
            (elim r as (λ r'. Sockets × Result ℕ) [
              | ok id ↦ (set_socket id (record (w1.heap id) { address = address }) w1, ok id)
              | err e ↦ (w1, err e)
              | panic ↦ (w1, panic)
            ]).0
    addressed w1 (ok id) (more, moved) = (
      more,
      λ i le.
          Moves-before (w.heap i) (w1.heap i)
            (Sockets.heap (set_socket id (record (w1.heap id) { address = address }) w1) i)
            (status_set id address w1 i) (moved i le),
    )
    addressed w1 (err e) follows = follows
    addressed w1 panic follows = follows

chosen-Follows :
    (c : Chosen) (safe : Bool) (m : Message) (id : ℕ) (w : Sockets)
    → Follows w (write_chosen c safe m id w).0
unfolding write_chosen
chosen-Follows queues safe m id w =
    set_socket-Follows id (record (w.heap id) { cwrite = Socket.cwrite (w.heap id) ++ (m ∷ []) }) w
      (stays refl)
chosen-Follows ends safe m id w = Follows-refl w
chosen-Follows neither true m id w = Follows-refl w
chosen-Follows neither false m id w = Follows-refl w

write-Follows :
    (safe pick_stop : Bool) (m : Message) (id : ℕ) (w : Sockets)
    → Follows w (write safe pick_stop m id w).0
unfolding write
write-Follows safe pick_stop m id w = elim (Bool-cases (is_ready (w.heap id))) [
  | inl ready ↦ rw ready (
      chosen-Follows (select (has_room id w) (is_closed (Socket.stop (w.heap id))) pick_stop) safe m
        id w)
  | inr busy ↦ rw busy (Follows-refl w)
]

-- In a manager with the invariant every method leaves the status of each socket that was created
-- before, or moves it along one edge: from connected to closing; from a valid status to
-- reconnecting, if the socket is a client's, or to released, if it is a server's; from reconnecting
-- to connected or to released. The counter of ids does not go back.
pub step-Follows : (op : Operation) (w : Sockets) → Inv w → Follows w (step op w)
unfolding step
step-Follows (accept stopped conn) w inv = create-Follows stopped conn w
step-Follows (dial stopped address conn) w inv = connected_to-Follows stopped address conn w
step-Follows (drop_socket id) w inv =
    disconnect-Follows id w (λ v. (valid_settled w id (inv.3 id) v).0)
step-Follows (reconnect id result) w inv = reconnect_done-Follows id result w inv
step-Follows (close_socket id delay) w inv = close-Follows id delay w
step-Follows (authenticate id v again) w inv = authentication-Follows id v again w
step-Follows (replace id ip) w inv = replaced-Follows id ip w
step-Follows (keep id) w inv = keep_alive-Follows id w
step-Follows (beat v id) w inv = heartbeat-Follows v id w inv
step-Follows (write_message safe pick_stop m id) w inv = write-Follows safe pick_stop m id w

-- The socket has ended, and the manager does not know it.
abbrev pub Final : ℕ → Sockets → Type 0
Final id w = (Socket.status (w.heap id) ≡ status_released) × (get id w ≡ none)

released_agrees :
    (mapped reconnecting : Bool) (stop : Stop)
    → agrees mapped reconnecting status_released stop ≡ true
    → mapped ≡ false
unfolding agrees
released_agrees mapped reconnecting stop h = ground arith

released-Final :
    (id : ℕ) (w : Sockets)
    → settled w id ≡ true
    → Socket.status (w.heap id) ≡ status_released
    → Final id w
unfolding settled get
released-Final id w h e =
    let out : member id w.sockets ≡ false =
      released_agrees (member id w.sockets) (member id w.reconnecting) (Socket.stop (w.heap id)) (
        subst
          (λ s.
            agrees (member id w.sockets) (member id w.reconnecting) s (Socket.stop (w.heap id))
            ≡ true)
          e h) in
    (e, rw out refl)

run_released :
    (ops : List Operation) (w : Sockets) (id : ℕ)
    → Inv w
    → id ≤ w.index
    → Socket.status (w.heap id) ≡ status_released
    → Final id (run ops w)
unfolding run
run_released [] w id inv le e = released-Final id w (inv.3 id) e
run_released (op ∷ ops) w id inv le e =
    let (more, moved) = step-Follows op w inv in
    run_released ops (step op w) id (step-Inv op w inv) (omega (arith, le, more))
      (Moves_released (w.heap id) (Sockets.heap (step op w) id) e (moved id le))

-- A socket that was created in a run of methods from `New()` and that has ended by then has ended
-- for good: after any further methods its status is still released, and `Get` of its id returns
-- nothing.
pub run-Final :
    (options : Config) (before after : List Operation) (id : ℕ)
    → id ≤ Sockets.index (run before (new_sockets options))
    → Socket.status (Sockets.heap (run before (new_sockets options)) id) ≡ status_released
    → Final id (run after (run before (new_sockets options)))
run-Final options before after id le e =
    run_released after (run before (new_sockets options)) id (run-new_sockets options before) le e
