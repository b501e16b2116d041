-- ===== src/Sockets/Invariant.antt =====
-- What always holds of the manager between two methods: its map, its counter and the statuses of its
-- sockets agree.
use cosnet.Prelude.{
  ℕ, ◌<◌, ◌≡◌, refl, Bool, true, false, not, ◌&&◌, ◌==◌, if◌then◌else◌, arith, Bool-cases, inl, inr,
  length,
}
use cosnet.Prelude.Int.{pos}
use cosnet.Sockets.State.{
  Status, status_none, status_connected, status_closing, status_reconnecting, status_released, Stop,
  opened, closed, Socket, Sockets, member, new_sockets,
}
use cosnet.Sockets.Lists.{IsDistinct}
use cosnet.Config.{Config}
use cosnet.Sockets.Lifecycle.{is_valid_status}

-- Whether the status of a socket agrees with its membership of the map and of the reconnecting
-- sockets. The statuses of an unfinished method never agree.
unfoldable pub agrees : Bool → Bool → Status → Stop → Bool
agrees mapped reconnecting status_connected opened = mapped && not reconnecting
agrees mapped reconnecting status_closing opened = mapped && not reconnecting
agrees mapped reconnecting status_reconnecting closed = mapped && reconnecting
agrees mapped reconnecting status_released stop = not mapped && not reconnecting
agrees mapped reconnecting _ _ = false

unfoldable pub settled : Sockets → ℕ → Bool
settled w id =
    agrees (member id w.sockets) (member id w.reconnecting) (Socket.status (w.heap id))
      (Socket.stop (w.heap id))

-- The counter is the size of the map, no id is in it twice, no id is used ahead, and each socket is
-- settled.
abbrev pub Inv : Sockets → Type 0
Inv w =
    (w.count ≡ pos (length w.sockets))
    × IsDistinct w.sockets
    × ((id : ℕ) → w.index < id → member id w.sockets ≡ false)
    × ((id : ℕ) → settled w id ≡ true)

-- The same while a method works on the socket `id`.
abbrev pub InvBut : ℕ → Sockets → Type 0
InvBut id w =
    (w.count ≡ pos (length w.sockets))
    × IsDistinct w.sockets
    × ((i : ℕ) → w.index < i → member i w.sockets ≡ false)
    × ((i : ℕ) → (id == i) ≡ false → settled w i ≡ true)

pub Inv-InvBut : (id : ℕ) (w : Sockets) → Inv w → InvBut id w
Inv-InvBut id w (counted, distinct, fresh, all) = (counted, distinct, fresh, λ i e. all i)

-- A change of the one socket `id` settles when it leaves that socket settled.
pub settled_at :
    (id : ℕ) (w w' : Sockets) (mapped reconnecting : Bool)
    → ((i : ℕ) → member i w'.sockets ≡ (if id == i then mapped else member i w.sockets))
    → ((i : ℕ)
        → member i w'.reconnecting ≡ (if id == i then reconnecting else member i w.reconnecting))
    → ((i : ℕ) → (id == i) ≡ false → w'.heap i ≡ w.heap i)
    → agrees mapped reconnecting (Socket.status (w'.heap id)) (Socket.stop (w'.heap id)) ≡ true
    → ((i : ℕ) → (id == i) ≡ false → settled w i ≡ true)
    → (i : ℕ) → settled w' i ≡ true
unfolding settled
settled_at id w w' mapped reconnecting hm hr hh ha hw i = elim (Bool-cases (id == i)) [
  | inl e ↦ (let same : id ≡ i = ground arith in rw (hm i, hr i, e, ← same) ha)
  | inr e ↦ rw (hm i, hr i, e, hh i e) (hw i e)
]

valid_agrees :
    (mapped reconnecting : Bool) (status : Status) (stop : Stop)
    → agrees mapped reconnecting status stop ≡ true
    → is_valid_status status ≡ true
    → (stop ≡ opened) × (mapped ≡ true) × (reconnecting ≡ false)
unfolding agrees is_valid_status
valid_agrees mapped reconnecting status_connected opened h v = (refl, ground arith, ground arith)
valid_agrees mapped reconnecting status_closing opened h v = (refl, ground arith, ground arith)
valid_agrees mapped reconnecting status_none stop h v = absurd (ground arith)
valid_agrees mapped reconnecting status stop h v = absurd (ground arith)

-- A socket with a valid status is in the map, does not reconnect, and its channel is open.
pub valid_settled :
    (w : Sockets) (id : ℕ)
    → settled w id ≡ true
    → is_valid_status (Socket.status (w.heap id)) ≡ true
    → (Socket.stop (w.heap id) ≡ opened)
      × (member id w.sockets ≡ true)
      × (member id w.reconnecting ≡ false)
unfolding settled
valid_settled w id =
    valid_agrees (member id w.sockets) (member id w.reconnecting) (Socket.status (w.heap id))
      (Socket.stop (w.heap id))

pub Inv-new : (options : Config) → Inv (new_sockets options)
unfolding new_sockets member settled agrees
Inv-new options = (refl, tt, λ id h. refl, λ id. refl)
