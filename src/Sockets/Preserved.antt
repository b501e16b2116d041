-- ===== src/Sockets/Preserved.antt =====
-- Every method of the manager and of a socket keeps the invariant.
use cosnet.Prelude.{
  ℕ, ◌≡◌, refl, ap, ◌∙◌, sym, true, false, List, ◌==◌, if◌then◌else◌, arith, Bool-cases, inl, inr,
  length,
}
use cosnet.Prelude.Int.{pos}
use cosnet.Sockets.State.{
  status_reconnecting, status_released, Stop, closed, Socket, Sockets, member, decrement,
}
use cosnet.Sockets.Lists.{member-remove, length-remove, remove-IsDistinct}
use cosnet.Sockets.Lifecycle.{is_valid_status, is_client, disconnect}
use cosnet.Sockets.Frame.{Frame, Gone, Parked}
use cosnet.Sockets.Disconnect.{disconnect_client, disconnect_server, disconnect_invalid}
use cosnet.Sockets.Invariant.{agrees, Inv, InvBut, Inv-InvBut, settled_at, valid_settled}

same_member :
    (id : ℕ) (xs : List ℕ) (i : ℕ) → member i xs ≡ (if id == i then member id xs else member i xs)
same_member id xs i = elim (Bool-cases (id == i)) [
  | inl e ↦ (let same : id ≡ i = ground arith in rw (e, same) refl)
  | inr e ↦ rw e refl
]

-- A change within one socket.
pub Frame-Inv :
    (id : ℕ) (w w' : Sockets)
    → Frame id w w'
    → agrees
        (member id w.sockets)
        (member id w.reconnecting)
        (Socket.status (w'.heap id))
        (Socket.stop (w'.heap id))
      ≡ true
    → InvBut id w
    → Inv w'
Frame-Inv id w w' (hc, hs, hi, hr, hh) ha (counted, distinct, fresh, all) = (
  hc ∙ counted ∙ ap (λ xs. pos (length xs)) (sym hs),
  rw hs distinct,
  (λ i lt. rw hs (fresh i (omega (arith, hi, lt)))),
  settled_at id w w' (member id w.sockets) (member id w.reconnecting)
      (λ i. rw hs (same_member id w.sockets i)) (λ i. rw hr (same_member id w.reconnecting i)) hh ha
      all,
)

agrees_released : (stop : Stop) → agrees false false status_released stop ≡ true
unfolding agrees
agrees_released stop = refl

-- The end of a socket that was in the map and did not reconnect any more.
pub Gone-Inv :
    (id : ℕ) (w w' : Sockets)
    → member id w.sockets ≡ true
    → member id w.reconnecting ≡ false
    → Gone id w w'
    → InvBut id w
    → Inv w'
Gone-Inv id w w' m r (hc, hs, hi, hr, hh, status) (counted, distinct, fresh, all) = (
  (hc
      ∙ ap decrement (counted ∙ ap pos (length-remove id w.sockets distinct m))
      ∙ ap (λ xs. pos (length xs)) (sym hs)),
  rw hs (remove-IsDistinct id w.sockets distinct),
  (λ i lt. rw hs (ground (arith, member-remove i id w.sockets, fresh i (omega (arith, hi, lt))))),
  settled_at id w w' false false (λ i. rw hs (member-remove i id w.sockets))
      (λ i. rw hr (ground (arith, same_member id w.reconnecting i))) hh
      (rw status (agrees_released (Socket.stop (w'.heap id)))) all,
)

agrees_parked : agrees true true status_reconnecting closed ≡ true
unfolding agrees
agrees_parked = refl

-- A socket starts to reconnect.
pub Parked-Inv :
    (id : ℕ) (w w' : Sockets)
    → member id w.sockets ≡ true
    → member id w.reconnecting ≡ false
    → Parked id w w'
    → InvBut id w
    → Inv w'
unfolding member
Parked-Inv id w w' m r (hc, hs, hi, hr, hh, status, stop) (counted, distinct, fresh, all) = (
  hc ∙ counted ∙ ap (λ xs. pos (length xs)) (sym hs),
  rw hs distinct,
  (λ i lt. rw hs (fresh i (omega (arith, hi, lt)))),
  settled_at id w w' true true (λ i. rw hs (ground (arith, same_member id w.sockets i)))
      (λ i. rw hr (ground arith)) hh (rw (status, stop) agrees_parked) all,
)

-- The whole of `disconnect`.
pub disconnect-Inv : (id : ℕ) (w : Sockets) → Inv w → Inv (disconnect id w).0
disconnect-Inv id w inv = elim (Bool-cases (is_valid_status (Socket.status (w.heap id)))) [
  | inl v ↦
      (let (o, m, r) = valid_settled w id (inv.3 id) v in
        elim (Bool-cases (is_client (w.heap id))) [
          | inl c ↦
              Parked-Inv id w (disconnect id w).0 m r (disconnect_client id w v o c).0
                (Inv-InvBut id w inv)
          | inr c ↦
              Gone-Inv id w (disconnect id w).0 m r (disconnect_server id w v o c).0
                (Inv-InvBut id w inv)
        ])
  | inr v ↦ rw (disconnect_invalid id w v) inv
]
