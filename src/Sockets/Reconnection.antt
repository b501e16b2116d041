-- ===== src/Sockets/Reconnection.antt =====
-- A client's socket that loses its connection, up to the end of the goroutine of `tryReconnect`.
use cosnet.Prelude.{ℕ, ◌≡◌, refl, subst, true, false, none, some, List, ◌∷◌, arith}
use cosnet.Prelude.Int.{ℤ}
use cosnet.Sockets.State.{status_released, Socket, Sockets, member, remove, decrement}
use cosnet.Sockets.Lists.{member-remove}
use cosnet.Sockets.Lifecycle.{
  is_valid_status, is_client, connect, release, disconnect, reconnect_done, get,
}
use cosnet.Sockets.Frame.{release-Gone}
use cosnet.Sockets.Disconnect.{disconnect_client}
use cosnet.Sockets.Invariant.{Inv, valid_settled}
use cosnet.Sockets.Admission.{Ready, Ready-connect}

-- The socket is out of the map and has ended; the counter went down by one.
abbrev pub Ended : ℕ → ℤ → Sockets → Type 0
Ended id count w =
    (get id w ≡ none) × (Socket.status (w.heap id) ≡ status_released) × (w.count ≡ decrement count)

abbrev resumed : ℕ → Sockets → Sockets
resumed id w = record w { reconnecting = remove id w.reconnecting }

member_first : (id : ℕ) (xs : List ℕ) → member id (id ∷ xs) ≡ true
unfolding member
member_first id xs = ground arith

reconnect_done_lem :
    (id : ℕ) (w : Sockets)
    → member id w.reconnecting ≡ true
    → ((conn : ℕ) → reconnect_done id (some conn) w ≡ connect id conn (resumed id w))
      × (reconnect_done id none w ≡ release id (resumed id w))
unfolding reconnect_done
reconnect_done_lem id w m = ((λ conn. rw m refl), rw m refl)

release-Ended : (id : ℕ) (w : Sockets) → Ended id w.count (release id (resumed id w))
unfolding get
release-Ended id w =
    let (count, sockets, index, again, others, status) = release-Gone id (resumed id w) in
    let out : member id (remove id w.sockets) ≡ false =
      ground (arith, member-remove id id w.sockets) in
    (rw (sockets, out) refl, status, count)

-- In a manager with the invariant, a client's socket with a valid status that is disconnected is
-- ready on the new connection in the map once `tryConnect` has returned one; where it has returned
-- an error, the socket is not in the map, its status is released, and the counter is one less than
-- before.
pub disconnect-Reconnects :
    (id conn : ℕ) (w : Sockets)
    → Inv w
    → is_valid_status (Socket.status (w.heap id)) ≡ true
    → is_client (w.heap id) ≡ true
    → Ready id conn (reconnect_done id (some conn) (disconnect id w).0)
      × Ended id w.count (reconnect_done id none (disconnect id w).0)
disconnect-Reconnects id conn w inv valid client =
    let (open_stop, mapped, quiet) = valid_settled w id (inv.3 id) valid in
    let w1 = (disconnect id w).0 in
    let (count, sockets, index, again, others, status, stop) =
      (disconnect_client id w valid open_stop client).0 in
    let running : member id w1.reconnecting ≡ true = rw again (member_first id w.reconnecting) in
    let (some_lem, none_lem) = reconnect_done_lem id w1 running in
    (
      rw (some_lem conn) (Ready-connect id conn (resumed id w1) (rw sockets mapped)),
      rw none_lem
          (subst (λ n. Ended id n (release id (resumed id w1))) count (release-Ended id w1)),
    )
