-- ===== src/Udp/Routing.antt =====
-- Which connection a packet goes to, after anything the goroutines of the UDP listener did.
pub mod Kept
pub mod Made
use cosnet.Prelude.{
  ℕ, suc, ◌<◌, ◌≡◌, ◌≢◌, refl, ap, sym, subst, ◌∙◌, Bool, true, false, Option, none, some, List, [],
  ◌∷◌, ◌++◌, Result, ok, err, panic, ◌==◌, ltb, if◌then◌else◌, length, conn_chan_full, arith,
  Bool-cases, inl, inr,
}
use cosnet.Prelude.Bytes.{Bytes}
use cosnet.Udp.{
  Options, Conn, Listener, Outcome, done, waits, new_listener, conn_of, find, update, set_conn,
  accept, record_conn, new_conn, unlocked, known_or_new, route, deliver, routed, receive,
  take_packet,
}
use cosnet.Udp.Actions.{
  Action, receives, looks_up, delivers, accepts, takes, closes, writes, shuts, act, acts,
}
use cosnet.Udp.Routing.Kept.{
  Owned, Routed, update_off, close_conn-Routed, close_listener-Routed, accept_from-Routed,
  deliver-Routed, take_packet_from-Routed, write-Routed,
}
use cosnet.Udp.Routing.Made.{added, route-Routed, receive-Routed}

act-Routed : (a : Action) (c : Bool) (l : Listener) → Routed c l → (c' : Bool) × Routed c' (act a l)
unfolding act accept take_packet
act-Routed (receives key p) c l r = (c, receive-Routed c key p l r)
act-Routed (looks_up key) c l r = (c, route-Routed c key l r)
act-Routed (delivers i p) c l r = (c, deliver-Routed c i p l r)
act-Routed accepts c l r = (c, accept_from-Routed c l.conn_ch l r)
act-Routed (takes i) c l r = (c, take_packet_from-Routed c (Conn.msg_chan (l.heap i)) i l r)
act-Routed (closes i) c l r = (c, close_conn-Routed c i l r)
act-Routed (writes failed i p) c l r = (c, write-Routed c failed i p l r)
act-Routed shuts c l r = close_listener-Routed c l r

acts-Routed :
    (as' : List Action) (c : Bool) (l : Listener)
    → Routed c l
    → (c' : Bool) × Routed c' (acts as' l)
unfolding acts
acts-Routed [] c l r = (c, r)
acts-Routed (a ∷ as') c l r = let (c', r') = act-Routed a c l r in acts-Routed as' c' (act a l) r'

-- The round returns, without a panic and with the mutex free, and changes the connections of the
-- sender's address only.
abbrev pub Routes : ℕ → Listener → Listener × Outcome (Unit {0}) → Type 0
Routes key l (l', r) =
    (r ≡ done (ok tt))
    × (l'.locked ≡ false)
    × (l'.conn_ch_closed ≡ false)
    × ((i : ℕ) → i < l.next → Conn.addr (l.heap i) ≢ key → l'.heap i ≡ l.heap i)

either-Routes :
    (key : ℕ) (l : Listener) (t : Bool) (x y : Listener × Outcome (Unit {0}))
    → (t ≡ true → Routes key l x)
    → (t ≡ false → Routes key l y)
    → Routes key l (if t then x else y)
either-Routes key l true x y hx hy = hx refl
either-Routes key l false x y hx hy = hy refl

module _ (key : ℕ) (p : Bytes) (l : Listener) (open_ : l.conn_ch_closed ≡ false) where
  -- A packet for the open connection `i` of `l1`, which has the others as `l` had them.
  deliver-Routes :
      (i : ℕ) (l1 : Listener)
      → l1.locked ≡ false
      → l1.conn_ch_closed ≡ false
      → Conn.closed (l1.heap i) ≡ false
      → ((j : ℕ) → j < l.next → Conn.addr (l.heap j) ≢ key → (i ≢ j) × (l1.heap j ≡ l.heap j))
      → Routes key l (deliver i p l1)
  unfolding deliver
  deliver-Routes i l1 free live_ live others =
      either-Routes key l (Conn.closed (l1.heap i)) _ _ (λ shut. absurd (cc))
        (λ e.
          either-Routes key l (ltb (length (Conn.msg_chan (l1.heap i))) l1.options.msg_chan_size) _
            _
            (λ room. (
              refl,
              free,
              live_,
              λ j lt apart.
                  let (off, same) = others j lt apart in
                  update_off l1.heap i
                    (record (l1.heap i) { msg_chan = Conn.msg_chan (l1.heap i) ++ (p ∷ []) }) j off
                  ∙ same,
            ))
            (λ full. (refl, free, live_, λ j lt apart. (others j lt apart).1)))

  module _ (r : Routed false l) where
    unlocked_l : l.locked ≡ false
    unlocked_l = elim (Bool-cases l.locked) [
      | inl held ↦ (let clash : false ≡ true = r.0 held in absurd (cc))
      | inr idle ↦ idle
    ]

    recorded-Routes :
        (m : Option (List (ℕ × ℕ)))
        → l.conns ≡ m
        → Routes key l (
            routed p
              (unlocked (record_conn key l.next m (added false key (record l { locked = true })))))
    recorded-Routes none e = (let clash : false ≡ true = r.1.1 e in absurd (cc))
    recorded-Routes (some m) e =
        deliver-Routes l.next
          (record (record_conn key l.next (some m) (added false key l)).0 { locked = false }) refl
          open_ (ground arith)
          (λ j lt apart. (
            (λ same. omega (arith, lt, same)),
            update_off l.heap l.next (record { addr = key; msg_chan = []; closed = false }) j
                (λ same. omega (arith, lt, same)),
          ))

    -- The connection that the map has for the sender, or a new one.
    fetched-Routes :
        (found : Option ℕ)
        → conn_of key l ≡ found
        → Routes key l (routed p (unlocked (known_or_new key found (record l { locked = true }))))
    unfolding new_conn
    fetched-Routes (some i) e =
        (let (lt, addr, live) = r.1.2 key i e in
          deliver-Routes i (record l { locked = false }) refl open_ live
            (λ j lt apart.
              ((λ same. apart (ap (λ q. Conn.addr (l.heap q)) (sym same) ∙ addr)), refl)))
    fetched-Routes none e =
        made l.conn_ch_closed (ltb (length l.conn_ch) l.options.conn_chan_size) open_
      where
        made :
            (t u : Bool)
            → t ≡ false
            → Routes key l (
                routed p (
                  unlocked (
                    if t
                    then (record l { locked = true }, panic)
                    else if u
                    then record_conn key l.next l.conns
                        (added false key (record l { locked = true }))
                    else (record l { locked = true }, err conn_chan_full))))
        made true u e = absurd (cc)
        made false true e = recorded-Routes l.conns refl
        made false false e = (refl, refl, open_, λ j lt apart. refl)

    round-Routes : Routes key l (receive key p l)
    unfolding receive route
    round-Routes =
        either-Routes key l (length p == 0) _ _
          (λ empty. (refl, unlocked_l, open_, λ j lt apart. refl))
          (λ full. looked l.locked unlocked_l)
      where
        looked :
            (t : Bool)
            → t ≡ false
            → Routes key l (
                routed p (
                  if t
                  then (l, waits)
                  else unlocked (known_or_new key (conn_of key l) (record l { locked = true }))))
        looked true e = absurd (cc)
        looked false e = fetched-Routes (conn_of key l) refl

-- Whatever the goroutines of a new UDP listener did before, in any order, also between the two halves
-- of a round of `readLoop` and after errors and the closing of connections: while the listener is not
-- closed, a whole round of `readLoop` for a packet returns without an error or a panic, does not wait
-- for the mutex and leaves it free, keeps the listener open, and changes no connection that was made
-- for another address than the sender's.
pub acts-Routes :
    (o : Options) (as' : List Action) (key : ℕ) (p : Bytes)
    → Listener.conn_ch_closed (acts as' (new_listener o)) ≡ false
    → Routes key (acts as' (new_listener o)) (receive key p (acts as' (new_listener o)))
unfolding new_listener find
acts-Routes o as' key p live =
    let start : Routed false (new_listener o) =
      ((λ e. absurd (cc)), (refl, (λ e. absurd (cc)), λ k i e. absurd (cc))) in
    let (c, r) = acts-Routed as' false (new_listener o) start in
    round-Routes key p (acts as' (new_listener o)) live
      (subst (λ b. Routed b (acts as' (new_listener o))) (sym r.1.0 ∙ live) r)
