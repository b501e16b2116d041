-- ===== src/Udp/Routing/Made.antt =====
-- A round of `readLoop` keeps the map of connections right, with the connection that it makes.
use cosnet.Prelude.{
  ℕ, suc, ◌<◌, ◌≡◌, refl, ap, sym, subst, conn_chan_full, ◌∙◌, Bool, true, false, Option, none,
  some, List, [], ◌∷◌, ◌++◌, Result, ok, err, panic, ◌==◌, ltb, if◌then◌else◌, length, arith,
}
use cosnet.Prelude.Bytes.{Bytes}
use cosnet.Udp.{
  Conn, Listener, Outcome, done, waits, find, conn_of, set_conn, record_conn, new_conn, unlocked,
  known_or_new, route, routed, receive,
}
use cosnet.Udp.Routing.Kept.{Owned, Routed, update_off, either-Routed, deliver-Routed}

module _ (c : Bool) where
  record_conn-Owned :
      (key i : ℕ) (m : Option (List (ℕ × ℕ))) (l : Listener)
      → l.conns ≡ m
      → Conn.addr (l.heap i) ≡ key
      → Conn.closed (l.heap i) ≡ false
      → i < l.next
      → Owned c l
      → Owned c (record_conn key i m l).0
  unfolding find
  record_conn-Owned key i none l e addr live lt o = o
  record_conn-Owned key i (some m) l e addr live lt (flag, mapped, own) =
      (flag, (λ gone. absurd (cc)), λ k j found. at (key == k) k j refl found)
    where
      at :
          (t : Bool) (k j : ℕ)
          → (key == k) ≡ t
          → (if t then some i else find k m) ≡ some j
          → (j < l.next) × (Conn.addr (l.heap j) ≡ k) × (Conn.closed (l.heap j) ≡ false)
      at true k j same found =
          let here : i ≡ j = cc in
          let keyed : key ≡ k = ground (arith, same) in
          subst (λ q. (q < l.next) × (Conn.addr (l.heap q) ≡ k) × (Conn.closed (l.heap q) ≡ false))
            here (lt, addr ∙ keyed, live)
      at false k j other found = own k j (
          ap (λ (o : Option (List (ℕ × ℕ))). elim o [ none ↦ none | some m' ↦ find k m' ]) e
          ∙ found)

  -- The connection that `newConn` makes.
  abbrev pub added : ℕ → Listener → Listener
  added key l =
      set_conn l.next (record { addr = key; msg_chan = []; closed = false })
        (record l { conn_ch = l.conn_ch ++ (l.next ∷ []); next = suc l.next })

  added-Owned : (key : ℕ) (l : Listener) → Owned c l → Owned c (added key l)
  added-Owned key l (flag, mapped, own) = (
    flag,
    mapped,
    λ k j found.
        let (lt, addr, live) = own k j found in
        let same =
          update_off l.heap l.next (record { addr = key; msg_chan = []; closed = false }) j
            (λ e. omega (arith, lt, e)) in
        (omega (arith, lt), ap Conn.addr same ∙ addr, ap Conn.closed same ∙ live),
  )

  either-Owned :
      {A : Type 0} (t : Bool) (x y : Listener × A)
      → Owned c x.0
      → Owned c y.0
      → Owned c (if t then x else y).0
  either-Owned true x y hx hy = hx
  either-Owned false x y hx hy = hy

  new_conn-Owned : (key : ℕ) (l : Listener) → Owned c l → Owned c (new_conn key l).0
  unfolding new_conn
  new_conn-Owned key l o = either-Owned l.conn_ch_closed _ _ o (
      either-Owned (ltb (length l.conn_ch) l.options.conn_chan_size) _ _
        (record_conn-Owned key l.next l.conns (added key l) refl (ground arith) (ground arith)
          (omega arith) (added-Owned key l o))
        o)

  record_conn_panics :
      (key i : ℕ) (m : Option (List (ℕ × ℕ))) (l : Listener)
      → (record_conn key i m l).1 ≡ panic
      → m ≡ none
  record_conn_panics key i none l e = refl
  record_conn_panics key i (some m) l e = absurd (cc)

  new_conn_panics : (key : ℕ) (l : Listener) → Owned c l → (new_conn key l).1 ≡ panic → c ≡ true
  unfolding new_conn
  new_conn_panics key l (flag, mapped, own) =
      go l.conn_ch_closed (ltb (length l.conn_ch) l.options.conn_chan_size) flag
    where
      go :
          (t u : Bool)
          → t ≡ c
          → (if t
              then (l, panic)
              else if u
              then record_conn key l.next l.conns (added key l)
              else (l, err conn_chan_full)).1
            ≡ panic
          → c ≡ true
      go true u e h = sym e
      go false true e h = mapped (record_conn_panics key l.next l.conns (added key l) h)
      go false false e h = absurd (cc)

  unlocked-Routed :
      (r : Listener × Result ℕ) → (r.1 ≡ panic → c ≡ true) → Owned c r.0 → Routed c (unlocked r).0
  unlocked-Routed (l, ok i) h o = ((λ e. absurd (cc)), o)
  unlocked-Routed (l, err x) h o = ((λ e. absurd (cc)), o)
  unlocked-Routed (l, panic) h o = ((λ e. h refl), o)

  pub route-Routed : (key : ℕ) (l : Listener) → Routed c l → Routed c (route key l).0
  unfolding route
  route-Routed key l r = either-Routed c l.locked _ _ (λ held. r) (λ idle. fetched (conn_of key l))
    where
      fetched :
          (found : Option ℕ)
          → Routed c (unlocked (known_or_new key found (record l { locked = true }))).0
      fetched (some i) = ((λ e. absurd (cc)), r.1)
      fetched none =
          unlocked-Routed (new_conn key (record l { locked = true }))
            (new_conn_panics key (record l { locked = true }) r.1)
            (new_conn-Owned key (record l { locked = true }) r.1)

  pub receive-Routed :
      (key : ℕ) (p : Bytes) (l : Listener) → Routed c l → Routed c (receive key p l).0
  unfolding receive
  receive-Routed key p l r =
      either-Routed c (length p == 0) _ _ (λ empty. r)
        (λ full. handed (route key l) (route-Routed key l r))
    where
      handed : (q : Listener × Outcome ℕ) → Routed c q.0 → Routed c (routed p q).0
      handed (l1, done (ok i)) r1 = deliver-Routed c i p l1 r1
      handed (l1, done (err e)) r1 = r1
      handed (l1, done panic) r1 = r1
      handed (l1, waits) r1 = r1
