-- ===== src/Udp/Routing/Kept.antt =====
-- Each operation of the UDP listener keeps its map of connections right.
use cosnet.Prelude.{
  ℕ, ◌<◌, ◌≡◌, ◌≢◌, refl, ap, sym, ◌∙◌, Bool, true, false, Option, none, some, List, [], ◌∷◌, ◌++◌,
  Error, ok, err, panic, ◌==◌, ltb, if◌then◌else◌, length, arith,
}
use cosnet.Prelude.Bytes.{Bytes}
use cosnet.Udp.{
  Conn, Listener, Outcome, done, waits, find, delete, conn_of, update, set_conn, remove_conn,
  close_msg_chan, then_do, close_conn, close_all, active, close_listener, accept_from, deliver,
  take_packet_from, write_to_udp, write,
}
use cosnet.Udp.Represents.{find-delete}

-- Each connection in the map was made, has the address that it is under, and is open.
abbrev pub Own : Listener → Type 0
Own l =
    (key i : ℕ)
    → conn_of key l ≡ some i
    → (i < l.next) × (Conn.addr (l.heap i) ≡ key) × (Conn.closed (l.heap i) ≡ false)

-- `closing` is whether `Close` of the listener was called. Without that there is a map.
abbrev pub Owned : Bool → Listener → Type 0
Owned closing l = (l.conn_ch_closed ≡ closing) × (l.conns ≡ none → closing ≡ true) × Own l

-- Nor is the mutex held then.
abbrev pub Routed : Bool → Listener → Type 0
Routed closing l = (l.locked ≡ true → closing ≡ true) × Owned closing l

-- No address is mapped to `i`.
abbrev Away : ℕ → Listener → Type 0
Away i l = (key : ℕ) → conn_of key l ≢ some i

addr-update :
    (heap : ℕ → Conn) (i : ℕ) (c : Conn) (j : ℕ)
    → c.addr ≡ Conn.addr (heap i)
    → Conn.addr (update heap i c j) ≡ Conn.addr (heap j)
addr-update heap i c j e = ground arith

closed-update :
    (heap : ℕ → Conn) (i : ℕ) (c : Conn) (j : ℕ)
    → c.closed ≡ Conn.closed (heap i)
    → Conn.closed (update heap i c j) ≡ Conn.closed (heap j)
closed-update heap i c j e = ground arith

pub update_off : (heap : ℕ → Conn) (i : ℕ) (c : Conn) (j : ℕ) → i ≢ j → update heap i c j ≡ heap j
update_off heap i c j e = ground arith

abbrev without : ℕ → Listener → Listener
without key l = record l { conns = elim l.conns [ none ↦ none | some m ↦ some (delete key m) ] }

conn_of-without :
    (key k : ℕ) (l : Listener)
    → conn_of k (without key l) ≡ (if key == k then none else conn_of k l)
conn_of-without key k l = go l.conns
  where
    go :
        (m : Option (List (ℕ × ℕ)))
        → elim (elim m as (λ _. Option (List (ℕ × ℕ))) [
          | none ↦ none
          | some m ↦ some (delete key m)
        ])
            as (λ _. Option ℕ) [ none ↦ none | some m ↦ find k m ]
          ≡ (if key == k then none else elim m [ none ↦ none | some m ↦ find k m ])
    go none = ground arith
    go (some m) = find-delete key k m

chosen :
    (t : Bool) (x : Option ℕ) (i : ℕ)
    → (if t then none else x) ≡ some i
    → (t ≡ false) × (x ≡ some i)
chosen true x i e = absurd (cc)
chosen false x i e = (refl, e)

found_without :
    (key k i : ℕ) (l : Listener)
    → conn_of k (without key l) ≡ some i
    → (key ≢ k) × (conn_of k l ≡ some i)
found_without key k i l e =
    let (other, found) = chosen (key == k) (conn_of k l) i (sym (conn_of-without key k l) ∙ e) in
    (λ same. ground (arith, other, same), found)

without-Away : (i : ℕ) (l : Listener) → Own l → Away i (without (Conn.addr (l.heap i)) l)
without-Away i l own key e =
    let (apart, found) = found_without (Conn.addr (l.heap i)) key i l e in apart (own key i found).1

module _ (c : Bool) where
  pub set-Routed :
      (i : ℕ) (conn : Conn) (l : Listener)
      → conn.addr ≡ Conn.addr (l.heap i)
      → conn.closed ≡ Conn.closed (l.heap i)
      → Routed c l
      → Routed c (set_conn i conn l)
  set-Routed i conn l same_addr same_closed (free, (flag, mapped, own)) = (
    free,
    (
      flag,
      mapped,
      λ key j e.
          let (lt, addr, live) = own key j e in
          (
            lt,
            addr-update l.heap i conn j same_addr ∙ addr,
            closed-update l.heap i conn j same_closed ∙ live,
          ),
    ),
  )

  without-Routed : (key : ℕ) (l : Listener) → Routed c l → Routed c (without key l)
  without-Routed key l (free, (flag, mapped, own)) = (
    free,
    (flag, (λ e. mapped (emptied l.conns e)), λ k i e. own k i (found_without key k i l e).1),
  )
    where
      emptied :
          (m : Option (List (ℕ × ℕ)))
          → elim m as (λ _. Option (List (ℕ × ℕ))) [ none ↦ none | some m' ↦ some (delete key m') ]
            ≡ none
          → m ≡ none
      emptied none e = refl
      emptied (some m') e = absurd (cc)

  -- Both branches of a test.
  pub either-Routed :
      {A : Type 0} (t : Bool) (x y : Listener × A)
      → (t ≡ true → Routed c x.0)
      → (t ≡ false → Routed c y.0)
      → Routed c (if t then x else y).0
  either-Routed true x y hx hy = hx refl
  either-Routed false x y hx hy = hy refl

  close_msg_chan-Routed :
      (i : ℕ) (l : Listener) → Away i l → Routed c l → Routed c (close_msg_chan i l).0
  unfolding close_msg_chan
  close_msg_chan-Routed i l away (free, (flag, mapped, own)) =
      either-Routed (Conn.closed (l.heap i)) _ _ (λ twice. (free, (flag, mapped, own)))
        (λ once. (free, (flag, mapped, kept)))
    where
      kept : Own (set_conn i (record (l.heap i) { closed = true }) l)
      kept key j e =
          let (lt, addr, live) = own key j e in
          let same =
            update_off l.heap i (record (l.heap i) { closed = true }) j
              (λ s. away key (e ∙ ap some (sym s))) in
          (lt, ap Conn.addr same ∙ addr, ap Conn.closed same ∙ live)

  pub remove_conn-Routed : (key : ℕ) (l : Listener) → Routed c l → Routed c (remove_conn key l).0
  unfolding remove_conn
  remove_conn-Routed key l r =
      either-Routed l.locked _ _ (λ held. r) (λ idle. without-Routed key l r)

  pub close_conn-Routed : (i : ℕ) (l : Listener) → Routed c l → Routed c (close_conn i l).0
  unfolding close_conn remove_conn
  close_conn-Routed i l r = shut l.locked
    where
      shut :
          (t : Bool)
          → Routed c
              (then_do
                (close_msg_chan i)
                (if t then (l, waits) else (without (Conn.addr (l.heap i)) l, done (ok tt)))).0
      shut true = r
      shut false =
          close_msg_chan-Routed i (without (Conn.addr (l.heap i)) l) (without-Away i l r.1.2)
            (without-Routed (Conn.addr (l.heap i)) l r)

  then_do-Routed :
      (f : Listener → Listener × Outcome (Unit {0})) (r : Listener × Outcome (Unit {0}))
      → ((l : Listener) → Routed c l → Routed c (f l).0)
      → Routed c r.0
      → Routed c (then_do f r).0
  then_do-Routed f (l, done (ok a)) keep b = keep l b
  then_do-Routed f (l, done (err e)) keep b = b
  then_do-Routed f (l, done panic) keep b = b
  then_do-Routed f (l, waits) keep b = b

  close_all-Routed : (m : List (ℕ × ℕ)) (l : Listener) → Routed c l → Routed c (close_all m l).0
  unfolding close_all
  close_all-Routed [] l b = b
  close_all-Routed ((k, i) ∷ m) l b =
      then_do-Routed (close_all m) (close_conn i l) (close_all-Routed m) (close_conn-Routed i l b)

  pub accept_from-Routed : (xs : List ℕ) (l : Listener) → Routed c l → Routed c (accept_from xs l).0
  unfolding accept_from
  accept_from-Routed (i ∷ rest) l r = r
  accept_from-Routed [] l r = either-Routed l.conn_ch_closed _ _ (λ e. r) (λ e. r)

  pub deliver-Routed : (i : ℕ) (p : Bytes) (l : Listener) → Routed c l → Routed c (deliver i p l).0
  unfolding deliver
  deliver-Routed i p l r =
      either-Routed (Conn.closed (l.heap i)) _ _ (λ shut. r)
        (λ live.
          either-Routed (ltb (length (Conn.msg_chan (l.heap i))) l.options.msg_chan_size) _ _
            (λ room.
              set-Routed i (record (l.heap i) { msg_chan = Conn.msg_chan (l.heap i) ++ (p ∷ []) }) l
                refl refl r)
            (λ full. r))

  pub take_packet_from-Routed :
      (q : List Bytes) (i : ℕ) (l : Listener) → Routed c l → Routed c (take_packet_from q i l).0
  unfolding take_packet_from
  take_packet_from-Routed (p ∷ rest) i l r =
      set-Routed i (record (l.heap i) { msg_chan = rest }) l refl refl r
  take_packet_from-Routed [] i l r = either-Routed (Conn.closed (l.heap i)) _ _ (λ e. r) (λ e. r)

  pub write-Routed :
      (failed : Option Error) (i : ℕ) (b : Bytes) (l : Listener)
      → Routed c l
      → Routed c (write failed i b l).0
  unfolding write write_to_udp
  write-Routed none i b l r = r
  write-Routed (some e) i b l r =
      then_do-Routed (λ l1. (l1, done (err e))) (remove_conn (Conn.addr (l.heap i)) l) (λ l1 r1. r1)
        (remove_conn-Routed (Conn.addr (l.heap i)) l r)

-- `Close` of the listener, after which it is being closed.
pub close_listener-Routed :
    (c : Bool) (l : Listener) → Routed c l → (c' : Bool) × Routed c' (close_listener l).0
unfolding close_listener
close_listener-Routed c l (free, (flag, mapped, own)) = go l.conn_ch_closed l.locked
  where
    go :
        (t u : Bool)
        → (c' : Bool) × Routed c'
            (if t
              then (l, done panic)
              else if u
              then (record l { conn_ch_closed = true }, waits)
              else then_do
                  (λ l2. (record l2 { conns = none; locked = false; down = true }, done (ok tt)))
                  (close_all (active l) (record l { conn_ch_closed = true; locked = true }))).0
    go true u = (c, (free, (flag, mapped, own)))
    go false true = (true, ((λ e. refl), (refl, (λ e. refl), own)))
    go false false = (
      true,
      then_do-Routed true
          (λ l2. (record l2 { conns = none; locked = false; down = true }, done (ok tt)))
          (close_all (active l) (record l { conn_ch_closed = true; locked = true }))
          (λ l2 r. ((λ e. refl), (r.1.0, (λ e. refl), λ key i e. absurd (cc))))
          (close_all-Routed true (active l) (record l { conn_ch_closed = true; locked = true })
            ((λ e. refl), (refl, (λ e. refl), own))),
    )
