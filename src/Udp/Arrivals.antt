-- ===== src/Udp/Arrivals.antt =====
-- A packet that comes from an address.
use cosnet.Prelude.{
  ℕ, suc, ◌<◌, ◌≡◌, refl, ap, sym, subst, ◌∙◌, true, false, Option, none, some, List, [], ◌∷◌, ◌++◌,
  ok, err, ◌==◌, ltb, if◌then◌else◌, length, map, All, All-append, arith, Bool-cases, eq→==,
  Option-cases, inl, inr,
}
use cosnet.Prelude.{conn_chan_full}
use cosnet.Prelude.Bytes.{Bytes}
use cosnet.Udp.{
  Options, Conn, Listener, done, find, update, new_conn, unlocked, route, deliver, routed, receive,
}
use cosnet.Udp.Mailboxes.{Mailboxes, nothing, put, offer, arrived, unit_output}
use cosnet.Udp.Represents.{
  IsOpen, mail_of, addr_of, Represents, free_of, free-IsOpen, free-Represents, Kept, Represents-eq,
}
use cosnet.Udp.Found.{route_found, route_new, deliver-Kept}

-- The listener with a new connection.
abbrev pub with_new : ℕ → List (ℕ × ℕ) → Listener → Listener
with_new key m l = record l {
  locked = false;
  conn_ch = l.conn_ch ++ (l.next ∷ []);
  next = suc l.next;
  conns = some ((key, l.next) ∷ m);
  heap = update l.heap l.next (record { addr = key; msg_chan = []; closed = false });
}

find-new :
    (key n : ℕ) (m : List (ℕ × ℕ)) (k : ℕ)
    → find k ((key, n) ∷ m) ≡ (if key == k then some n else find k m)
unfolding find
find-new key n m k = refl

map-addr_new :
    (heap : ℕ → Conn) (n : ℕ) (c : Conn) (xs : List ℕ)
    → All (λ i. i < n) xs
    → map (addr_of (update heap n c)) (xs ++ (n ∷ [])) ≡ map (addr_of heap) xs ++ (c.addr ∷ [])
map-addr_new heap n c [] all = rw (eq→== n n refl) refl
map-addr_new heap n c (x ∷ xs) (small, all) =
    let away : (n == x) ≡ false = ground arith in rw (away, map-addr_new heap n c xs all) refl

All-lt_suc : (n : ℕ) (xs : List ℕ) → All (λ i. i < n) xs → All (λ i. i < suc n) xs
All-lt_suc n [] all = tt
All-lt_suc n (x ∷ xs) (small, all) = (omega arith, All-lt_suc n xs all)

length-map_addr : (f : ℕ → ℕ) (xs : List ℕ) → length (map f xs) ≡ length xs
length-map_addr f [] = refl
length-map_addr f (x ∷ xs) = ap suc (length-map_addr f xs)

put-put :
    (key : ℕ) (v v' : Option (List Bytes)) (inbox : ℕ → Option (List Bytes)) (k : ℕ)
    → put key v (put key v' inbox) k ≡ put key v inbox k
put-put key v v' inbox k = ground arith

module _ (o : Options) (m : List (ℕ × ℕ)) (l : Listener) (s : Mailboxes) (h : IsOpen o m l)
    (r : Represents m l s) (key : ℕ) (e : find key m ≡ none) where
  with_new-IsOpen : IsOpen o ((key, l.next) ∷ m) (with_new key m l)
  with_new-IsOpen = record {
    with_options = h.with_options;
    accepting = h.accepting;
    mapped = refl;
    free = refl;
    addressed = λ k j f. ground (arith, f, find-new key l.next m k, h.addressed k j, h.made k j);
    opened = λ k j f. ground (arith, f, find-new key l.next m k, h.opened k j, h.made k j);
    made = λ k j f. ground (arith, f, find-new key l.next m k, h.made k j);
    queued =
        All-append (λ i. i < suc l.next) l.conn_ch (l.next ∷ [])
          (All-lt_suc l.next l.conn_ch h.queued) (omega arith, tt);
  }

  new_mail :
      (k : ℕ)
      → mail_of (Listener.heap (with_new key m l)) (find k ((key, l.next) ∷ m))
        ≡ (if key == k then some [] else mail_of l.heap (find k m))
  new_mail k = elim (Option-cases (find k m)) [
    | inl gone ↦ ground (arith, find-new key l.next m k, gone)
    | inr (j, there) ↦ ground (arith, find-new key l.next m k, there, h.made k j there)
  ]

  -- The mailboxes with an empty one for the new address.
  with_new-Represents :
      Represents
        ((key, l.next) ∷ m)
        (with_new key m l)
        (record s { waiting = s.waiting ++ (key ∷ []); inbox = put key (some []) s.inbox })
  with_new-Represents = record {
    waiting =
        map-addr_new l.heap l.next (record { addr = key; msg_chan = []; closed = false }) l.conn_ch
          h.queued
        ∙ ap (λ xs. xs ++ (key ∷ [])) r.waiting;
    inbox = λ k. new_mail k ∙ ap (λ x. if key == k then some [] else x) (r.inbox k);
  }

  waiting_length : length l.conn_ch ≡ length s.waiting
  waiting_length = sym (length-map_addr (addr_of l.heap) l.conn_ch) ∙ ap length r.waiting

  new_conn_room :
      ltb (length s.waiting) o.conn_chan_size ≡ true
      → unlocked (new_conn key (record l { locked = true })) ≡ (with_new key m l, done (ok l.next))
  unfolding new_conn
  new_conn_room room = ground (arith, room, waiting_length, h.accepting, h.with_options, h.mapped)

  new_conn_full :
      ltb (length s.waiting) o.conn_chan_size ≡ false
      → unlocked (new_conn key (record l { locked = true }))
        ≡ (free_of l, done (err conn_chan_full))
  unfolding new_conn
  new_conn_full full = ground (arith, full, waiting_length, h.accepting, h.with_options)

  -- A packet from a new address.
  arrives_new-Kept :
      (packet : Bytes)
      → Kept o (unit_output (routed packet (route key l))) (arrived o key packet none s, nothing)
  arrives_new-Kept packet = elim (Bool-cases (ltb (length s.waiting) o.conn_chan_size)) [
    | inl room ↦
        let s1 = record s {
          waiting = s.waiting ++ (key ∷ []);
          inbox = put key (some []) s.inbox;
        } in
        let s2 = record s {
          waiting = s.waiting ++ (key ∷ []);
          inbox = put key (some (offer o packet [])) s.inbox;
        } in
        let found : find key ((key, l.next) ∷ m) ≡ some l.next =
          find-new key l.next m key ∙ rw (eq→== key key refl) refl in
        let boxed : s1.inbox key ≡ some [] = rw (eq→== key key refl) refl in
        let (m', h', r', out) =
          deliver-Kept o ((key, l.next) ∷ m) (with_new key m l) s1 with_new-IsOpen
            with_new-Represents key l.next packet found in
        rw (route_new o m l h key e, new_conn_room room, room)
          (
            m',
            h',
            Represents-eq m' _ (arrived o key packet (some []) s1) s2 refl
                (λ k. put-put key (some (offer o packet [])) (some []) s.inbox k)
                (subst
                  (λ x.
                    Represents m' (unit_output (deliver l.next packet (with_new key m l))).0
                      (arrived o key packet x s1))
                  boxed r'),
            out,
          )
    | inr full ↦
        rw (route_new o m l h key e, new_conn_full full, full)
          (m, free-IsOpen o m l h, free-Represents m l s r, refl)
  ]

module _ (o : Options) (m : List (ℕ × ℕ)) (l : Listener) (s : Mailboxes) (h : IsOpen o m l)
    (r : Represents m l s) where
  arrives_found-Kept :
      (key i : ℕ) (packet : Bytes)
      → find key m ≡ some i
      → Kept o
          (unit_output (routed packet (route key l)))
          (arrived o key packet (s.inbox key) s, nothing)
  arrives_found-Kept key i packet e = rw (route_found o m l h key i e) (
      deliver-Kept o m (free_of l) s (free-IsOpen o m l h) (free-Represents m l s r) key i packet e)

  -- A packet from any address, which has a connection or not.
  routed-Kept :
      (key : ℕ) (packet : Bytes)
      → Kept o
          (unit_output (routed packet (route key l)))
          (arrived o key packet (s.inbox key) s, nothing)
  routed-Kept key packet = elim (Option-cases (find key m)) [
    | inl gone ↦
        subst
          (λ x.
            Kept o (unit_output (routed packet (route key l))) (arrived o key packet x s, nothing))
          (ap (mail_of l.heap) (sym gone) ∙ r.inbox key)
          (arrives_new-Kept o m l s h r key gone packet)
    | inr (i, there) ↦ arrives_found-Kept key i packet there
  ]

  pub receive-Kept :
      (key : ℕ) (packet : Bytes)
      → Kept o
          (unit_output (receive key packet l))
          (if length packet == 0 then s else arrived o key packet (s.inbox key) s, nothing)
  unfolding receive
  receive-Kept key packet = elim (Bool-cases (length packet == 0)) [
    | inl empty ↦ rw empty (m, h, r, refl)
    | inr full ↦ rw full (routed-Kept key packet)
  ]
