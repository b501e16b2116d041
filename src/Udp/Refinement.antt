-- ===== src/Udp/Refinement.antt =====
-- The listener keeps its promise.
use cosnet.Prelude.{
  ℕ, ◌<◌, ◌≡◌, refl, ap, sym, subst, ◌∙◌, true, Option, none, some, List, [], ◌∷◌, ok, err, ◌==◌,
  if◌then◌else◌, map, All, arith, Bool-cases, Option-cases, inl, inr,
}
use cosnet.Prelude.{listener_closed}
use cosnet.Prelude.Bytes.{Bytes}
use cosnet.Udp.{
  Options, Conn, Listener, done, waits, new_listener, find, delete, conn_of, update, set_conn,
  remove_conn, close_msg_chan, close_conn, accept_from, accept, take_packet_from, take_packet,
}
use cosnet.Udp.Mailboxes.{
  Mailboxes, no_mail, Event, arrives, accepts, takes, closes, pends, put, accepted_by, taken_from,
  closed_at, promise, accept_output, packet_output, take_at, close_at, perform, promises, performs,
}
use cosnet.Udp.Represents.{
  find-delete, IsOpen, mail_of, addr_of, Represents, map-addr, update_field, set-IsOpen,
  set-Represents, Kept,
}
use cosnet.Udp.Arrivals.{receive-Kept}
use cosnet.Udp.Found.{conn_of-find}

-- The listener without the connection of `key`, which is closed.
abbrev pub without : ℕ → ℕ → List (ℕ × ℕ) → Listener → Listener
without key i m l = record (set_conn i (record (l.heap i) { closed = true }) l) {
  conns = some (delete key m);
}

-- The mail of a connection that keeps its queue.
mail_field :
    (heap : ℕ → Conn) (i : ℕ) (c : Conn) (found : Option ℕ)
    → c.msg_chan ≡ Conn.msg_chan (heap i)
    → mail_of (update heap i c) found ≡ mail_of heap found
mail_field heap i c none same = refl
mail_field heap i c (some j) same = ap (λ q. some q) (update_field Conn.msg_chan heap i c j same)

module _ (o : Options) (m : List (ℕ × ℕ)) (l : Listener) (h : IsOpen o m l) where
  pub close_conn_found :
      (key i : ℕ) → find key m ≡ some i → close_conn i l ≡ (without key i m l, done (ok tt))
  unfolding close_conn remove_conn close_msg_chan
  close_conn_found key i e = ground (arith, h.free, h.addressed key i e, h.opened key i e, h.mapped)

module _ (o : Options) (m : List (ℕ × ℕ)) (l : Listener) (s : Mailboxes) (h : IsOpen o m l)
    (r : Represents m l s) where
  accepts-Kept : Kept o (accept_output (accept l)) (accepted_by s.waiting s)
  unfolding accept accept_from
  accepts-Kept =
      subst (λ xs. Kept o (accept_output (accept l)) (accepted_by xs s)) r.waiting
        (from l.conn_ch refl)
    where
      from :
          (xs : List ℕ)
          → l.conn_ch ≡ xs
          → Kept o (accept_output (accept_from xs l)) (accepted_by (map (addr_of l.heap) xs) s)
      from [] e =
          subst
            (λ b.
              Kept o (accept_output (if b then (l, done (err listener_closed)) else (l, waits)))
                (s, pends))
            (sym h.accepting) (m, h, r, refl)
      from (i ∷ rest) e = (
        m,
        record {
          with_options = h.with_options;
          accepting = h.accepting;
          mapped = h.mapped;
          free = h.free;
          addressed = h.addressed;
          opened = h.opened;
          made = h.made;
          queued = (subst (All (λ j. j < l.next)) e h.queued).1;
        },
        record { waiting = refl; inbox = r.inbox },
        refl,
      )

  taken-Kept :
      (key i : ℕ) (q : List Bytes)
      → find key m ≡ some i
      → Conn.msg_chan (l.heap i) ≡ q
      → Kept o (packet_output (take_packet_from q i l)) (taken_from key (some q) s)
  unfolding take_packet_from
  taken-Kept key i [] e held =
      subst (λ b. Kept o (packet_output (if b then (l, done (ok none)) else (l, waits))) (s, pends))
        (sym (h.opened key i e)) (m, h, r, refl)
  taken-Kept key i (b ∷ rest) e held =
      let c : Conn = record (l.heap i) { msg_chan = rest } in
      (
        m,
        set-IsOpen o m l i c refl refl h,
        set-Represents o m l s key i c rest h e refl refl r,
        refl,
      )

  takes-Kept : (key : ℕ) → Kept o (take_at (conn_of key l) l) (taken_from key (s.inbox key) s)
  unfolding take_packet
  takes-Kept key = elim (Option-cases (find key m)) [
    | inl gone ↦ rw (conn_of-find o m l h key, ← r.inbox key, gone) (m, h, r, refl)
    | inr (i, there) ↦
        rw (conn_of-find o m l h key, ← r.inbox key, there)
          (taken-Kept key i (Conn.msg_chan (l.heap i)) there refl)
  ]

  without-IsOpen : (key i : ℕ) → find key m ≡ some i → IsOpen o (delete key m) (without key i m l)
  without-IsOpen key i e = record {
    with_options = h.with_options;
    accepting = h.accepting;
    mapped = refl;
    free = h.free;
    addressed = λ k j f.
        update_field Conn.addr l.heap i (record (l.heap i) { closed = true }) j refl
        ∙ h.addressed k j (kept k j f);
    opened = λ k j f. ground (
      arith,
      f,
      find-delete key k m,
      h.opened k j,
      e,
      h.addressed key i e,
      h.addressed k j (kept k j f),
    );
    made = λ k j f. h.made k j (kept k j f);
    queued = h.queued;
  }
    where
      kept : (k j : ℕ) → find k (delete key m) ≡ some j → find k m ≡ some j
      kept k j f = ground (arith, f, find-delete key k m)

  without-Represents :
      (key i : ℕ)
      → find key m ≡ some i
      → Represents (delete key m) (without key i m l) (record s { inbox = put key none s.inbox })
  without-Represents key i e = record {
    waiting =
        map-addr l.heap (Listener.heap (without key i m l)) l.next l.conn_ch
          (λ j small. update_field Conn.addr l.heap i (record (l.heap i) { closed = true }) j refl)
          h.queued
        ∙ r.waiting;
    inbox = λ k. elim (Bool-cases (key == k)) [
      | inl here ↦ rw (find-delete key k m, here) refl
      | inr away ↦
          rw (find-delete key k m, away)
            (mail_field l.heap i (record (l.heap i) { closed = true }) (find k m) refl ∙ r.inbox k)
    ];
  }

  closes-Kept : (key : ℕ) → Kept o (close_at (conn_of key l) l) (closed_at key (s.inbox key) s)
  closes-Kept key = elim (Option-cases (find key m)) [
    | inl gone ↦ rw (conn_of-find o m l h key, ← r.inbox key, gone) (m, h, r, refl)
    | inr (i, there) ↦
        rw (conn_of-find o m l h key, ← r.inbox key, there, close_conn_found o m l h key i there)
          (delete key m, without-IsOpen key i there, without-Represents key i there, refl)
  ]

  perform-Kept : (e : Event) → Kept o (perform e l) (promise o e s)
  unfolding perform promise
  perform-Kept (arrives key packet) = receive-Kept o m l s h r key packet
  perform-Kept accepts = accepts-Kept
  perform-Kept (takes key) = takes-Kept key
  perform-Kept (closes key) = closes-Kept key

performs-Kept :
    (o : Options) (es : List Event) (m : List (ℕ × ℕ)) (l : Listener) (s : Mailboxes)
    → IsOpen o m l
    → Represents m l s
    → (performs es l).1 ≡ (promises o es s).1
unfolding performs promises
performs-Kept o [] m l s h r = refl
performs-Kept o (e ∷ es) m l s h r =
    let (m', h', r', same) = perform-Kept o m l s h r e in
    λ t. same t ∷ performs-Kept o es m' (perform e l).0 (promise o e s).0 h' r' t

-- Any sequence of packets that come, of connections that are accepted, and of packets that are
-- taken from the connection of an address or of such connections that are closed has on a new
-- listener the outputs that the mailboxes promise: packets are queued by their sender's address in
-- the order of their arrival, up to the size of a queue, addresses wait for `Accept` in order, up
-- to the size of its queue, and what does not fit is dropped. No such call fails or panics.
pub performs-promises :
    (o : Options) (es : List Event) → (performs es (new_listener o)).1 ≡ (promises o es no_mail).1
unfolding new_listener find
performs-promises o es =
    performs-Kept o es [] (new_listener o) no_mail
      (record {
        with_options = refl;
        accepting = refl;
        mapped = refl;
        free = refl;
        addressed = λ key i e. absurd (cc);
        opened = λ key i e. absurd (cc);
        made = λ key i e. absurd (cc);
        queued = tt;
      })
      (record { waiting = refl; inbox = λ key. refl })
