-- ===== src/Udp/Found.antt =====
-- A packet for a connection that is there.
use cosnet.Prelude.{
  ℕ, ◌≡◌, refl, ap, sym, ◌∙◌, true, none, some, List, [], ◌∷◌, ◌++◌, ok, ltb, if◌then◌else◌, length,
  arith, Bool-cases, inl, inr,
}
use cosnet.Prelude.Bytes.{Bytes}
use cosnet.Udp.{
  Options, Conn, Listener, done, waits, find, conn_of, set_conn, new_conn, unlocked, known_or_new,
  route, deliver,
}
use cosnet.Udp.Mailboxes.{Mailboxes, nothing, put, arrived, unit_output}
use cosnet.Udp.Represents.{
  IsOpen, mail_of, Represents, set-IsOpen, set-Represents, free_of, Kept, Represents-eq, put_same,
}

module _ (o : Options) (m : List (ℕ × ℕ)) (l : Listener) (h : IsOpen o m l) where
  pub conn_of-find : (key : ℕ) → conn_of key l ≡ find key m
  conn_of-find key = ap (λ x. elim x [ none ↦ none | some y ↦ find key y ]) h.mapped

  pub deliver_found :
      (key i : ℕ) (packet : Bytes)
      → find key m ≡ some i
      → deliver i packet l ≡ (
        if ltb (length (Conn.msg_chan (l.heap i))) o.msg_chan_size
            then set_conn i
                (record (l.heap i) { msg_chan = Conn.msg_chan (l.heap i) ++ (packet ∷ []) })
                l
            else l,
        done (ok tt),
      )
  unfolding deliver
  deliver_found key i packet e = ground (arith, h.opened key i e, h.with_options)

  pub route_found : (key i : ℕ) → find key m ≡ some i → route key l ≡ (free_of l, done (ok i))
  unfolding route
  route_found key i e =
      ap
        (λ b.
          if b
          then (l, waits)
          else unlocked (known_or_new key (conn_of key l) (record l { locked = true })))
        h.free
      ∙ ap (λ x. unlocked (known_or_new key x (record l { locked = true }))) (conn_of-find key ∙ e)

  pub route_new :
      (key : ℕ)
      → find key m ≡ none
      → route key l ≡ unlocked (new_conn key (record l { locked = true }))
  unfolding route
  route_new key e =
      ap
        (λ b.
          if b
          then (l, waits)
          else unlocked (known_or_new key (conn_of key l) (record l { locked = true })))
        h.free
      ∙ ap (λ x. unlocked (known_or_new key x (record l { locked = true }))) (conn_of-find key ∙ e)

module _ (o : Options) (m : List (ℕ × ℕ)) (l : Listener) (s : Mailboxes) (h : IsOpen o m l)
    (r : Represents m l s) where
  -- A packet for a connection that is there.
  pub deliver-Kept :
      (key i : ℕ) (packet : Bytes)
      → find key m ≡ some i
      → Kept o (unit_output (deliver i packet l)) (arrived o key packet (s.inbox key) s, nothing)
  deliver-Kept key i packet e =
      let q = Conn.msg_chan (l.heap i) in
      let boxed : s.inbox key ≡ some q = sym (r.inbox key) ∙ ap (mail_of l.heap) e in
      rw (deliver_found o m l h key i packet e, boxed)
        (elim (Bool-cases (ltb (length q) o.msg_chan_size)) [
          | inl room ↦ rw room (
            m,
            set-IsOpen o m l i (record (l.heap i) { msg_chan = q ++ (packet ∷ []) }) refl refl h,
            set-Represents o m l s key i (record (l.heap i) { msg_chan = q ++ (packet ∷ []) })
                (q ++ (packet ∷ [])) h e refl refl r,
            refl,
          )
          | inr full ↦ rw full (
            m,
            h,
            Represents-eq m l s (record s { inbox = put key (some q) s.inbox }) refl
                (λ k. put_same key (some q) s.inbox k boxed) r,
            refl,
          )
        ])
