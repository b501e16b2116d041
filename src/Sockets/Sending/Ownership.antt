-- ===== src/Sockets/Sending/Ownership.antt =====
-- Where a message is after `Send`.
use cosnet.Prelude.{
  ℕ, ◌^◌, ◌≤◌, ◌<◌, ◌≡◌, ◌≢◌, refl, ap, ◌∙◌, ◌⊎◌, inl, inr, Bool, true, false, Bool-cases, some, [],
  ◌∷◌, ◌++◌, Error, Result, ok, err, panic, length, Returns, Returns-unbind, returned, not_ready,
  socket_closed, write_chan_full, send_marshal, send_write,
}
use cosnet.Prelude.Int.{ℤ, pos}
use cosnet.Prelude.Bytes.{Bytes}
use cosnet.Message.Magic.{Magic, magic_type_path}
use cosnet.Message.Magic
use cosnet.Message.Env.{Env}
use cosnet.Message.Object.{Message, PathOrCode, path, Payload}
use cosnet.Message.Marshal.{marshal, marshal_body}
use cosnet.Message.RoundTrip.{read_parts, ReadsBack, marshalled_head, read_parts-marshal_path}
use cosnet.Sockets.State.{opened, Socket, Sockets}
use cosnet.Sockets.Lifecycle.{is_ready}
use cosnet.Sockets.Frame.{update_at}
use cosnet.Sockets.Invariant.{Inv}
use cosnet.Sockets.Touched.{set-Inv}
use cosnet.Sockets.Sending.{
  Outcome, done, waits, Chosen, queues, ends, neither, select, is_closed, has_room, queue, write,
  write_chosen, after_write, send_marshalled, send_with_magic,
}

-- The message is at the end of the queue of the socket, and was not released.
abbrev pub Queued : Message → ℕ → Sockets → Sockets × Outcome → Type 0
Queued m id w (w', o) =
    (o ≡ done (ok tt))
    × (Socket.cwrite (w'.heap id) ≡ Socket.cwrite (w.heap id) ++ (m ∷ []))
    × (w'.recycled ≡ w.recycled)

-- The message was released, with an error, and no queue has it.
abbrev pub Recycled : Message → Sockets → Sockets × Outcome → Type 0
Recycled m w (w', o) =
    (e : Error) × (o ≡ done (err e)) × (w'.heap ≡ w.heap) × (w'.recycled ≡ w.recycled ++ (m ∷ []))

-- Nothing happened yet, or the call panicked.
abbrev pub Kept : Sockets → Sockets × Outcome → Type 0
Kept w (w', o) = (w' ≡ w) × ((o ≡ waits) ⊎ (o ≡ done panic))

abbrev pub Owned : Message → ℕ → Sockets → Sockets × Outcome → Type 0
Owned m id w r = Queued m id w r ⊎ (Recycled m w r ⊎ Kept w r)

chosen-Owned :
    (c : Chosen) (safe : Bool) (m : Message) (id : ℕ) (w : Sockets)
    → Owned m id w (after_write m (write_chosen c safe m id w))
unfolding after_write write_chosen
chosen-Owned queues safe m id w = inl (
  refl,
  ap Socket.cwrite
      (update_at w.heap id (record (w.heap id) { cwrite = Socket.cwrite (w.heap id) ++ (m ∷ []) })),
  refl,
)
chosen-Owned ends safe m id w = inr (inl (send_write socket_closed, refl, refl, refl))
chosen-Owned neither true m id w = inr (inr (refl, inl refl))
chosen-Owned neither false m id w = inr (inl (send_write write_chan_full, refl, refl, refl))

write-Owned :
    (safe pick_stop : Bool) (m : Message) (id : ℕ) (w : Sockets)
    → Owned m id w (after_write m (write safe pick_stop m id w))
unfolding write after_write
write-Owned safe pick_stop m id w = elim (Bool-cases (is_ready (w.heap id))) [
  | inl ready ↦ rw ready (
      chosen-Owned (select (has_room id w) (is_closed (Socket.stop (w.heap id))) pick_stop) safe m
        id w)
  | inr busy ↦ rw busy (inr (inl (send_write not_ready, refl, refl, refl)))
]

chosen-Inv :
    (c : Chosen) (safe : Bool) (m : Message) (id : ℕ) (w : Sockets)
    → Inv w
    → Inv (write_chosen c safe m id w).0
unfolding write_chosen
chosen-Inv queues safe m id w inv =
    set-Inv id (record (w.heap id) { cwrite = Socket.cwrite (w.heap id) ++ (m ∷ []) }) w refl refl
      inv
chosen-Inv ends safe m id w inv = inv
chosen-Inv neither true m id w inv = inv
chosen-Inv neither false m id w inv = inv

-- A message in the queue leaves the manager's invariant.
pub write-Inv :
    (safe pick_stop : Bool) (m : Message) (id : ℕ) (w : Sockets)
    → Inv w
    → Inv (write safe pick_stop m id w).0
unfolding write
write-Inv safe pick_stop m id w inv = elim (Bool-cases (is_ready (w.heap id))) [
  | inl ready ↦ rw ready (
      chosen-Inv (select (has_room id w) (is_closed (Socket.stop (w.heap id))) pick_stop) safe m id
        w inv)
  | inr busy ↦ rw busy inv
]

marshalled-Owned :
    (safe pick_stop : Bool) (r : Message × Result (Unit {0})) (id : ℕ) (w : Sockets)
    → Owned r.0 id w (send_marshalled safe pick_stop r id w)
unfolding send_marshalled
marshalled-Owned safe pick_stop (m, ok tt) id w = write-Owned safe pick_stop m id w
marshalled-Owned safe pick_stop (m, err e) id w = inr (inl (send_marshal e, refl, refl, refl))
marshalled-Owned safe pick_stop (m, panic) id w = inr (inr (refl, inr refl))

pub queued :
    (safe pick_stop : Bool) (m : Message) (id : ℕ) (w : Sockets)
    → is_ready (w.heap id) ≡ true
    → has_room id w ≡ true
    → Socket.stop (w.heap id) ≡ opened
    → after_write m (write safe pick_stop m id w) ≡ (queue m id w, done (ok tt))
unfolding write after_write write_chosen select
queued safe pick_stop m id w ready room stop = rw (ready, room, ap is_closed stop) refl

module _ {V : Type 0} (env : Env V) where
  -- After `SendWithMagic` the message that `Marshal` filled is at the end of the queue of the
  -- socket and not released, with no error; or it is released, with an error, and no socket
  -- changes; or nothing changed, and the call waits or `Marshal` panicked.
  pub send_with_magic-Owned :
      (safe pick_stop : Bool) (magic flag : ℕ) (index : ℤ) (p : PathOrCode) (b : Payload V)
      (m : Message) (id : ℕ) (w : Sockets)
      → Owned
          (marshal env magic flag index p b m).0
          id
          w
          (send_with_magic env safe pick_stop magic flag index p b m id w)
  unfolding send_with_magic
  send_with_magic-Owned safe pick_stop magic flag index p b m id w =
      marshalled-Owned safe pick_stop (marshal env magic flag index p b m) id w

  -- With a capacity of at least four bytes and a registered magic number of path type, on a ready
  -- socket with an open channel and room in its queue, `SendWithMagic` with a message without a
  -- cached code, a path of 1 to 2^31 - 1 bytes and a body, which the binder encodes if it needs
  -- one, puts a message at the end of the queue and returns no error; that message reads back as
  -- the path, split at its first question mark, and the bytes of the body, under the head with the
  -- magic number, the flag, the index and the size.
  pub send_with_magic-ReadsBack :
      (mc : Magic) (safe pick_stop : Bool) (magic flag : ℕ) (index : ℤ) (p : Bytes) (b : Payload V)
      (m : Message) (body : Bytes) (id : ℕ) (w : Sockets)
      → 4 ≤ env.options.capacity
      → Magic.get env.magics magic ≡ some mc
      → mc.type ≡ magic_type_path
      → marshal_body env (record (m.head) { magic = magic; flag = flag; index = index }) b ≡ ok body
      → m.code ≡ pos 0
      → p ≢ []
      → length p < 2 ^ 31
      → is_ready (w.heap id) ≡ true
      → has_room id w ≡ true
      → Socket.stop (w.heap id) ≡ opened
      → (m' : Message) × (send_with_magic env safe pick_stop magic flag index (path p) b m id w
          ≡ (queue m' id w, done (ok tt)))
        × Returns
            (ReadsBack p body (marshalled_head mc magic flag index p body))
            (read_parts env m')
  unfolding send_with_magic
  send_with_magic-ReadsBack mc safe pick_stop magic flag index p b m body id w cap_ok known typed
        body_ok fresh nonempty short ready room stop =
      let r = marshal env magic flag index (path p) b m in
      let Q = ReadsBack p body (marshalled_head mc magic flag index p body) in
      let (m', u, e, q) =
        returned (λ s a. Returns Q (read_parts env s)) r
          (Returns-unbind Q r (λ a. read_parts env)
            (read_parts-marshal_path env mc magic flag index p b m body cap_ok known typed body_ok
              fresh nonempty short)) in
      (
        m',
        ap (λ x. send_marshalled safe pick_stop x id w) e
            ∙ unfold send_marshalled in queued safe pick_stop m' id w ready room stop,
        q,
      )
