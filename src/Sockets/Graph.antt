-- ===== src/Sockets/Graph.antt =====
-- The statuses that a socket goes through: every method of the manager follows the edges of one graph.
pub mod Steps
pub mod Paths
use cosnet.Prelude.{
  ℕ, ◌≡◌, refl, ap, ◌∙◌, true, false, ◌==◌, arith, Bool-cases, inl, inr, some, none,
}
use cosnet.Prelude.{Option}
use cosnet.Sockets.State.{
  status_connected, status_closing, status_reconnecting, status_released, Socket, Sockets,
}
use cosnet.Sockets.Lifecycle.{is_valid_status, is_client}
use cosnet.Sockets.Frame.{Others}

-- From a socket before a method to the socket after it.
pub data Moves (s t : Socket) : Type 0 where
  stays : t.status ≡ s.status → Moves s t
  closes : s.status ≡ status_connected → t.status ≡ status_closing → Moves s t
  parks :
      is_valid_status s.status ≡ true
      → is_client s ≡ true
      → t.status ≡ status_reconnecting
      → Moves s t
  ends :
      is_valid_status s.status ≡ true → is_client s ≡ false → t.status ≡ status_released → Moves s t
  resumes : s.status ≡ status_reconnecting → t.status ≡ status_connected → Moves s t
  gives_up : s.status ≡ status_reconnecting → t.status ≡ status_released → Moves s t

-- A change before the edge that leaves the status and the type.
pub Moves-after :
    (s s' t : Socket) → s'.status ≡ s.status → is_client s' ≡ is_client s → Moves s' t → Moves s t
Moves-after s s' t same kind (stays e) = stays (e ∙ same)
Moves-after s s' t same kind (closes e f) = closes (ground (arith, e, same)) f
Moves-after s s' t same kind (parks v c e) = parks (rw (← same) v) (rw (← kind) c) e
Moves-after s s' t same kind (ends v c e) = ends (rw (← same) v) (rw (← kind) c) e
Moves-after s s' t same kind (resumes e f) = resumes (ground (arith, e, same)) f
Moves-after s s' t same kind (gives_up e f) = gives_up (ground (arith, e, same)) f

-- A change after the edge that leaves the status.
pub Moves-before : (s t t' : Socket) → t'.status ≡ t.status → Moves s t → Moves s t'
Moves-before s t t' same (stays e) = stays (same ∙ e)
Moves-before s t t' same (closes e f) = closes e (same ∙ f)
Moves-before s t t' same (parks v c e) = parks v c (same ∙ e)
Moves-before s t t' same (ends v c e) = ends v c (same ∙ e)
Moves-before s t t' same (resumes e f) = resumes e (same ∙ f)
Moves-before s t t' same (gives_up e f) = gives_up e (same ∙ f)

-- Only the socket `id` moves.
pub Moves-one :
    (id : ℕ) (w w' : Sockets)
    → Others id w w'
    → Moves (w.heap id) (w'.heap id)
    → (i : ℕ) → Moves (w.heap i) (w'.heap i)
Moves-one id w w' others moved i = elim (Bool-cases (id == i)) [
  | inl e ↦ (let same : id ≡ i = ground arith in rw (← same) moved)
  | inr e ↦ stays (ap Socket.status (others i e))
]

-- A socket that has ended stays where it is.
pub Moves_released :
    (s t : Socket) → s.status ≡ status_released → Moves s t → t.status ≡ status_released
unfolding is_valid_status
Moves_released s t e (stays f) = f ∙ e
Moves_released s t e (closes f g) = ground (arith, e, f)
Moves_released s t e (parks v c f) = absurd (ground (arith, e, v))
Moves_released s t e (ends v c f) = f
Moves_released s t e (resumes f g) = ground (arith, e, f)
Moves_released s t e (gives_up f g) = g
