-- ===== src/Prelude/Results.antt =====
-- Go's error values and the result of a method that changes its receiver.
use Prim.Native.Nat.{ℕ}
use mathlib.Core.Path.{◌≡◌, refl}

-- One constructor for each error value or message of the source; `external` is an error that code
-- outside the repository returns.
pub data Error : Type 0 where
  eof unexpected_eof short_buffer err_closed : Error
  msg_head_illegal msg_data_size_too_long msg_head_not_set_transform : Error
  magic_not_exist : ℕ → Error
  unsupported_path_type no_binder : Error
  empty_packet missing_comma missing_slash missing_dash invalid_ack_id invalid_attachments : Error
  listener_closed conn_chan_full not_implemented unsupported_frame tls_required unknown_scheme :
      Error
  server_closed max_connections not_ready socket_closed write_chan_full : Error
  max_retry_reached context_done : Error
  read_head read_body send_marshal send_write : Error → Error
  external : ℕ → Error

-- `panic` is a run-time panic: a nil dereference, a slice out of range, a closed channel.
pub data Result {ℓ} (A : Type ℓ) : Type ℓ where
  ok : A → Result A
  err : Error → Result A
  panic : Result A

-- A method on a receiver of type `S`: whatever the result, the receiver is what the code left.
abbrev pub Method {ℓ κ} : Type ℓ → Type κ → Type (ℓ ⊔ κ)
Method S A = S → S × Result A

module _ {ℓ κ} {S : Type ℓ} {A : Type κ} where
  abbrev pub pure : A → Method S A
  pure a s = (s, ok a)

  abbrev pub throw : Error → Method S A
  throw e s = (s, err e)

  -- A call that does not change the receiver.
  abbrev pub lift : Result A → Method S A
  lift r s = (s, r)

  abbrev pub continue {μ} : {B : Type μ} → (A → Method S B) → S × Result A → S × Result B
  continue f (s, ok a) = f a s
  continue f (s, err e) = (s, err e)
  continue f (s, panic) = (s, panic)

infixl 5 ◌>>=◌ ◌>>◌
abbrev pub ◌>>=◌ {ℓ κ μ} :
    {S : Type ℓ} {A : Type κ} {B : Type μ} → Method S A → (A → Method S B) → Method S B
◌>>=◌ m f s = continue f (m s)

abbrev pub ◌>>◌ {ℓ κ μ} :
    {S : Type ℓ} {A : Type κ} {B : Type μ} → Method S A → Method S B → Method S B
m >> k = m >>= λ _. k

-- The call comes to an end with a value, and state and value satisfy `P`.
abbrev pub Returns {ℓ κ} : {S : Type ℓ} {A : Type κ} → (S → A → Type 0) → S × Result A → Type 0
Returns P (s, ok a) = P s a
Returns P (s, err e) = ⊥
Returns P (s, panic) = ⊥

module _ {ℓ κ} {S : Type ℓ} {A : Type κ} where
  pub Returns-bind {μ} :
      {B : Type μ} (P : S → A → Type 0) (Q : S → B → Type 0) (r : S × Result A) (f : A → Method S B)
      → Returns P r
      → ((s : S) (a : A) → P s a → Returns Q (f a s))
      → Returns Q (continue f r)
  Returns-bind P Q (s, ok a) f h k = k s a h
  Returns-bind P Q (s, err e) f h k = elim h [ ]
  Returns-bind P Q (s, panic) f h k = elim h [ ]

  pub Returns-mono :
      (P Q : S → A → Type 0) (r : S × Result A)
      → Returns P r
      → ((s : S) (a : A) → P s a → Q s a)
      → Returns Q r
  Returns-mono P Q (s, ok a) h k = k s a h
  Returns-mono P Q (s, err e) h k = elim h [ ]
  Returns-mono P Q (s, panic) h k = elim h [ ]

  -- What a sequence returns, its second part returns after the first.
  pub Returns-unbind {μ} :
      {B : Type μ} (Q : S → B → Type 0) (r : S × Result A) (f : A → Method S B)
      → Returns Q (continue f r)
      → Returns (λ s a. Returns Q (f a s)) r
  Returns-unbind Q (s, ok a) f h = h
  Returns-unbind Q (s, err e) f h = h
  Returns-unbind Q (s, panic) f h = h

  -- A call that comes to an end with a value has that value.
  pub returned :
      (Q : S → A → Type 0) (r : S × Result A)
      → Returns Q r
      → (s : S) × (a : A) × (r ≡ (s, ok a)) × Q s a
  returned Q (s, ok a) h = (s, a, refl, h)
  returned Q (s, err e) h = elim h [ ]
  returned Q (s, panic) h = elim h [ ]
