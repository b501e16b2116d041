-- ===== src/Sockets/Race/Exclusive.antt =====
-- Only one goroutine at a time ends the connection of a socket.
use cosnet.Prelude.{
  ℕ, ◌≡◌, refl, ap, sym, ◌∙◌, Bool, true, false, ◌==◌, ◌&&◌, if◌then◌else◌, arith, Bool-cases, inl,
  inr, eq→==, ==→eq,
}
use cosnet.Sockets.State.{
  Status, status_disconnect, status_disconnected, status_reconnecting, status_released, Stop,
  opened, closed,
}
use cosnet.Sockets.Lifecycle.{is_valid_status}
use cosnet.Sockets.Race.{
  Status-discrete, Place, outside, won, stopped, hung, leaving, dialing, dialled, seen, Shared,
  move, at, swap,
}

-- Whether a goroutine is past the compare-and-swap.
unfoldable pub ending : Place → Bool
ending outside = false
ending (seen s) = false
ending _ = true

-- Whether the place of a goroutine agrees with the status and the channel.
unfoldable pub fits : Place → Status → Stop → Bool
fits outside status stop = true
fits (seen s) status stop = is_valid_status s
fits won status_disconnect opened = true
fits stopped status_disconnect closed = true
fits hung status_disconnect closed = true
fits leaving status_disconnected closed = true
fits dialing status_reconnecting closed = true
fits dialled status_reconnecting opened = true
fits _ _ _ = false

abbrev pub release_count : Status → ℕ
release_count status_released = 1
release_count _ = 0

pub record Exclusive (w : Shared) : Type 0 where
  pub all_fit : (i : ℕ) → fits (w.places i) w.status w.stop ≡ true
  pub single : (i j : ℕ) → ending (w.places i) ≡ true → ending (w.places j) ≡ true → i ≡ j
  pub open_if_valid : is_valid_status w.status ≡ true → w.stop ≡ opened
  pub released_once : w.releases ≡ release_count w.status
  pub no_panic : w.panicked ≡ false

pub fits_calm :
    (p : Place) (s s' : Status) (c c' : Stop)
    → ending p ≡ false
    → fits p s c ≡ true
    → fits p s' c' ≡ true
unfolding fits ending
fits_calm outside s s' c c' calm fit = refl
fits_calm (seen t) s s' c c' calm fit = fit
fits_calm p s s' c c' calm fit = absurd (cc)

pub calm_if_valid :
    (p : Place) (s : Status) (c : Stop)
    → fits p s c ≡ true
    → is_valid_status s ≡ true
    → ending p ≡ false
unfolding fits ending is_valid_status
calm_if_valid p s c fit valid = ground arith

valid_unreleased : (s : Status) → is_valid_status s ≡ true → release_count s ≡ 0
unfolding is_valid_status
valid_unreleased s valid = ground arith

pub either-Exclusive :
    (t : Bool) (x y : Shared)
    → (t ≡ true → Exclusive x)
    → (t ≡ false → Exclusive y)
    → Exclusive (if t then x else y)
either-Exclusive true x y hx hy = hx refl
either-Exclusive false x y hx hy = hy refl

-- An ending goroutine is at its place only with one status and one state of the channel.
pub fits_inv :
    (p : Place) (s : Status) (c : Stop) (s' : Status) (c' : Stop)
    → fits p s c && ending p ≡ true
    → fits p s' c' ≡ true
    → (s' ≡ s) × (c' ≡ c)
unfolding fits ending
fits_inv p s c s' c' fit fit' = (ground arith, ground arith)

-- The access of a goroutine that leaves no other one ending.
alone :
    (w w' : Shared) (i : ℕ)
    → Exclusive w
    → ((j : ℕ) → (i == j) ≡ false → w'.places j ≡ w.places j)
    → ((j : ℕ) → (i == j) ≡ false → ending (w.places j) ≡ false)
    → fits (w'.places i) w'.status w'.stop ≡ true
    → (is_valid_status w'.status ≡ true → w'.stop ≡ opened)
    → w'.releases ≡ release_count w'.status
    → w'.panicked ≡ false
    → Exclusive w'
alone w w' i h same calm fit valid once safe = record {
  all_fit = λ j. elim (Bool-cases (i == j)) [
    | inl e ↦ ap (λ k. fits (w'.places k) w'.status w'.stop) (sym (==→eq i j e)) ∙ fit
    | inr e ↦
        ap (λ p. fits p w'.status w'.stop) (same j e)
        ∙ fits_calm (w.places j) w.status w'.status w.stop w'.stop (calm j e) (h.all_fit j)
  ];
  single = λ j k ej ek. sym (here j ej) ∙ here k ek;
  open_if_valid = valid;
  released_once = once;
  no_panic = safe;
}
  where
    here : (j : ℕ) → ending (w'.places j) ≡ true → i ≡ j
    here j ej = elim (Bool-cases (i == j)) [
      | inl e ↦ ==→eq i j e
      | inr e ↦ absurd (ground (arith, ej, ap ending (same j e), calm j e))
    ]

-- A goroutine that stays outside or sees a status.
pub beside :
    (w : Shared) (i : ℕ) (p : Place)
    → Exclusive w
    → ending p ≡ false
    → fits p w.status w.stop ≡ true
    → Exclusive (at i p w)
beside w i p h calm fit = record {
  all_fit = λ j. elim (Bool-cases (i == j)) [ inl e ↦ rw e fit | inr e ↦ rw e (h.all_fit j) ];
  single = λ j k ej ek. ground (arith, ej, ek, calm, h.single j k);
  open_if_valid = h.open_if_valid;
  released_once = h.released_once;
  no_panic = h.no_panic;
}

moved : (i : ℕ) (p : Place) (places : ℕ → Place) → move i p places i ≡ p
moved i p places = rw (eq→== i i refl) refl

moved_off :
    (i : ℕ) (p : Place) (places : ℕ → Place) (j : ℕ)
    → (i == j) ≡ false
    → move i p places j ≡ places j
moved_off i p places j e = rw e refl

module _ (w : Shared) (h : Exclusive w) (i : ℕ) where
  -- The goroutine is the one that ends, and the others do not.
  others_calm :
      ending (w.places i) ≡ true → (j : ℕ) → (i == j) ≡ false → ending (w.places j) ≡ false
  others_calm mine j away = elim (Bool-cases (ending (w.places j))) [
    | inl e ↦ absurd (ground (arith, away, h.single i j mine e))
    | inr e ↦ e
  ]

  -- Its next access.
  pub owned :
      (p : Place) (status : Status) (stop : Stop) (hangups releases : ℕ)
      → ending (w.places i) ≡ true
      → fits p status stop ≡ true
      → (is_valid_status status ≡ true → stop ≡ opened)
      → releases ≡ release_count status
      → Exclusive (
          at i p
            (record w { status = status; stop = stop; hangups = hangups; releases = releases }))
  owned p status stop hangups releases mine fit valid once =
      alone w
        (at i p (record w { status = status; stop = stop; hangups = hangups; releases = releases }))
        i h (moved_off i p w.places) (others_calm mine)
        (ap (λ q. fits q status stop) (moved i p w.places) ∙ fit) valid once h.no_panic

  pub placed : (p : Place) → w.places i ≡ p → fits p w.status w.stop ≡ true
  placed p here = ap (λ q. fits q w.status w.stop) (sym here) ∙ h.all_fit i

  pub mine : (p : Place) → w.places i ≡ p → ending p ≡ true → ending (w.places i) ≡ true
  mine p here e = ap ending here ∙ e

  pub swap-Exclusive : (s : Status) → is_valid_status s ≡ true → Exclusive (swap s i w)
  unfolding swap ending fits is_valid_status
  swap-Exclusive s valid =
      elim (Status-discrete s w.status)
        as (λ d. Exclusive (elim d [
          | yes e ↦ at i won (record w { status = status_disconnect })
          | no e ↦ at i outside w
        ])) [
          | yes e ↦
              let still : is_valid_status w.status ≡ true = ap is_valid_status (sym e) ∙ valid in
              alone w (at i won (record w { status = status_disconnect })) i h
                (moved_off i won w.places)
                (λ j away. calm_if_valid (w.places j) w.status w.stop (h.all_fit j) still)
                (ap (λ q. fits q status_disconnect w.stop) (moved i won w.places)
                  ∙ ap (fits won status_disconnect) (h.open_if_valid still))
                (λ impossible. absurd (cc)) (h.released_once ∙ valid_unreleased w.status still)
                h.no_panic
          | no e ↦ beside w i outside h refl refl
        ]
