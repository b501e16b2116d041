-- ===== src/Sockets/Events.antt =====
-- sockets.go: `On`, `Emit` and `Errorf`, with the functions that the program registers for events.
use cosnet.Prelude.{◌≡◌, ◌≢◌, refl, ap, ◌∙◌, Bool, true, false, List, [], ◌∷◌, ◌++◌}
use cosnet.Config.{EventType, event_error}
use cosnet.Sockets.State.{Attached}

pub EventType-discrete : Discrete EventType
EventType-discrete = hlevel

-- `EventsFunc` on a state of the program: the state it leaves, and whether it returned; else it
-- panicked.
abbrev pub EventsFunc : Type 0 → Type 0
EventsFunc S = Attached → S → S × Bool

module _ {S : Type 0} where
  -- `On(e, f)`
  unfoldable pub on :
      EventType → EventsFunc S → (EventType → List (EventsFunc S)) → EventType → List (EventsFunc S)
  on e f emitter e' = elim (EventType-discrete e e') [
    | yes same ↦ emitter e' ++ (f ∷ [])
    | no other ↦ emitter e'
  ]

  abbrev pub called : (S → S × Bool) → S × Bool → S × Bool
  called next (s, true) = next s
  called next (s, false) = (s, false)

  -- The loop of `Emit`: the functions run in order, and a panic goes to the caller.
  unfoldable pub call_all : List (EventsFunc S) → Attached → S → S × Bool
  call_all [] v s = (s, true)
  call_all (f ∷ fs) v s = called (call_all fs v) (f v s)

  -- `Emit(e, s, attach...)`
  unfoldable pub emit_to : (EventType → List (EventsFunc S)) → EventType → Attached → S → S × Bool
  emit_to emitter e v s = call_all (emitter e) v s

  -- `Errorf`, which recovers.
  unfoldable pub errorf : (EventType → List (EventsFunc S)) → Attached → S → S
  errorf emitter v s = (emit_to emitter event_error v s).0

  called_twice :
      (next then' last : S → S × Bool) (r : S × Bool)
      → ((s : S) → next s ≡ called last (then' s))
      → called next r ≡ called last (called then' r)
  called_twice next then' last (s, true) same = same s
  called_twice next then' last (s, false) same = refl

  call_all-append :
      (fs gs : List (EventsFunc S)) (v : Attached) (s : S)
      → call_all (fs ++ gs) v s ≡ called (call_all gs v) (call_all fs v s)
  unfolding call_all
  call_all-append [] gs v s = refl
  call_all-append (f ∷ fs) gs v s =
      called_twice (call_all (fs ++ gs) v) (call_all fs v) (call_all gs v) (f v s)
        (λ s'. call_all-append fs gs v s')

  on_at :
      (e : EventType) (f : EventsFunc S) (emitter : EventType → List (EventsFunc S))
      → on e f emitter e ≡ emitter e ++ (f ∷ [])
  unfolding on
  on_at e f emitter =
      elim (EventType-discrete e e)
        as (λ d.
          elim d [ yes same ↦ emitter e ++ (f ∷ []) | no other ↦ emitter e ]
          ≡ emitter e ++ (f ∷ [])) [ yes same ↦ refl | no other ↦ absurd (other refl) ]

  on_off :
      (e e' : EventType) (f : EventsFunc S) (emitter : EventType → List (EventsFunc S))
      → e ≢ e'
      → on e f emitter e' ≡ emitter e'
  unfolding on
  on_off e e' f emitter away =
      elim (EventType-discrete e e')
        as (λ d.
          elim d [ yes same ↦ emitter e' ++ (f ∷ []) | no other ↦ emitter e' ] ≡ emitter e') [
            | yes same ↦ absurd (away same)
            | no other ↦ refl
          ]

  -- A function that is registered for an event runs at it behind those that were there before, if
  -- none of them panics, and at no other event.
  pub emit_to-on :
      (e e' : EventType) (f : EventsFunc S) (emitter : EventType → List (EventsFunc S))
      (v : Attached) (s : S)
      → (emit_to (on e f emitter) e v s ≡ called (call_all (f ∷ []) v) (emit_to emitter e v s))
        × (e ≢ e' → emit_to (on e f emitter) e' v s ≡ emit_to emitter e' v s)
  unfolding emit_to
  emit_to-on e e' f emitter v s = (
    ap (λ fs. call_all fs v s) (on_at e f emitter) ∙ call_all-append (emitter e) (f ∷ []) v s,
    λ away. ap (λ fs. call_all fs v s) (on_off e e' f emitter away),
  )
