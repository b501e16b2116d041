-- ===== src/Wss/Conn/Listening.antt =====
-- The connections of a WebSocket listener, from their requests to `Accept`.
use cosnet.Prelude.{
  ℕ, ◌+◌, ◌≤◌, ◌≡◌, refl, ap, sym, subst, ◌∙◌, true, false, ◌&&◌, not, Bool-cases, inl, inr, List,
  [], ◌∷◌, ◌++◌, append_assoc, append-nil, Result, ok, err, panic, length, length-append, ltb,
  if◌then◌else◌, arith,
}
use cosnet.Prelude.Bytes.{Bytes}
use cosnet.Message.Read.{is_empty}
use cosnet.Sockets.Serving.{same_bytes}
use cosnet.Wss.Conn.{Listener, routed_listener, accept, answer, upgraded, serve_http}
use cosnet.Wss.Conn.Requests.{
  Event, requests, accepts, took, happens, all_happen, is_route, upgrades, Interleaves, neither,
  first_last, second_last, Accounted,
}

upgraded-Accounted :
    (route : Bytes) (size conn : ℕ) (seen taken : List ℕ) (ln : Listener)
    → Accounted route size seen (ln, taken)
    → Accounted route size (seen ++ (conn ∷ [])) (upgraded (ok conn) ln, taken)
unfolding upgraded
upgraded-Accounted route size conn seen taken ln (all, bound, routed, sized) =
    elim (Bool-cases (ltb (length ln.conn_chan) ln.conn_chan_size)) [
      | inl room ↦ rw room (
        subst (λ xs. Interleaves xs ln.hung_up (seen ++ (conn ∷ [])))
            (append_assoc taken ln.conn_chan (conn ∷ [])) (first_last conn all),
        (let below : length ln.conn_chan + 1 ≤ size = ground arith in
            omega (arith, below, length-append ln.conn_chan (conn ∷ []))),
        routed,
        sized,
      )
      | inr full ↦ rw full (second_last conn all, bound, routed, sized)
    ]

accept-Accounted :
    (route : Bytes) (size : ℕ) (seen taken waiting : List ℕ) (ln : Listener)
    → ln.conn_chan ≡ waiting
    → Accounted route size seen (ln, taken)
    → Accounted route size seen (took taken (accept waiting ln))
unfolding accept
accept-Accounted route size seen taken [] ln e h = h
accept-Accounted route size seen taken (conn ∷ rest) ln e (all, bound, routed, sized) = (
  subst (λ xs. Interleaves xs ln.hung_up seen)
      (ap (λ q. taken ++ q) e ∙ sym (append_assoc taken (conn ∷ []) rest)) all,
  omega (arith, ap length e),
  routed,
  sized,
)

answered :
    (route : Bytes) (size status : ℕ) (seen taken : List ℕ) (ln : Listener)
    → Accounted route size seen (ln, taken)
    → Accounted route size seen (answer status ln, taken)
answered route size status seen taken ln h = h

-- A request that is not stopped.
serve-Accounted :
    (route path : Bytes) (size : ℕ) (result : Result ℕ) (seen taken : List ℕ) (ln : Listener)
    → Accounted route size seen (ln, taken)
    → Accounted route size
        (seen ++ upgrades route (requests false path result ∷ []))
        (serve_http false path result ln, taken)
unfolding serve_http upgrades
serve-Accounted route path size result seen taken ln h =
    elim (Bool-cases (not (is_empty ln.route) && not (same_bytes path ln.route))) [
      | inl other ↦ missed result other
      | inr same ↦ reached result same
    ]
  where
    missed :
        (result : Result ℕ)
        → (not (is_empty ln.route) && not (same_bytes path ln.route)) ≡ true
        → Accounted route size (seen ++ upgrades route (requests false path result ∷ [])) (
          if not (is_empty ln.route) && not (same_bytes path ln.route)
              then answer 404 ln
              else upgraded result ln,
          taken,
        )
    missed (ok conn) e =
        let off : is_route route path ≡ false = ap (λ r. is_route r path) (sym h.2) ∙ ap not e in
        rw (e, off, append-nil seen) h
    missed (err x) e = rw (e, append-nil seen) h
    missed panic e = rw (e, append-nil seen) h

    reached :
        (result : Result ℕ)
        → (not (is_empty ln.route) && not (same_bytes path ln.route)) ≡ false
        → Accounted route size (seen ++ upgrades route (requests false path result ∷ [])) (
          if not (is_empty ln.route) && not (same_bytes path ln.route)
              then answer 404 ln
              else upgraded result ln,
          taken,
        )
    reached (ok conn) e =
        let on : is_route route path ≡ true = ap (λ r. is_route r path) (sym h.2) ∙ ap not e in
        rw (e, on) (upgraded-Accounted route size conn seen taken ln h)
    reached (err x) e = rw (e, append-nil seen) (unfold upgraded in h)
    reached panic e = rw (e, append-nil seen) (unfold upgraded in h)

upgrades-cons :
    (route : Bytes) (e : Event) (es : List Event)
    → upgrades route (e ∷ es) ≡ upgrades route (e ∷ []) ++ upgrades route es
unfolding upgrades
upgrades-cons route (requests false path (ok conn)) es = elim (Bool-cases (is_route route path)) [
  | inl on ↦ rw on refl
  | inr off ↦ rw off refl
]
upgrades-cons route (requests false path (err x)) es = refl
upgrades-cons route (requests false path panic) es = refl
upgrades-cons route (requests true path (ok conn)) es = refl
upgrades-cons route (requests true path (err x)) es = refl
upgrades-cons route (requests true path panic) es = refl
upgrades-cons route accepts es = refl

happens-Accounted :
    (route : Bytes) (size : ℕ) (e : Event) (seen taken : List ℕ) (ln : Listener)
    → Accounted route size seen (ln, taken)
    → Accounted route size (seen ++ upgrades route (e ∷ [])) (happens e (ln, taken))
unfolding happens upgrades serve_http
happens-Accounted route size (requests false path result) seen taken ln h =
    serve-Accounted route path size result seen taken ln h
happens-Accounted route size (requests true path (ok conn)) seen taken ln h = rw (append-nil seen) h
happens-Accounted route size (requests true path (err x)) seen taken ln h = rw (append-nil seen) h
happens-Accounted route size (requests true path panic) seen taken ln h = rw (append-nil seen) h
happens-Accounted route size accepts seen taken ln h =
    rw (append-nil seen) (accept-Accounted route size seen taken ln.conn_chan ln refl h)

all_happen-Accounted :
    (route : Bytes) (size : ℕ) (es : List Event) (seen : List ℕ) (s : Listener × List ℕ)
    → Accounted route size seen s
    → Accounted route size (seen ++ upgrades route es) (all_happen es s)
unfolding all_happen
all_happen-Accounted route size [] seen s h = unfold upgrades in rw (append-nil seen) h
all_happen-Accounted route size (e ∷ es) seen (ln, taken) h =
    rw
      (
        upgrades-cons route e es,
        sym (append_assoc seen (upgrades route (e ∷ [])) (upgrades route es)),
      )
      (all_happen-Accounted route size es (seen ++ upgrades route (e ∷ [])) (happens e (ln, taken))
        (happens-Accounted route size e seen taken ln h))

-- Whatever requests come to a new WebSocket listener and whenever `Accept` is called: every
-- connection that was upgraded for a request to the listener's route, or to any path where it has
-- none, before the program stops, has been returned by `Accept`, waits in the channel, or was closed,
-- and each only once; those that were returned and that wait are so in the order of their requests;
-- and no more wait than the channel has room for.
pub all_happen-routed_listener :
    (route : Bytes) (size : ℕ) (es : List Event)
    → Accounted route size (upgrades route es) (all_happen es (routed_listener route size, []))
unfolding routed_listener
all_happen-routed_listener route size es =
    all_happen-Accounted route size es [] (routed_listener route size, [])
      (neither, omega arith, refl, refl)
