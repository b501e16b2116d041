-- ===== src/Handler/Filtering.antt =====
-- A node that the default filter accepts, when its message comes.
use cosnet.Prelude.{
  ◌≡◌, refl, true, false, Option, none, some, List, [], ◌∷◌, arith, length, ◌⊎◌, inl, inr,
  Bool-cases, ◌∙◌,
}
use cosnet.Handler.{
  Context, Reply, Call, Node, Handler, is_some, default_filter, passes_filter, first_result,
  asserted, default_handle, handle,
}
use cosnet.Sockets.State.{Sockets}

-- The call gives a reply, and does not panic.
abbrev pub Answers : {V : Type 0} → Sockets × Option (Reply V) → Type 0
Answers {V} (w, r) = (v : Reply V) × (r ≡ some v)

-- The node is a function or a method, reflection returns as many values as the method has results,
-- and the node's own calls do not panic.
pub record IsSound {V : Type 0} (node : Node V) : Type 0 where
  pub kind : (node.is_func ≡ true) ⊎ (node.is_method ≡ true)
  pub method_answers :
      (f : Call V (Reply V)) → node.method ≡ some f → (c : Context) (w : Sockets) → Answers (f c w)
  pub caller_answers :
      (f : Call V (Reply V)) → node.caller ≡ some f → (c : Context) (w : Sockets) → Answers (f c w)
  pub call_returns :
      (c : Context) (w : Sockets)
      → (rs : List (Reply V)) × ((node.call c w).1 ≡ some rs) × (length rs ≡ node.num_out)

module _ {V : Type 0} where
  first_result-Answers :
      (r : Sockets × Option (List (Reply V))) (rs : List (Reply V))
      → r.1 ≡ some rs
      → length rs ≡ 1
      → Answers (first_result r)
  unfolding first_result
  first_result-Answers (w, some (r ∷ rs)) xs e one = (r, refl)
  first_result-Answers (w, some []) xs e one = absurd (ground (arith, e, one))
  first_result-Answers (w, none) xs e one = absurd (cc)

  asserted-Answers :
      (o : Option (Call V (Reply V))) (c : Context) (w : Sockets)
      → is_some o ≡ true
      → ((f : Call V (Reply V)) → o ≡ some f → (c : Context) (w : Sockets) → Answers (f c w))
      → Answers (asserted o c w)
  unfolding asserted
  asserted-Answers (some f) c w given answers = answers f refl c w
  asserted-Answers none c w given answers = absurd (cc)

  called-Answers :
      (o : Option (Call V (Reply V))) (node : Node V) (c : Context) (w : Sockets)
      → ((f : Call V (Reply V)) → o ≡ some f → (c : Context) (w : Sockets) → Answers (f c w))
      → Answers (first_result (node.call c w))
      → Answers {V = V} (elim o [ some f ↦ f c w | none ↦ first_result (node.call c w) ])
  called-Answers (some f) node c w answers direct = answers f refl c w
  called-Answers none node c w answers direct = direct

  default_handle-Answers :
      (node : Node V) (c : Context) (w : Sockets)
      → IsSound node
      → default_filter node ≡ true
      → Answers (default_handle node c w)
  unfolding default_handle default_filter
  default_handle-Answers node c w sound passes = elim (Bool-cases node.is_func) [
    | inl func ↦ rw func (asserted-Answers node.method c w (rw func at passes) sound.method_answers)
    | inr other ↦
        let (rs, returned, many) = sound.call_returns c w in
        rw other (
          called-Answers node.caller node c w sound.caller_answers
            (first_result-Answers (node.call c w) rs returned (many ∙ one other)))
  ]
    where
      one : node.is_func ≡ false → node.num_out ≡ 1
      one other = ground (arith, other, passes, sound.kind)

  -- A handler without a filter and a caller of its own gets a reply from every node that `Filter`
  -- accepts, if it is a function or a method, reflection returns as many values as it has results,
  -- and its own calls do not panic (see `IsSound`): neither the assertion of the function's type
  -- nor the access to the first result of the reflected call panics.
  pub handle-Answers :
      (h : Handler V) (node : Node V) (c : Context) (w : Sockets)
      → h.filter ≡ none
      → h.caller ≡ none
      → IsSound node
      → passes_filter h node ≡ true
      → Answers (handle h node c w)
  unfolding handle passes_filter
  handle-Answers h node c w unfiltered plain sound passes =
      rw plain (default_handle-Answers node c w sound (rw unfiltered at passes))
