-- ===== src/Handler.antt =====
-- handler.go and context.go: how a message finds its method, and how the answer goes out.
pub mod Answers
pub mod Filtering
pub mod Incoming
use cosnet.Prelude.{
  ℕ, Bool, true, false, ◌&&◌, ◌||◌, Option, none, some, List, [], ◌∷◌, Error, Result, ok, err,
  panic, ◌==◌, if◌then◌else◌, Method,
}
use cosnet.Prelude.Int.{ℤ}
use cosnet.Prelude.Bytes.{Bytes}
use cosnet.Config.{EventType, event_error, event_message}
use cosnet.Message.Flag
use cosnet.Message.Flag.{flag_confirm, flag_noreply, flag_heartbeat}
use cosnet.Message.Magic.{Magic, BinderName}
use cosnet.Message.Env.{Env}
use cosnet.Message.Head
use cosnet.Message.Object.{Message, path, raw}
use cosnet.Message.Read.{path_of, confirm, unmarshal}
use cosnet.Sockets.State.{Sockets, Attached, nothing, error, recovered, emit}
use cosnet.Sockets.Sending.{Outcome, done, waits, send_with_magic}

-- `Context`: the socket, by its id, and the message.
pub record Context : Type 0 where
  pub socket : ℕ
  pub message : Message

-- What a method returns: a byte slice, a pointer to one, or another value.
pub data Reply (V : Type 0) : Type 0 where
  bytes : Bytes → Reply V
  pointer : Option Bytes → Reply V
  value : V → Reply V

-- A method of the program, which may do anything to the manager; `none` where it panics.
abbrev pub Call : Type 0 → Type 0 → Type 0
Call V A = Context → Sockets → Sockets × Option A

-- `registry.Node` as the handler asks it. `method` is the function of a function node if it has the
-- type `func(*Context) any`, `caller` is the binder's `Caller` if it has one, and `call` reflects.
pub record Node (V : Type 0) : Type 0 where
  pub is_func : Bool
  pub is_method : Bool
  pub num_in : ℕ
  pub num_out : ℕ
  pub method : Option (Call V (Reply V))
  pub caller : Option (Call V (Reply V))
  pub call : Call V (List (Reply V))

pub record Handler (V : Type 0) : Type 0 where
  pub filter : Option (Node V → Bool)
  pub caller : Option (Node V → Call V (Reply V))
  pub serialize : Option (Context → Reply V → Result Bytes)

abbrev pub is_some {ℓ} : {A : Type ℓ} → Option A → Bool
is_some none = false
is_some (some a) = true

module _ {V : Type 0} where
  -- `SetCaller`, `SetFilter`, `SetSerialize`
  unfoldable pub set_caller : (Node V → Call V (Reply V)) → Handler V → Handler V
  set_caller f h = record h { caller = some f }

  unfoldable pub set_filter : (Node V → Bool) → Handler V → Handler V
  set_filter f h = record h { filter = some f }

  unfoldable pub set_serialize : (Context → Reply V → Result Bytes) → Handler V → Handler V
  set_serialize f h = record h { serialize = some f }

  -- `Filter(node)` where no filter is set.
  unfoldable pub default_filter : Node V → Bool
  default_filter node =
      if node.is_func
      then is_some node.method
      else if node.is_method
      then node.num_in == 2 && node.num_out == 1
      else true

  -- `Filter(node)`
  unfoldable pub passes_filter : Handler V → Node V → Bool
  passes_filter h node = elim h.filter [ some f ↦ f node | none ↦ default_filter node ]

  -- `r[0]`
  unfoldable pub first_result : Sockets × Option (List (Reply V)) → Sockets × Option (Reply V)
  first_result (w, some (r ∷ rs)) = (w, some r)
  first_result (w, some []) = (w, none)
  first_result (w, none) = (w, none)

  -- A type assertion that fails panics.
  unfoldable pub asserted : Option (Call V (Reply V)) → Call V (Reply V)
  asserted (some f) c w = f c w
  asserted none c w = (w, none)

  unfoldable pub default_handle : Node V → Call V (Reply V)
  default_handle node c w =
      if node.is_func
      then asserted node.method c w
      else elim node.caller [ some f ↦ f c w | none ↦ first_result (node.call c w) ]

  -- `handle(node, c)`
  unfoldable pub handle : Handler V → Node V → Call V (Reply V)
  handle h node c w = elim h.caller [ some f ↦ f node c w | none ↦ default_handle node c w ]

-- A confirmation, and a heartbeat where the message is one.
unfoldable pub reply_flag : ℕ → ℕ
reply_flag flag =
    if Flag.has flag flag_heartbeat then Flag.set flag_confirm flag_heartbeat else flag_confirm

unfoldable pub wants_reply : ℕ → Bool
wants_reply flag = if Flag.has flag flag_confirm || Flag.has flag flag_noreply then false else true

-- `binder_marshal` is the binders' `Marshal`, and `fresh` the message that `Require` gives.
module _ {V : Type 0} (env : Env V) (binder_marshal : BinderName → Reply V → Result Bytes) where
  -- `defaultSerialize(c, reply)`; a nil binder panics.
  unfoldable pub default_serialize : Context → Reply V → Result Bytes
  default_serialize c r = elim (Head.binder env c.message.head) [
    | none ↦ panic
    | some b ↦ binder_marshal b r
  ]

  -- The `switch` of `reply`: the bytes that are sent.
  unfoldable pub reply_bytes : Handler V → Context → Reply V → Result Bytes
  reply_bytes h c (bytes b) = ok b
  reply_bytes h c (pointer (some b)) = ok b
  reply_bytes h c (pointer none) = panic
  reply_bytes h c (value v) = elim h.serialize [
    | some f ↦ f c (value v)
    | none ↦ default_serialize c (value v)
  ]

  -- `SendWithMagic` of the reply, on the path that `Confirm` gave; the key of a nil magic panics.
  unfoldable pub send_reply :
      Bool → Message → Context → Option Magic → Bytes → Result Bytes → Sockets → Sockets × Outcome
  send_reply pick_stop fresh c (some magic) p (ok b) w =
      send_with_magic env true pick_stop magic.key (reply_flag c.message.head.flag)
        c.message.head.index (path p) (raw b) fresh c.socket w
  send_reply pick_stop fresh c none p (ok b) w = (w, done panic)
  send_reply pick_stop fresh c magic p (err e) w = (w, done (err e))
  send_reply pick_stop fresh c magic p panic w = (w, done panic)

  -- `Confirm` has returned, and may have cached the code of the message.
  unfoldable pub reply_confirmed :
      Bool
      → Message
      → Handler V
      → ℕ
      → Reply V
      → Message × Result Bytes
      → Sockets
      → Sockets × Outcome
  reply_confirmed pick_stop fresh h id r (m, ok p) w =
      let c : Context = record { socket = id; message = m } in
      send_reply pick_stop fresh c (Head.magic_of env m.head) p (reply_bytes h c r) w
  reply_confirmed pick_stop fresh h id r (m, err e) w = (w, done (err e))
  reply_confirmed pick_stop fresh h id r (m, panic) w = (w, done panic)

  -- `reply(c, reply)`
  unfoldable pub reply :
      Bool → Message → Handler V → Context → Reply V → Sockets → Sockets × Outcome
  reply pick_stop fresh h c r w =
      if wants_reply c.message.head.flag
      then reply_confirmed pick_stop fresh h c.socket r (confirm env c.message) w
      else (w, done (ok tt))

-- `Path` and `Bind` of a context are those of its message; `Write` is the socket's.
module _ {V : Type 0} (env : Env V) where
  unfoldable pub context_path : Method Context (Bytes × Bytes)
  context_path c = let (m, r) = path_of env c.message in (record c { message = m }, r)

  unfoldable pub bind : Method Context V
  bind c = let (m, r) = unmarshal env c.message in (record c { message = m }, r)
