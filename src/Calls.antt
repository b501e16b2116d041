-- ===== src/Calls.antt =====
-- A call over TCP: a request from a client's socket, the method at the server, and the answer.
pub mod Carried
pub mod Answered
pub mod Queued
pub mod Pipelined
pub mod Exchanged
use cosnet.Prelude.{
  ℕ, Option, ok, ◌^◌, ◌<◌, ◌≡◌, ◌≢◌, Bool, true, false, some, [], ◌++◌, length, if◌then◌else◌,
}
use cosnet.Prelude.Int.{ℤ, pos, IsInt32, ltb_ℤ}
use cosnet.Prelude.Bytes.{Bytes}
use cosnet.Message.Flag.{flag_compressed, flag_heartbeat}
use cosnet.Message.Flag
use cosnet.Message.Magic.{Magic}
use cosnet.Message.Env.{Env}
use cosnet.Message.Head
use cosnet.Message.Object.{Message}
use cosnet.Message.Read.{split_query, is_empty, body_of}
use cosnet.Message.Marshal.Layout.{path_prefix}
use cosnet.Message.RoundTrip.{marshalled_head}
use cosnet.Sockets.State.{Sockets}
use cosnet.Handler.{Context, bytes, Node, Handler, handle, wants_reply}
use cosnet.Handler.Incoming.{Registered, handler}

-- A path and a body that a TCP connection carries under this flag and index.
pub record Fits {V : Type 0} (env : Env V) (mc : Magic) (magic flag : ℕ) (index : ℤ)
    (p body : Bytes) : Type 0 where
  pub flag_byte : flag < 256
  pub plain : Flag.has flag flag_compressed ≡ false
  pub index_fits : IsInt32 index
  pub size_fits : length (path_prefix mc p ++ body) < 2 ^ 31
  pub within_limit :
      ltb_ℤ env.options.max_data_size (pos (length (path_prefix mc p ++ body))) ≡ false
  pub uncompressed : Head.auto_compress env (marshalled_head mc magic flag index p body) ≡ false
  pub named : p ≢ []
  pub short : length p < 2 ^ 31

-- The path of the answer: the configured one, or that of the request without its query.
abbrev pub answer_path : {V : Type 0} → Env V → Bytes → Bytes
answer_path env p =
    if is_empty env.options.s2c_confirm then (split_query p).0 else env.options.s2c_confirm

-- A call, with the handler that the registry has for it and what the handler's method makes of a body.
pub record Call (V : Type 0) : Type 0 where
  pub flag : ℕ
  pub index : ℤ
  pub path : Bytes
  pub body : Bytes
  pub node : Node V
  pub handler : Handler V
  pub method : Bytes → Bytes

-- The method is a function of the body, and leaves the manager.
abbrev pub Serves : {V : Type 0} → Env V → Handler V → Node V → (Bytes → Bytes) → Type 0
Serves env h node f =
    (c : Context) (m : Message) (b : Bytes) (w : Sockets)
    → body_of env c.message ≡ (m, ok b)
    → handle h node c w ≡ (w, some (bytes (f b)))

-- TCP carries the call and its answer, and the registry finds the method.
pub record IsServed {V : Type 0} (env : Env V) (mc : Magic)
    (search : Bytes → Option (Node V × Registered V)) (c : Call V) : Type 0 where
  pub request : Fits env mc mc.key c.flag c.index c.path c.body
  pub answer :
      Fits env mc mc.key
        (if Flag.has c.flag flag_heartbeat then 5 else 1)
        c.index
        (answer_path env c.path)
        (c.method c.body)
  pub wanted : wants_reply c.flag ≡ true
  pub found : search (split_query c.path).0 ≡ some (c.node, handler c.handler)
  pub served : Serves env c.handler c.node c.method
