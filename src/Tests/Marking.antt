-- ===== src/Tests/Marking.antt =====
-- A server whose method puts a mark in front of a body, and a client that calls it.
use cosnet.Prelude.{
  ℕ, refl, ap, true, false, none, some, [], ◌∷◌, Option, Result, ok, err, panic, arith,
}
use cosnet.Prelude.Int.{pos}
use cosnet.Prelude.Bytes.{Bytes, codes, index_byte, put_uint32}
use cosnet.Config.{default_config}
use cosnet.Message.Flag
use cosnet.Message.Head
use cosnet.Message.Env.{default_options}
use cosnet.Message.Object.{Message}
use cosnet.Message.Read.{body_of, split_query}
use cosnet.Sockets.State.{Sockets, new_sockets, emit}
use cosnet.Sockets.Lifecycle.{create, connect, connected_to, is_ready}
use cosnet.Handler.{bytes, Node, Handler, default_handle, asserted, handle, wants_reply}
use cosnet.Handler.Incoming.{Registered, handler}
use cosnet.Calls.{Fits, Call, Serves, IsServed}
use cosnet.Calls.Carried.{IsOpen}
use cosnet.Tests.Data.{test_env, path_magic}

abbrev pub server : Sockets
server = (create false 7 (new_sockets default_config)).0

abbrev pub client : Sockets
client = (connected_to false (codes "h") 8 (new_sockets default_config)).0

abbrev pub plain_handler : Handler ℕ
plain_handler = record { filter = none; caller = none; serialize = none }

abbrev pub marked : Bytes → Bytes
marked b = 9 ∷ b

abbrev pub answer : Result Bytes → Bytes
answer (ok b) = marked b
answer (err e) = []
answer panic = []

-- A function that answers with the body behind a mark.
abbrev pub marking : Node ℕ
marking = record {
  is_func = true;
  is_method = false;
  num_in = 1;
  num_out = 1;
  method = some (λ c w. (w, some (bytes (answer (body_of (test_env (pos 99)) c.message).1))));
  caller = none;
  call = λ c w. (w, some (bytes [] ∷ []));
}

pub marking-Serves : Serves (test_env (pos 99)) plain_handler marking marked
unfolding handle default_handle asserted
marking-Serves c m b w read =
    ap (λ (r : Message × Result Bytes). (w, some (bytes (answer r.1)))) read

abbrev pub marking_search : Bytes → Option (Node ℕ × Registered ℕ)
marking_search p = some (marking, handler plain_handler)

pub request-Fits : Fits (test_env (pos 99)) path_magic 0xf0 0 (pos 5) (codes "a") (7 ∷ 8 ∷ [])
unfolding default_options Flag.has put_uint32 Head.auto_compress
request-Fits = record {
  flag_byte = omega arith;
  plain = refl;
  index_fits = omega arith;
  size_fits = omega arith;
  within_limit = refl;
  uncompressed = refl;
  named = λ e. cc;
  short = omega arith;
}

pub marked-Fits : Fits (test_env (pos 99)) path_magic 0xf0 1 (pos 5) (codes "a") (9 ∷ 7 ∷ 8 ∷ [])
unfolding default_options Flag.has put_uint32 Head.auto_compress
marked-Fits = record {
  flag_byte = omega arith;
  plain = refl;
  index_fits = omega arith;
  size_fits = omega arith;
  within_limit = refl;
  uncompressed = refl;
  named = λ e. cc;
  short = omega arith;
}

abbrev pub marked_call : Call ℕ
marked_call = record {
  flag = 0;
  index = pos 5;
  path = codes "a";
  body = 7 ∷ 8 ∷ [];
  node = marking;
  handler = plain_handler;
  method = marked;
}

pub marked_call-IsServed : IsServed (test_env (pos 99)) path_magic marking_search marked_call
unfolding Flag.has default_options wants_reply split_query index_byte
marked_call-IsServed = record {
  request = request-Fits;
  answer = marked-Fits;
  wanted = refl;
  found = refl;
  served = marking-Serves;
}

pub client-IsOpen : IsOpen 1 client
unfolding connected_to create connect emit new_sockets is_ready
client-IsOpen = record { ready = refl; room = refl; stop = refl }

pub server-IsOpen : IsOpen 1 server
unfolding create connect emit new_sockets is_ready
server-IsOpen = record { ready = refl; room = refl; stop = refl }
