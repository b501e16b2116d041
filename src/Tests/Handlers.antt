-- ===== src/Tests/Handlers.antt =====
-- Requests and their answers, on a manager with one socket.
use cosnet.Prelude.{
  ℕ, ◌≡◌, refl, ap, sym, subst, true, false, none, some, [], ◌∷◌, ok, arith, inl, Returns, Option,
}
use cosnet.Prelude.Int.{pos}
use cosnet.Prelude.Bytes.{Bytes, codes, index_byte, uint32}
use cosnet.Config.{default_config}
use cosnet.Message.Flag
use cosnet.Message.Head
use cosnet.Message.Magic
use cosnet.Message.Env.{default_options}
use cosnet.Message.Object.{Message, new_message}
use cosnet.Message.Read.{confirm, path_of, code_of, path_by, path_in, split_query}
use cosnet.Message.RoundTrip.{read_parts, marshalled_head}
use cosnet.Sockets.State.{Sockets, new_sockets, emit}
use cosnet.Sockets.Lifecycle.{create, connect, is_ready}
use cosnet.Sockets.Invariant.{Inv}
use cosnet.Sockets.Runs.{accept, run, step, run-new_sockets}
use cosnet.Sockets.Sending.{done, queue}
use cosnet.Handler.{
  Context, Reply, bytes, Call, Node, Handler, asserted, default_handle, wants_reply, reply_bytes,
  reply, handle, default_filter, passes_filter,
}
use cosnet.Handler.Answers.{LastAnswer, reply-Correlates}
use cosnet.Handler.Filtering.{Answers, IsSound, handle-Answers}
use cosnet.Handler.Incoming.{Registered, handler, nil_handler, other_value, read_msg_true}
use cosnet.Handler.Incoming.Steady.{KeepsInv, Survives, read_msg_true-Steady}
use cosnet.Tests.Data.{test_env, path_magic}

abbrev serving : Sockets
serving = (create false 7 (new_sockets default_config)).0

-- A heartbeat with the path "a" and the index 5.
abbrev request : Message
request = record {
  head = record { magic = 0xf0; flag = 4; size = pos 5; index = pos 5 };
  code = pos 0;
  bytes = record { content = 0 ∷ 0 ∷ 0 ∷ 1 ∷ 97 ∷ []; spare = [] };
}

abbrev plain_handler : Handler ℕ
plain_handler = record { filter = none; caller = none; serialize = none }

-- A function that answers with one byte.
abbrev echo : Node ℕ
echo = record {
  is_func = true;
  is_method = false;
  num_in = 1;
  num_out = 1;
  method = some (λ c w. (w, some (bytes (7 ∷ []))));
  caller = none;
  call = λ c w. (w, some (bytes [] ∷ []));
}

reply-Correlates_example :
    (m' : Message) × (reply
        (test_env (pos 3))
        (λ b r. ok [])
        false
        new_message
        plain_handler
        (record { socket = 1; message = request })
        (bytes (7 ∷ []))
        serving
      ≡ (queue m' 1 serving, done (ok tt)))
    × Returns
        (LastAnswer
          (test_env (pos 3))
          (λ b r. ok [])
          (codes "a")
          (7 ∷ [])
          (marshalled_head path_magic 0xf0 5 (pos 5) (codes "a") (7 ∷ [])))
        (read_parts (test_env (pos 3)) m')
unfolding create connect emit new_sockets is_ready Magic.get Magic.default_magics Magic.register
    Magic.has default_options confirm path_of code_of path_by path_in split_query Head.magic_of
    wants_reply Flag.has reply_bytes index_byte uint32
reply-Correlates_example =
    reply-Correlates (test_env (pos 3)) (λ b r. ok []) path_magic false new_message plain_handler
      (record { socket = 1; message = request }) (bytes (7 ∷ [])) (record request { code = pos 1 })
      (codes "a") (7 ∷ []) serving (omega arith) refl refl refl refl refl (λ e. cc) (omega arith)
      refl refl refl refl refl

abbrev result_of : Context → Sockets → Option (Call ℕ (Reply ℕ)) → Option (Reply ℕ)
result_of c w none = none
result_of c w (some f) = (f c w).1

echo-IsSound : IsSound echo
echo-IsSound = record {
  kind = inl refl;
  method_answers = λ f e c w. (bytes (7 ∷ []), ap (result_of c w) (sym e));
  caller_answers = λ f e c w. absurd (cc);
  call_returns = λ c w. (bytes [] ∷ [], refl, refl);
}

handle-Answers_example :
    Answers (handle plain_handler echo (record { socket = 1; message = request }) serving)
unfolding passes_filter default_filter
handle-Answers_example =
    handle-Answers plain_handler echo (record { socket = 1; message = request }) serving refl refl
      echo-IsSound refl

-- Every path has the echo.
abbrev echoing : Bytes → Option (Node ℕ × Registered ℕ)
echoing p = some (echo, handler plain_handler)

-- The call of a node that was found keeps the invariant.
abbrev KeepsAt : Context → Sockets → Option (Node ℕ × Registered ℕ) → Type 0
KeepsAt c w none = Unit
KeepsAt c w (some (node, handler h)) = Inv (handle h node c w).0
KeepsAt c w (some (node, nil_handler)) = Unit
KeepsAt c w (some (node, other_value)) = Unit

echoing-KeepsInv : (p : Bytes) → KeepsInv (echoing p)
unfolding handle default_handle asserted
echoing-KeepsInv p node h found c w inv = subst (KeepsAt c w) found inv

read_msg_true-Steady_example :
    Inv
      (read_msg_true
        (test_env (pos 3))
        (λ b r. ok [])
        echoing
        false
        new_message
        1
        request
        serving).0
    × Survives
        (read_msg_true
          (test_env (pos 3))
          (λ b r. ok [])
          echoing
          false
          new_message
          1
          request
          serving).1
unfolding run step
read_msg_true-Steady_example =
    read_msg_true-Steady (test_env (pos 3)) (λ b r. ok []) echoing false new_message 1 request
      serving echoing-KeepsInv (run-new_sockets default_config (accept false 7 ∷ []))
