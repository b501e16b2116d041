-- ===== src/Message/RoundTrip.antt =====
-- `Marshal` followed by `Path` and `Body` on the same message.
use cosnet.Prelude.{
  ℕ, ◌%◌, ◌^◌, ◌≤◌, ◌<◌, ◌≡◌, ◌≢◌, refl, sym, subst, ◌∙◌, ap, some, [], ◌++◌, ok, ◌>>=◌, ◌>>◌,
  Method, continue, pure, Returns, Returns-bind, length, append_assoc,
}
use cosnet.Prelude.Int.{ℤ, pos, int32, to_int32, to_uint32, to_uint32-lt, int32-int32}
use cosnet.Prelude.Bytes.{Bytes, put_uint32}
use cosnet.Message.Magic.{Magic, magic_type_path, magic_type_code}
use cosnet.Message.Magic
use cosnet.Message.Env.{Env}
use cosnet.Message.Head.{Head}
use cosnet.Message.Head
use cosnet.Message.Object.{Message, path, code, Payload}
use cosnet.Message.Read.{split_query, path_of, body_of, with_no_query}
use cosnet.Message.Read.Prefixed.{path_of-path, body_of-path, path_of-code, body_of-code}
use cosnet.Message.Marshal.{marshal, marshal_body}
use cosnet.Message.Marshal.Layout.{Holds, path_prefix, marshal-path_lem, marshal-code_lem}

-- What a receiver reads from a message: its path with the query, and its body.
abbrev pub read_parts : {V : Type 0} → Env V → Method Message ((Bytes × Bytes) × Bytes)
read_parts env = do located ← path_of env; body ← body_of env; pure (located, body)

-- The path, split at its query, and the body were read, under this head.
abbrev pub ReadsBack : Bytes → Bytes → Head → Message → (Bytes × Bytes) × Bytes → Type 0
ReadsBack p body h m' read = (read ≡ (split_query p, body)) × (m'.head ≡ h)

-- The head that `Marshal` leaves.
abbrev pub marshalled_head : Magic → ℕ → ℕ → ℤ → Bytes → Bytes → Head
marshalled_head mc magic flag index p body = record {
  magic = magic;
  flag = flag;
  size = to_int32 (length (path_prefix mc p ++ body) % 2 ^ 32);
  index = index;
}

module _ {V : Type 0} (env : Env V) (mc : Magic) where
  pub read_parts-path :
      (p body : Bytes) (m : Message)
      → Magic.get env.magics m.head.magic ≡ some mc
      → mc.type ≡ magic_type_path
      → p ≢ []
      → length p < 2 ^ 31
      → m.bytes.content ≡ path_prefix mc p ++ body
      → m.code ≡ pos 0
      → read_parts env m ≡ (record m { code = pos (length p) }, ok (split_query p, body))
  unfolding Head.magic_of
  read_parts-path p body m known typed nonempty short content fresh =
      let content' : m.bytes.content ≡ put_uint32 mc.binary (length p % 2 ^ 32) ++ (p ++ body) =
        content ∙ append_assoc (put_uint32 mc.binary (length p % 2 ^ 32)) p body in
      let m' : Message = record m { code = pos (length p) } in
      ap (continue (λ located. body_of env >>= λ b. pure (located, b)))
        (path_of-path env mc p body m known content' typed short nonempty fresh)
      ∙ ap (continue (λ b. pure (split_query p, b)))
          (body_of-path env mc p body m' known content' typed short nonempty refl)

  read_parts-code :
      (c : ℤ) (body p : Bytes) (m : Message)
      → Magic.get env.magics m.head.magic ≡ some mc
      → mc.type ≡ magic_type_code
      → m.bytes.content ≡ put_uint32 mc.binary (to_uint32 (int32 c)) ++ body
      → m.code ≡ pos 0
      → env.transform.path (int32 c) ≡ ok p
      → read_parts env m ≡ (record m { code = int32 c }, ok ((p, []), body))
  unfolding Head.magic_of
  read_parts-code c body p m known typed content fresh transformed =
      let u = to_uint32 (int32 c) in
      let small : u < 2 ^ 32 = to_uint32-lt (int32 c) in
      let decoded : path_of env m
          ≡ (record m { code = int32 c }, with_no_query (env.transform.path (int32 c))) =
        rw (int32-int32 c) at (path_of-code env mc u body m known content small fresh typed) in
      ap (continue (λ located. body_of env >>= λ b. pure (located, b)))
        (decoded ∙ ap (λ r. (record m { code = int32 c }, with_no_query r)) transformed)
      ∙ ap (continue (λ b. pure ((p, []), b)))
          (body_of-code env mc u body (record m { code = int32 c }) known content small typed)

  -- With a capacity of at least four bytes and a registered magic number of path type, a message
  -- without a cached code that `Marshal` fills from a path of 1 to 2^31 - 1 bytes and a body, which
  -- the binder encodes if it needs one, reads back as the path, split at its first question mark,
  -- and the bytes of the body. The head has the magic number, the flag, the index and the size.
  pub read_parts-marshal_path :
      (magic flag : ℕ) (index : ℤ) (p : Bytes) (b : Payload V) (m : Message) (body : Bytes)
      → 4 ≤ env.options.capacity
      → Magic.get env.magics magic ≡ some mc
      → mc.type ≡ magic_type_path
      → marshal_body env (record (m.head) { magic = magic; flag = flag; index = index }) b ≡ ok body
      → m.code ≡ pos 0
      → p ≢ []
      → length p < 2 ^ 31
      → Returns
          (ReadsBack p body (marshalled_head mc magic flag index p body))
          ((do marshal env magic flag index (path p) b; read_parts env) m)
  read_parts-marshal_path magic flag index p b m body cap_ok known typed body_ok fresh nonempty
        short =
      Returns-bind
        (Holds (record (m.head) { magic = magic; flag = flag; index = index }) m.code
          (path_prefix mc p ++ body))
        (ReadsBack p body (marshalled_head mc magic flag index p body))
        (marshal env magic flag index (path p) b m) (λ _. read_parts env)
        (marshal-path_lem env magic flag index p b m mc body cap_ok known typed body_ok)
        λ m' _ (content, head, cached).
          rw
            (read_parts-path p body m'
              (subst (λ h. Magic.get env.magics (Head.magic h) ≡ some mc) (sym head) known) typed
              nonempty short content (cached ∙ fresh))
            (refl, head)

  -- With a capacity of at least four bytes and a registered magic number of code type, a message
  -- without a cached code that `Marshal` fills from a code and a body, which the binder encodes if
  -- it needs one, reads back as what the transform makes of the code as an int32, with no query,
  -- and the bytes of the body; the cached code is that int32.
  pub read_parts-marshal_code :
      (magic flag : ℕ) (index c : ℤ) (b : Payload V) (m : Message) (body p : Bytes)
      → 4 ≤ env.options.capacity
      → Magic.get env.magics magic ≡ some mc
      → mc.type ≡ magic_type_code
      → marshal_body env (record (m.head) { magic = magic; flag = flag; index = index }) b ≡ ok body
      → m.code ≡ pos 0
      → env.transform.path (int32 c) ≡ ok p
      → Returns
          (λ m' read. (read ≡ ((p, []), body)) × (m'.code ≡ int32 c))
          ((do marshal env magic flag index (code c) b; read_parts env) m)
  read_parts-marshal_code magic flag index c b m body p cap_ok known typed body_ok fresh
        transformed =
      Returns-bind
        (Holds (record (m.head) { magic = magic; flag = flag; index = index }) m.code
          (put_uint32 mc.binary (to_uint32 (int32 c)) ++ body))
        (λ m' read. (read ≡ ((p, []), body)) × (m'.code ≡ int32 c))
        (marshal env magic flag index (code c) b m) (λ _. read_parts env)
        (marshal-code_lem env magic flag index c b m mc body cap_ok known typed body_ok)
        λ m' _ (content, head, cached).
          rw
            (read_parts-code c body p m'
              (subst (λ h. Magic.get env.magics (Head.magic h) ≡ some mc) (sym head) known) typed
              content (cached ∙ fresh) transformed)
            (refl, refl)
