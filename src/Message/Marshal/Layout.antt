-- ===== src/Message/Marshal/Layout.antt =====
-- What `Marshal` leaves in the message, byte for byte.
use cosnet.Prelude.{
  ℕ, ◌%◌, ◌^◌, ◌≤◌, ◌≡◌, refl, sym, subst, ◌∙◌, ap, Method, some, ◌++◌, ok, ◌>>=◌, Returns,
  Returns-bind, Returns-mono, arith, length, leb, ltb, le→leb, Bool-cases, inl, inr, length-append,
}
use cosnet.Prelude.Int.{ℤ, int32, to_int32, to_uint32}
use cosnet.Prelude.Bytes.{Bytes, put_uint32, length-put_uint32}
use cosnet.Message.Magic.{Magic, magic_type_path, magic_type_code}
use cosnet.Message.Magic
use cosnet.Message.Slice.{Slice, append, cap, len}
use cosnet.Message.Slice.Arrays.{content-reslice-overwrite, content-append}
use cosnet.Message.Env.{Env}
use cosnet.Message.Head.{Head}
use cosnet.Message.Head
use cosnet.Message.Object.{Message, PathOrCode, path, code, Payload}
use cosnet.Message.Marshal.{
  put_prefix, write_string, put_path, marshal_path, marshal_code, marshal_prefix, marshal_body,
  ensure_prefix, store_buffer, marshal_with, marshal,
}

-- The buffer holds `bs`, and of the message only the bytes may have changed.
abbrev Filled : Message → Bytes → Message → Slice → Type 0
Filled m bs m' buffer = (buffer.content ≡ bs) × (m'.head ≡ m.head) × (m'.code ≡ m.code)

abbrev HasRoom : Message → Message → Unit {0} → Type 0
HasRoom m m' _ = (4 ≤ cap m'.bytes) × (m'.head ≡ m.head) × (m'.code ≡ m.code)

-- The message holds `bs` under the head `h`, with its size.
abbrev pub Holds : Head → ℤ → Bytes → Message → Unit {0} → Type 0
Holds h c bs m' _ =
    (m'.bytes.content ≡ bs)
    × (m'.head ≡ record h { size = to_int32 (length bs % 2 ^ 32) })
    × (m'.code ≡ c)

-- The four bytes and the path that a magic number of path type puts in front.
abbrev pub path_prefix : Magic → Bytes → Bytes
path_prefix mc p = put_uint32 mc.binary (length p % 2 ^ 32) ++ p

module _ {V : Type 0} (env : Env V) where
  put_prefix_lem :
      (magic : Magic) (u : ℕ) (m : Message)
      → 4 ≤ cap m.bytes
      → Returns (Filled m (put_uint32 magic.binary u)) (put_prefix env magic u m)
  unfolding put_prefix
  put_prefix_lem magic u m h =
      rw (le→leb 4 (cap m.bytes) h)
        (content-reslice-overwrite 4 m.bytes _ (length-put_uint32 magic.binary u), refl, refl)

  write_string_lem :
      (buffer : Slice) (s : Bytes) (m : Message)
      → Returns (Filled m (buffer.content ++ s)) (write_string env buffer s m)
  unfolding write_string
  write_string_lem buffer s m = elim (Bool-cases (leb (length s) (length buffer.spare))) [
    | inl fits ↦ rw fits (refl, refl, refl)
    | inr grows ↦ rw grows (refl, refl, refl)
  ]

  put_path_lem :
      (magic : Magic) (p : Bytes) (m : Message)
      → 4 ≤ cap m.bytes
      → Returns
          (Filled m (put_uint32 magic.binary (length p % 2 ^ 32) ++ p))
          (put_path env magic p m)
  put_path_lem magic p m h =
      Returns-bind (Filled m (put_uint32 magic.binary (length p % 2 ^ 32)))
        (Filled m (put_uint32 magic.binary (length p % 2 ^ 32) ++ p))
        (put_prefix env magic (length p % 2 ^ 32) m) (λ buffer. write_string env buffer p)
        (put_prefix_lem magic (length p % 2 ^ 32) m h)
        λ m' buffer (e, eh, ec).
          Returns-mono (Filled m' (buffer.content ++ p)) (Filled m _) (write_string env buffer p m')
            (write_string_lem buffer p m')
            λ m'' buffer' (e', eh', ec'). (e' ∙ ap (λ b. b ++ p) e, eh' ∙ eh, ec' ∙ ec)

  ensure_prefix_lem :
      (m : Message) → 4 ≤ env.options.capacity → Returns (HasRoom m) (ensure_prefix env m)
  unfolding ensure_prefix
  ensure_prefix_lem m h = elim (Bool-cases (ltb (len m.bytes) 4)) [
    | inl short ↦ rw (short, le→leb 4 _ h) (omega arith, refl, refl)
    | inr enough ↦
        rw enough (ground (arith, length-append m.bytes.content m.bytes.spare), refl, refl)
  ]

  store_buffer_lem :
      (m m' : Message) (buffer : Slice) (front body : Bytes)
      → Filled m front m' buffer
      → Returns
          (Holds m.head m.code (front ++ body))
          (store_buffer env (append env.grown buffer body) m')
  unfolding store_buffer
  store_buffer_lem m m' buffer front body (e, eh, ec) =
      let whole : (append env.grown buffer body).content ≡ front ++ body =
        content-append env.grown buffer body ∙ ap (λ bs. bs ++ body) e in
      (whole, λ i. record (eh i) { size = to_int32 (length (whole i) % 2 ^ 32) }, ec)

  module _ (magic : Magic) (p : PathOrCode) (b : Payload V) where
    with_prefix : Slice → Method Message (Unit {0})
    with_prefix buffer = do
      written ← (λ m. (m, marshal_body env m.head b))
      store_buffer env (append env.grown buffer written)

    with_prefix_lem :
        (m m' : Message) (buffer : Slice) (front body : Bytes)
        → Filled m front m' buffer
        → marshal_body env m.head b ≡ ok body
        → Returns (Holds m.head m.code (front ++ body)) (with_prefix buffer m')
    unfolding with_prefix
    with_prefix_lem m m' buffer front body filled body_ok =
        rw (subst (λ h. marshal_body env h b ≡ ok body) (sym filled.1) body_ok)
          (store_buffer_lem m m' buffer front body filled)

    -- Where the prefix is written as `front`, the message ends up as `front` and the body.
    marshal_with_lem :
        (front body : Bytes) (m : Message)
        → 4 ≤ env.options.capacity
        → ((m : Message)
            → 4 ≤ cap m.bytes
            → Returns (Filled m front) (marshal_prefix env magic p m))
        → marshal_body env m.head b ≡ ok body
        → Returns (Holds m.head m.code (front ++ body)) (marshal_with env magic p b m)
    unfolding marshal_with with_prefix
    marshal_with_lem front body m cap_ok prefix_ok body_ok =
        Returns-bind (HasRoom m) (Holds m.head m.code (front ++ body)) (ensure_prefix env m)
          (λ _. marshal_prefix env magic p >>= with_prefix) (ensure_prefix_lem m cap_ok)
          λ m1 _ (room, eh1, ec1).
            Returns-bind (Filled m1 front) (Holds m.head m.code (front ++ body))
              (marshal_prefix env magic p m1) with_prefix (prefix_ok m1 room)
              λ m2 buffer (eb, eh2, ec2).
                with_prefix_lem m m2 buffer front body (eb, eh2 ∙ eh1, ec2 ∙ ec1) body_ok

  marshal-eq-marshal_with :
      (magic : ℕ) (flag : ℕ) (index : ℤ) (p : PathOrCode) (b : Payload V) (m : Message) {mc : Magic}
      → Magic.get env.magics magic ≡ some mc
      → marshal env magic flag index p b m
        ≡ marshal_with env mc p b
            (record m { head = record (m.head) { magic = magic; flag = flag; index = index } })
  unfolding marshal Head.format Head.magic_of
  marshal-eq-marshal_with magic flag index p b m known = ground arith

  -- Given a registered magic number, `Marshal` fills in the head and leaves prefix and body.
  marshal_lem :
      (magic : ℕ) (flag : ℕ) (index : ℤ) (p : PathOrCode) (b : Payload V) (m : Message) (mc : Magic)
      (front body : Bytes)
      → 4 ≤ env.options.capacity
      → Magic.get env.magics magic ≡ some mc
      → ((m : Message) → 4 ≤ cap m.bytes → Returns (Filled m front) (marshal_prefix env mc p m))
      → marshal_body env (record (m.head) { magic = magic; flag = flag; index = index }) b ≡ ok body
      → Returns
          (Holds
            (record (m.head) { magic = magic; flag = flag; index = index })
            m.code
            (front ++ body))
          (marshal env magic flag index p b m)
  marshal_lem magic flag index p b m mc front body cap_ok known prefix_ok body_ok =
      rw (marshal-eq-marshal_with magic flag index p b m known)
        (marshal_with_lem mc p b front body _ cap_ok prefix_ok body_ok)

  -- With a capacity of at least four bytes and a registered magic number of path type, `Marshal` of
  -- a path and a body, which the binder encodes if it needs one, leaves in the message the length
  -- of the path in four bytes, the path and the body, under a head with the magic number, the flag,
  -- the index and the size as an int32; the cached code stays.
  pub marshal-path_lem :
      (magic : ℕ) (flag : ℕ) (index : ℤ) (p : Bytes) (b : Payload V) (m : Message) (mc : Magic)
      (body : Bytes)
      → 4 ≤ env.options.capacity
      → Magic.get env.magics magic ≡ some mc
      → mc.type ≡ magic_type_path
      → marshal_body env (record (m.head) { magic = magic; flag = flag; index = index }) b ≡ ok body
      → Returns
          (Holds
            (record (m.head) { magic = magic; flag = flag; index = index })
            m.code
            (path_prefix mc p ++ body))
          (marshal env magic flag index (path p) b m)
  unfolding marshal_prefix
  marshal-path_lem magic flag index p b m mc body cap_ok known typed body_ok =
      marshal_lem magic flag index (path p) b m mc (path_prefix mc p) body cap_ok known
        (λ m h. rw (typed, marshal_path) (put_path_lem mc p m h)) body_ok

  -- Under one of code type, it holds the code and the body.
  pub marshal-code_lem :
      (magic : ℕ) (flag : ℕ) (index : ℤ) (c : ℤ) (b : Payload V) (m : Message) (mc : Magic)
      (body : Bytes)
      → 4 ≤ env.options.capacity
      → Magic.get env.magics magic ≡ some mc
      → mc.type ≡ magic_type_code
      → marshal_body env (record (m.head) { magic = magic; flag = flag; index = index }) b ≡ ok body
      → Returns
          (Holds
            (record (m.head) { magic = magic; flag = flag; index = index })
            m.code
            (put_uint32 mc.binary (to_uint32 (int32 c)) ++ body))
          (marshal env magic flag index (code c) b m)
  unfolding marshal_prefix
  marshal-code_lem magic flag index c b m mc body cap_ok known typed body_ok =
      marshal_lem magic flag index (code c) b m mc _ body cap_ok known
        (λ m h. rw (typed, marshal_code) (put_prefix_lem mc (to_uint32 (int32 c)) m h)) body_ok
