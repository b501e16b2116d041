-- ===== src/Message/Read/Prefixed.antt =====
-- Reading a message whose bytes begin with a code or with a path and its length.
use cosnet.Prelude.{
  length_zero, ℕ, ◌+◌, ◌%◌, ◌^◌, ◌<◌, ◌≡◌, ◌≢◌, refl, sym, ◌∙◌, ap, true, false, some, [], ◌++◌, ok,
  arith, length, take, drop, leb, ltb, append_assoc, le→leb, ge→ltb, length-append, take-append_eq,
  drop-append_eq,
}
use cosnet.Prelude.Int.{pos, to_int32}
use cosnet.Prelude.Bytes.{Bytes, put_uint32, uint32, length-put_uint32, uint32-put_uint32}
use cosnet.Message.Magic.{Magic, magic_type_path, magic_type_code}
use cosnet.Message.Slice.{cap, array}
use cosnet.Message.Env.{Env}
use cosnet.Message.Head.{Head}
use cosnet.Message.Head
use cosnet.Message.Object.{Message}
use cosnet.Message.Read.{
  is_zero, code_of, split_query, path_in, path_length, path_by, path_of, offset, body_of,
  with_no_query,
}

length_prefixed :
    (mc : Magic) (u : ℕ) (rest : Bytes) → length (put_uint32 mc.binary u ++ rest) ≡ 4 + length rest
length_prefixed mc u rest =
    omega (arith, length-append (put_uint32 mc.binary u) rest, length-put_uint32 mc.binary u)

module _ {V : Type 0} (env : Env V) (mc : Magic) (u : ℕ) (rest : Bytes) (m : Message)
    (known : Head.magic_of env m.head ≡ some mc)
    (content : m.bytes.content ≡ put_uint32 mc.binary u ++ rest) (small : u < 2 ^ 32) where
  first_four : uint32 mc.binary (take 4 (array m.bytes)) ≡ u
  first_four =
      rw (content, append_assoc (put_uint32 mc.binary u) rest m.bytes.spare)
        (ap (uint32 mc.binary) (take-append_eq 4 _ _ (length-put_uint32 mc.binary u))
          ∙ uint32-put_uint32 mc.binary u small)

  cap_enough : leb 4 (cap m.bytes) ≡ true
  cap_enough = le→leb 4 (cap m.bytes) (
      omega (
        arith,
        length-append m.bytes.content m.bytes.spare,
        ap length content,
        length_prefixed mc u rest,
      ))

  -- The code is the number that the first four bytes stand for.
  pub code_of-prefixed :
      m.code ≡ pos 0 → code_of env m ≡ (record m { code = to_int32 u }, ok (to_int32 u))
  unfolding code_of
  code_of-prefixed fresh = rw (ap is_zero fresh, known, cap_enough, first_four) refl

  behind_four : drop 4 m.bytes.content ≡ rest
  behind_four = rw content (drop-append_eq 4 _ rest (length-put_uint32 mc.binary u))

  long_enough : ltb (length m.bytes.content) 4 ≡ false
  long_enough = ge→ltb _ 4 (omega (arith, ap length content, length_prefixed mc u rest))

  -- Under a magic number of code type the path is what the transform makes of the code.
  pub path_of-code :
      m.code ≡ pos 0
      → mc.type ≡ magic_type_code
      → path_of env m
        ≡ (record m { code = to_int32 u }, with_no_query (env.transform.path (to_int32 u)))
  unfolding path_of path_by
  path_of-code fresh typed = ground (arith, known, typed, code_of-prefixed fresh)

  -- And the body is what follows the code.
  pub body_of-code : mc.type ≡ magic_type_code → body_of env m ≡ (m, ok rest)
  unfolding body_of offset
  body_of-code typed = ground (arith, known, typed, long_enough, behind_four)

module _ {V : Type 0} (env : Env V) (mc : Magic) (p body : Bytes) (m : Message)
    (known : Head.magic_of env m.head ≡ some mc)
    (content : m.bytes.content ≡ put_uint32 mc.binary (length p % 2 ^ 32) ++ (p ++ body))
    (typed : mc.type ≡ magic_type_path) (short : length p < 2 ^ 31) where
  coded : to_int32 (length p % 2 ^ 32) ≡ pos (length p)
  coded = ground arith

  whole_length : length m.bytes.content ≡ 4 + length p + length body
  whole_length = omega (
    arith,
    ap length content,
    length_prefixed mc (length p % 2 ^ 32) (p ++ body),
    length-append p body,
  )

  behind : drop 4 m.bytes.content ≡ p ++ body
  behind = rw content (drop-append_eq 4 _ _ (length-put_uint32 mc.binary _))

  path_in-prefixed : p ≢ [] → path_in m.bytes.content (pos (length p)) ≡ ok (split_query p)
  unfolding path_in
  path_in-prefixed nonempty =
      ground (arith, behind, whole_length, take-append_eq (length p) p body refl, length_zero p)

  -- Under a magic number of path type the path is read back, split at its first question mark.
  pub path_of-path :
      p ≢ []
      → m.code ≡ pos 0
      → path_of env m ≡ (record m { code = pos (length p) }, ok (split_query p))
  unfolding path_of path_by
  path_of-path nonempty fresh = ground (
    arith,
    known,
    typed,
    coded,
    path_in-prefixed nonempty,
    code_of-prefixed env mc (length p % 2 ^ 32) (p ++ body) m known content (omega arith) fresh,
  )

  code_of_cached : p ≢ [] → m.code ≡ pos (length p) → code_of env m ≡ (m, ok (pos (length p)))
  unfolding code_of
  code_of_cached nonempty cached = ground (arith, length_zero p)

  -- The cached code leads to the same path.
  pub path_of_cached : p ≢ [] → m.code ≡ pos (length p) → path_of env m ≡ (m, ok (split_query p))
  unfolding path_of path_by
  path_of_cached nonempty cached =
      ground (arith, known, typed, path_in-prefixed nonempty, code_of_cached nonempty cached)

  path_length-prefixed : path_length m.bytes.content (pos (length p)) ≡ length p
  unfolding path_length
  path_length-prefixed = ground (arith, whole_length)

  body_behind : drop (4 + length p) m.bytes.content ≡ body
  body_behind =
      rw (content, sym (append_assoc (put_uint32 mc.binary (length p % 2 ^ 32)) p body))
        (drop-append_eq (4 + length p) (put_uint32 mc.binary (length p % 2 ^ 32) ++ p) body
          (omega (arith, length_prefixed mc (length p % 2 ^ 32) p)))

  -- And the body is what follows the path.
  pub body_of-path : p ≢ [] → m.code ≡ pos (length p) → body_of env m ≡ (m, ok body)
  unfolding body_of offset
  body_of-path nonempty cached = ground (
    arith,
    known,
    typed,
    body_behind,
    path_length-prefixed,
    code_of_cached nonempty cached,
    whole_length,
  )
