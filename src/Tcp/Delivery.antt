-- ===== src/Tcp/Delivery.antt =====
-- A message from `Marshal` at the sender to `Path` and `Body` at the receiver.
use cosnet.Prelude.{
  ℕ, ◌%◌, ◌^◌, ◌≤◌, ◌<◌, ◌≡◌, ◌≢◌, refl, sym, ap, subst, ◌∙◌, false, some, [], ◌++◌, ok, arith,
  length, length-append, Returns, Returns-mono, returned,
}
use cosnet.Prelude.Int.{ℤ, pos, to_int32, IsInt32, ltb_ℤ}
use cosnet.Prelude.Bytes.{Bytes, put_uint32, length-put_uint32}
use cosnet.Message.Flag
use cosnet.Message.Flag.{flag_compressed}
use cosnet.Message.Magic.{Magic, magic_type_path}
use cosnet.Message.Magic
use cosnet.Message.Env.{Env}
use cosnet.Message.Head.{Head}
use cosnet.Message.Head
use cosnet.Message.Object.{Message, path, Payload}
use cosnet.Message.Marshal.{marshal, marshal_body}
use cosnet.Message.Marshal.Layout.{Holds, path_prefix, marshal-path_lem}
use cosnet.Message.RoundTrip.{read_parts, ReadsBack, marshalled_head, read_parts-path}
use cosnet.Message.Transfer.Sendable.{IsSendable}
use cosnet.Message.Transfer.Packet.{Arrived}
use cosnet.Tcp.{read_message, write_message}
use cosnet.Tcp.Stream.{read_message-write_message}

module _ {V : Type 0} (env : Env V) (mc : Magic) (magic flag : ℕ) (index : ℤ) (p body : Bytes)
    (known : Magic.get env.magics magic ≡ some mc) (flag_byte : flag < 256)
    (plain : Flag.has flag flag_compressed ≡ false) (index_fits : IsInt32 index)
    (size_fits : length (path_prefix mc p ++ body) < 2 ^ 31)
    (within_limit : ltb_ℤ env.options.max_data_size (pos (length (path_prefix mc p ++ body)))
      ≡ false) where
  abbrev sent : Head
  sent = marshalled_head mc magic flag index p body

  size_kept : sent.size ≡ pos (length (path_prefix mc p ++ body))
  size_kept = small (length (path_prefix mc p ++ body)) size_fits
    where
      small : (n : ℕ) → n < 2 ^ 31 → to_int32 (n % 2 ^ 32) ≡ pos n
      small n h = ground arith

  pub marshalled_IsSendable :
      (s : Message)
      → s.head ≡ sent
      → s.bytes.content ≡ path_prefix mc p ++ body
      → IsSendable env mc s
  marshalled_IsSendable s head content = record {
    known = subst (λ (h : Head). Magic.get env.magics h.magic ≡ some mc) (sym head) known;
    flag_byte = subst (λ (h : Head). h.flag < 256) (sym head) flag_byte;
    plain = subst (λ (h : Head). Flag.has h.flag flag_compressed ≡ false) (sym head) plain;
    index_fits = subst (λ (h : Head). IsInt32 h.index) (sym head) index_fits;
    size_counts = ap Head.size head ∙ size_kept ∙ ap (λ b. pos (length b)) (sym content);
    size_fits = subst (λ b. length b < 2 ^ 31) (sym content) size_fits;
    within_limit =
        subst (λ z. ltb_ℤ env.options.max_data_size z ≡ false) (sym (ap Head.size head ∙ size_kept))
          within_limit;
  }

  pub nonempty_prefix : 0 < length (path_prefix mc p ++ body)
  nonempty_prefix = omega (
    arith,
    length-append (path_prefix mc p) body,
    length-append (put_uint32 mc.binary (length p % 2 ^ 32)) p,
    length-put_uint32 mc.binary (length p % 2 ^ 32),
  )

  -- With a capacity of at least four bytes and a registered magic number of path type, a message
  -- that `Marshal` fills from a path of 1 to 2^31 - 1 bytes and a body, which the binder encodes if
  -- it needs one, with a flag byte without the compressed bit, an index of int32 and a size within
  -- int32, the limit and the threshold of compression, is written by `WriteMessage`; `ReadMessage`
  -- reads what was written from the front of a stream into a message without a cached code, which
  -- then reads as the path, split at its first question mark, and the bytes of the body, under the
  -- sender's head, and the stream goes on with what came behind.
  pub read_message-marshal :
      (b : Payload V) (m m' : Message) (rest : Bytes)
      → 4 ≤ env.options.capacity
      → mc.type ≡ magic_type_path
      → marshal_body env (record (m.head) { magic = magic; flag = flag; index = index }) b ≡ ok body
      → p ≢ []
      → length p < 2 ^ 31
      → Head.auto_compress env sent ≡ false
      → m'.code ≡ pos 0
      → (s : Message) × (marshal env magic flag index (path p) b m ≡ (s, ok tt))
        × (wire : Bytes) × (write_message env s ≡ ok wire)
        × Returns
            (λ after _. Returns (ReadsBack p body sent) (read_parts env after.0) × (after.1 ≡ rest))
            (read_message env (m', wire ++ rest))
  read_message-marshal b m m' rest cap_ok typed body_ok nonempty short off fresh =
      let h0 : Head = record (m.head) { magic = magic; flag = flag; index = index } in
      let (s, u, e, (content, head, code)) =
        returned (Holds h0 m.code (path_prefix mc p ++ body))
          (marshal env magic flag index (path p) b m)
          (marshal-path_lem env magic flag index p b m mc body cap_ok known typed body_ok) in
      let (wire, we, r) =
        read_message-write_message env mc s (marshalled_IsSendable s head content) m' rest
          (ap (Head.auto_compress env) head ∙ off) (rw content nonempty_prefix) in
      (
        s,
        e,
        wire,
        we,
        Returns-mono (λ after _. Arrived s m'.code after.0 tt × (after.1 ≡ rest))
            (λ after _. Returns (ReadsBack p body sent) (read_parts env after.0) × (after.1 ≡ rest))
            (read_message env (m', wire ++ rest)) r
            λ after _ ((head', content', code'), rest'). (
              rw
                  (read_parts-path env mc p body after.0
                    (subst (λ (h : Head). Magic.get env.magics h.magic ≡ some mc)
                      (sym (head' ∙ head)) known)
                    typed nonempty short (content' ∙ content) (code' ∙ fresh))
                  (refl, head' ∙ head),
              rest',
            ),
      )
