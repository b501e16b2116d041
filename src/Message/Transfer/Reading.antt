-- ===== src/Message/Transfer/Reading.antt =====
-- `Write`: reading the body of a message from a stream.
use cosnet.Prelude.{
  ℕ, zero, suc, ◌≤◌, ◌<◌, ◌≡◌, refl, ◌∙◌, ap, [], ok, err, continue, arith, length, take, drop,
  drop_all, length-take, length-replicate, ge→ltb, lt→ltb, short_buffer,
}
use cosnet.Prelude.Int.{pos}
use cosnet.Prelude.Bytes.{Bytes}
use cosnet.Message.Slice.{Slice, array, overwrite}
use cosnet.Message.Slice.Arrays.{content-overwrite_full}
use cosnet.Message.Env.{Env}
use cosnet.Message.Object.{Message}
use cosnet.Message.Transfer.{room, read_full, write, write_size, decompress, decompress_at}

module _ {V : Type 0} (env : Env V) where
  length-room : (size : ℕ) (s : Slice) → length (room env size s).content ≡ size
  unfolding room
  length-room size s = ground (arith, length-take size (array s), length-replicate size zero)

  -- With enough bytes on the stream `ReadFull` takes the first of them and leaves the others.
  pub read_full_lem :
      (size : ℕ) (m : Message) (stream : Bytes)
      → size ≤ length stream
      → (b : Slice) × (read_full env size (m, stream)
          ≡ ((record m { bytes = b }, drop size stream), ok tt))
        × (b.content ≡ take size stream)
  unfolding read_full
  read_full_lem size m stream enough = (
    overwrite (room env size m.bytes) (take size stream),
    rw (ge→ltb (length stream) size enough) refl,
    content-overwrite_full (room env size m.bytes) (take size stream)
        (omega (arith, length-take size stream, length-room size m.bytes)),
  )

  -- With fewer it reads them all and reports a short buffer.
  pub read_full_short :
      (size : ℕ) (m : Message) (stream : Bytes)
      → length stream < size
      → (b : Slice) × (read_full env size (m, stream)
          ≡ ((record m { bytes = b }, []), err short_buffer))
  unfolding read_full
  read_full_short size m stream short = (
    overwrite (room env size m.bytes) (take size stream),
    rw (lt→ltb (length stream) size short, drop_all size stream (omega arith)) refl,
  )

  -- So `Write` of a positive size decompresses the first bytes of a long enough stream.
  pub write_lem :
      (n : ℕ) (m : Message) (stream : Bytes)
      → m.head.size ≡ pos n
      → 0 < n
      → n ≤ length stream
      → (b : Slice) × (b.content ≡ take n stream)
        × (write env (m, stream) ≡ (
          ((decompress env (record m { bytes = b })).0, drop n stream),
          (decompress env (record m { bytes = b })).1,
        ))
  unfolding write
  write_lem zero m stream size positive enough = absurd (omega arith)
  write_lem (suc n) m stream size positive enough =
      let (b, e, c) = read_full_lem (suc n) m stream enough in
      (
        b,
        c,
        ap (λ z. write_size env z (m, stream)) size
            ∙ unfold write_size in ap (continue (λ _. decompress_at env)) e,
      )

  -- And on a shorter one it fails, with the stream used up.
  pub write_short :
      (n : ℕ) (m : Message) (stream : Bytes)
      → m.head.size ≡ pos n
      → length stream < n
      → (m' : Message) × (write env (m, stream) ≡ ((m', []), err short_buffer))
  unfolding write
  write_short zero m stream size short = absurd (omega arith)
  write_short (suc n) m stream size short =
      let (b, e) = read_full_short (suc n) m stream short in
      (
        record m { bytes = b },
        ap (λ z. write_size env z (m, stream)) size
            ∙ unfold write_size in ap (continue (λ _. decompress_at env)) e,
      )
