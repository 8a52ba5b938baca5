-- ===== src/Protocol/Streams/Contract.antt =====
-- What src/traits.rs documents of the streams of a provider.
use protocraft_framework.Prelude.{
  ℕ, ◌+◌, ◌-◌, ◌≤◌, ◌≡◌, List, [], ◌++◌, length, length-append, append_assoc, subst, arith,
}
use protocraft_framework.Error.{done}
use protocraft_framework.Traits.{BoundedReader}
use protocraft_framework.Traits.Contract.{IsSource, IsSink, IsFlushing}
use protocraft_framework.Protocol.Streams.{ReadStream, WriteStream}

-- A bounded reader, "analogous to `std::io::Take`": `Holds r n bs` says that `r` may still read `n`
-- bytes of a stream that is about to yield `bs`.
pub record IsBounded {E R : Type 0} (br : BoundedReader E R) (Holds : R → ℕ → List ℕ → Type 0)
    : Type 0 where
  pub read_within :
      (r : R) (n : ℕ) (bs rest : List ℕ)
      → Holds r n (bs ++ rest)
      → length bs ≤ n
      → (r' : R) × (br.reader.read_exact (length bs) r ≡ done bs r') × Holds r' (n - length bs) rest
  pub discard_within :
      (r : R) (n : ℕ) (bs rest : List ℕ)
      → Holds r n (bs ++ rest)
      → length bs ≤ n
      → (r' : R) × (br.reader.discard (length bs) r ≡ done tt r') × Holds r' (n - length bs) rest
  pub remaining_lem : (r : R) (n : ℕ) (bs : List ℕ) → Holds r n bs → br.remaining r ≡ n

-- The readers of a provider. `Inflates z d`: `z` is a ZLib stream of the data `d`.
pub record IsReadStream (st : ReadStream) : Type 1 where
  pub Holds : st.Base → List ℕ → Type 0
  pub BoundedHolds : st.Bounded → ℕ → List ℕ → Type 0
  -- `DecompressHolds r z d after`: a decompressing reader that was opened over the ZLib stream `z`, of
  -- which the data `d` is still to come, in a stream that goes on with `after`.
  pub DecompressHolds : st.Decompress → List ℕ → List ℕ → List ℕ → Type 0
  -- `InnerHolds r z after n d`: one that may still read `n` bytes of that data.
  pub InnerHolds : st.Inner → List ℕ → List ℕ → ℕ → List ℕ → Type 0
  pub Inflates : List ℕ → List ℕ → Type 0
  pub base_source : IsSource st.base Holds
  pub bounded_lem : IsBounded st.bounded BoundedHolds
  pub inner_lem : (z after : List ℕ) → IsBounded st.inner (λ r n bs. InnerHolds r z after n bs)
  pub with_bound_lem :
      (n : ℕ) (r : st.Base) (bs : List ℕ) → Holds r bs → BoundedHolds (st.with_bound n r) n bs
  pub end_bound_lem :
      (r : st.Bounded) (n : ℕ) (bs : List ℕ) → BoundedHolds r n bs → Holds (st.end_bound r) bs
  -- Over exactly a ZLib stream a decompressing reader yields its data.
  pub with_decompression_lem :
      (r : st.Bounded) (z d after : List ℕ)
      → Inflates z d
      → BoundedHolds r (length z) (z ++ after)
      → DecompressHolds (st.with_decompression r) z d after
  -- When all data is read it has taken a part of the stream from the front, and what is left of the
  -- stream is still in the bounded reader.
  pub end_decompression_lem :
      (r : st.Decompress) (z after : List ℕ)
      → DecompressHolds r z [] after
      → (part : List ℕ) × (left : List ℕ) × (part ++ left ≡ z)
        × BoundedHolds (st.end_decompression r) (length left) (left ++ after)
  pub with_inner_bound_lem :
      (n : ℕ) (r : st.Decompress) (z d after : List ℕ)
      → DecompressHolds r z d after
      → InnerHolds (st.with_inner_bound n r) z after n d
  pub end_inner_bound_lem :
      (r : st.Inner) (n : ℕ) (z d after : List ℕ)
      → InnerHolds r z after n d
      → DecompressHolds (st.end_inner_bound r) z d after

-- A bounded reader over the bytes `bs` and `slack` more, in a stream that goes on with `after`.
abbrev pub Window : {R : Type 0} → (R → ℕ → List ℕ → Type 0) → ℕ → List ℕ → R → List ℕ → Type 0
Window Holds slack after r bs = Holds r (length bs + slack) (bs ++ after)

module _ {E R : Type 0} (br : BoundedReader E R) (Holds : R → ℕ → List ℕ → Type 0)
    (b : IsBounded br Holds) (slack : ℕ) (after : List ℕ) where
  window_left : (bs rest : List ℕ) → length (bs ++ rest) + slack - length bs ≡ length rest + slack
  window_left bs rest = omega (arith, length-append bs rest)

  -- Over its window a bounded reader is a source.
  pub IsBounded-IsSource : IsSource br.reader (Window Holds slack after)
  IsBounded-IsSource = record {
    read_all = λ r bs rest h.
        let (r', e, h') =
          b.read_within r (length (bs ++ rest) + slack) bs (rest ++ after)
            (subst (Holds r (length (bs ++ rest) + slack)) (append_assoc bs rest after) h)
            (omega (arith, length-append bs rest)) in
        (r', e, subst (λ n. Holds r' n (rest ++ after)) (window_left bs rest) h');
    discard_all = λ r bs rest h.
        let (r', e, h') =
          b.discard_within r (length (bs ++ rest) + slack) bs (rest ++ after)
            (subst (Holds r (length (bs ++ rest) + slack)) (append_assoc bs rest after) h)
            (omega (arith, length-append bs rest)) in
        (r', e, subst (λ n. Holds r' n (rest ++ after)) (window_left bs rest) h');
  }

-- A window with no slack ends where the bound does.
pub Window-remaining :
    {E R : Type 0} (br : BoundedReader E R) (Holds : R → ℕ → List ℕ → Type 0)
    → IsBounded br Holds
    → (after : List ℕ) (r : R) (bs : List ℕ) → Window Holds 0 after r bs
    → br.remaining r ≡ length bs
Window-remaining br Holds b after r bs h = omega (arith, b.remaining_lem r _ _ h)

-- The writers of a provider. `Deflates d z`: `z` is the ZLib stream that the writer makes of `d`.
pub record IsWriteStream (st : WriteStream) : Type 1 where
  pub Fed : st.Base → List ℕ → Type 0
  pub Sent : st.Base → List ℕ → Type 0
  -- A pre-compression writer over a base writer that was fed `d`.
  pub PreFed : st.Pre → List ℕ → List ℕ → Type 0
  -- A compressing writer for the stream `z`, over a base writer that was fed `d`.
  pub CompressFed : st.Compress → List ℕ → List ℕ → List ℕ → Type 0
  pub Deflated : st.Payload → List ℕ → List ℕ → Type 0
  pub Deflates : List ℕ → List ℕ → Type 0
  pub base_sink : IsSink st.base Fed
  pub base_flushing : IsFlushing st.base Fed Sent
  pub pre_sink : (d : List ℕ) → IsSink st.pre (λ w bs. PreFed w d bs)
  pub compress_sink : (d z : List ℕ) → IsSink st.compress (λ w bs. CompressFed w d z bs)
  -- "It should make no writes to the underlying `Writer`."
  pub pre_compression_writer_lem :
      (level : st.Level) (w : st.Base) (d : List ℕ)
      → Fed w d
      → PreFed (st.pre_compression_writer level w) d []
  -- After a flush: "the length of the compressed data and a payload".
  pub finish_lem :
      (w w' : st.Pre) (d bs : List ℕ)
      → PreFed w d bs
      → st.pre.flush w ≡ done tt w'
      → (z : List ℕ) × (p : st.Payload) × (b : st.Base) × (st.finish w' ≡ done (length z, p) b)
        × Deflates bs z
        × Deflated p bs z
        × Fed b d
  pub initialize_lem :
      (level : st.Level) (w : st.Base) (p : st.Payload) (d bs z : List ℕ)
      → Fed w d
      → Deflated p bs z
      → (w' : st.Compress) × (st.initialize p (st.with_compression level w) ≡ done tt w')
        × CompressFed w' d z []
  -- It receives the same bytes as the pre-compression writer, and has then written the stream.
  pub end_compression_lem :
      (w : st.Compress) (d bs z : List ℕ)
      → Deflates bs z
      → CompressFed w d z bs
      → Fed (st.end_compression w) (d ++ z)
