-- ===== src/Primatives/VarInt/RoundTrip.antt =====
-- `VarInt`: the codec's properties, on every stream that keeps the contract of src/traits.rs.
use protocraft_framework.Prelude.{ℕ, ◌^◌, ◌<◌, ◌≤◌, ◌≡◌, List, ◌++◌, length, All}
use protocraft_framework.Error.{done, fail, ReadError}
use protocraft_framework.Traits.{Reader, Writer}
use protocraft_framework.Traits.Contract.{IsSource, IsSink}
use protocraft_framework.Primatives.VarInt.{varint, varint_size, read_varint, write_varint}
use protocraft_framework.Primatives.VarInt.Spec.{varint_bytes, length-base128}
use protocraft_framework.Primatives.VarInt.Read.{Reads-read_varint, Yields-read_varint_long}
use protocraft_framework.Primatives.VarInt.Write.{Writes-write_varint}
use protocraft_framework.Primatives.VarInt.Size.{length-varint_bytes}

module _ {E R : Type 0} (io : Reader E R) (Holds : R → List ℕ → Type 0)
    (s : IsSource io Holds) where
  -- On a reader that is about to yield the base 128 digits of a 32-bit number `v` and then `rest`,
  -- `from_reader` returns `v` and leaves the reader at `rest`.
  pub read_varint-varint_bytes :
      (v : ℕ) (r : R) (rest : List ℕ)
      → v < 2 ^ 32
      → Holds r (varint_bytes v ++ rest)
      → (r' : R) × (read_varint io r ≡ done (varint v) r') × Holds r' rest
  read_varint-varint_bytes v r rest h holds = Reads-read_varint io Holds s v h r rest holds

  -- On five bytes that all have the continuation bit `from_reader` fails with the error `OverSized`
  -- of maximum 5 and size 6, and it has read no more than these bytes.
  pub read_varint-over_sized :
      (bs rest : List ℕ) (r : R)
      → length bs ≡ 5
      → All (λ b. (128 ≤ b) × (b < 256)) bs
      → Holds r (bs ++ rest)
      → (r' : R) × (read_varint io r ≡ fail (ReadError.over_sized "varint" 5 6) r') × Holds r' rest
  read_varint-over_sized bs rest r len high holds =
      Yields-read_varint_long io Holds s bs len high r rest holds

module _ {E W : Type 0} (wr : Writer E W) (Fed : W → List ℕ → Type 0) (s : IsSink wr Fed) where
  -- `to_writer` of a 32-bit number succeeds, so that the error that the code calls impossible is;
  -- it appends the base 128 digits, which are 1 to 5 bytes and as many as `size` says.
  pub write_varint-varint_bytes :
      (v : ℕ) (w : W) (d : List ℕ)
      → v < 2 ^ 32
      → Fed w d
      → (w' : W) × (write_varint wr (varint v) w ≡ done tt w')
        × Fed w' (d ++ varint_bytes v)
        × (length (varint_bytes v) ≡ varint_size (varint v))
        × (1 ≤ varint_size (varint v))
        × (varint_size (varint v) ≤ 5)
  write_varint-varint_bytes v w d h fed =
      let (w', e, fed') = Writes-write_varint wr Fed v s h w d fed in
      let size = length-varint_bytes v h in
      (w', e, fed', size, rw (← size) (length-base128 4 v).0, rw (← size) (length-base128 4 v).1)
