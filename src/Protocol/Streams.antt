-- ===== src/Protocol/Streams.antt =====
-- src/traits.rs: what a stream provider gives the protocol handler. A Rust reader that borrows
-- another one becomes a pair of functions: one that opens it over the outer reader, and one that
-- gives the outer reader back when the borrow ends.
pub mod Contract
pub mod Memory
pub mod MemoryWriter
use protocraft_framework.Prelude.{ℕ, Option}
use protocraft_framework.Error.{Out, Action}
use protocraft_framework.Traits.{Reader, BoundedReader, Writer}

-- `BoundableDecompressableReader`, `DecompressableReader` and `BoundableReader`:
-- base reader, bounded reader, decompressing reader, bounded decompressing reader.
pub record ReadStream : Type 1 where
  pub Error : Type 0
  pub Base : Type 0
  pub Bounded : Type 0
  pub Decompress : Type 0
  pub Inner : Type 0
  pub base : Reader Error Base
  pub bounded : BoundedReader Error Bounded
  pub decompress : Reader Error Decompress
  pub inner : BoundedReader Error Inner
  pub with_bound : ℕ → Base → Bounded
  pub end_bound : Bounded → Base
  pub with_decompression : Bounded → Decompress
  pub end_decompression : Decompress → Bounded
  pub with_inner_bound : ℕ → Decompress → Inner
  pub end_inner_bound : Inner → Decompress

-- `CompressableWriter` with its `PreCompressionWriter` and `CompressionWriter`.
-- `drop_pre` is the end of the borrow where an error returns before `finish`.
pub record WriteStream : Type 1 where
  pub Error : Type 0
  pub Base : Type 0
  pub Pre : Type 0
  pub Compress : Type 0
  pub Payload : Type 0
  pub Level : Type 0
  pub base : Writer Error Base
  pub pre : Writer Error Pre
  pub compress : Writer Error Compress
  pub pre_compression_writer : Level → Base → Pre
  pub finish : Pre → Out Base Error (ℕ × Payload)
  pub drop_pre : Pre → Base
  pub with_compression : Level → Base → Compress
  pub initialize : Payload → Action Compress Error (Unit {0})
  pub end_compression : Compress → Base

-- What runs inside the borrow of an inner object.
abbrev pub scoped : {S T E A : Type 0} → (S → T) → (T → S) → Action T E A → Action S E A
scoped enter leave m s = let o = m (enter s) in record { result = o.result; state = leave o.state }
