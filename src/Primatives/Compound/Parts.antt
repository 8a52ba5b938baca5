-- ===== src/Primatives/Compound/Parts.antt =====
-- The basic types as parts of compound ones.
use protocraft_framework.Prelude.{ℕ, ◌^◌, ◌<◌, sym}
use protocraft_framework.Primatives.Int.{
  to_be_bytes, primative_from_reader, primative_to_writer, primative_serializable,
}
use protocraft_framework.Primatives.Int.Laws.{
  Reads-read_primative, Writes-write_primative, length-to_be_bytes,
}
use protocraft_framework.Primatives.VarInt.{
  varint_from_reader, varint_to_writer, varint_serializable,
}
use protocraft_framework.Primatives.VarInt.Spec.{varint_bytes}
use protocraft_framework.Primatives.VarInt.Read.{Reads-read_varint}
use protocraft_framework.Primatives.VarInt.Write.{Writes-write_varint}
use protocraft_framework.Primatives.VarInt.Size.{length-varint_bytes}
use protocraft_framework.Primatives.Compound.Codec.{IsCodec}

pub primative-IsCodec :
    (n : ℕ)
    → IsCodec
        (primative_from_reader n)
        (primative_to_writer n)
        (primative_serializable n)
        (λ v. v.bits < 256 ^ n)
        (λ v. to_be_bytes n v.bits)
primative-IsCodec n = record {
  reads = λ io Holds s v fits. Reads-read_primative io Holds s n v.bits fits;
  writes = λ wr Fed s v fits. Writes-write_primative wr Fed s n v;
  size_lem = λ v fits. sym (length-to_be_bytes n v.bits);
}

pub varint-IsCodec :
    IsCodec varint_from_reader varint_to_writer varint_serializable
      (λ v. v.bits < 2 ^ 32)
      (λ v. varint_bytes v.bits)
varint-IsCodec = record {
  reads = λ io Holds s v fits. Reads-read_varint io Holds s v.bits fits;
  writes = λ wr Fed s v fits. Writes-write_varint wr Fed v.bits s fits;
  size_lem = λ v fits. sym (length-varint_bytes v.bits fits);
}
