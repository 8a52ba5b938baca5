-- ===== src/Tests/Codecs.antt =====
-- The codecs on concrete bytes.
use protocraft_framework.Prelude.{ℕ, ◌≤◌, ◌≡◌, refl, List, [], ◌∷◌, length, arith}
use protocraft_framework.Error.{done, fail, ReadError}
use protocraft_framework.Traits.Memory.{
  slice, Spells, slice-IsSource, slice-HasArrived, vec, vec-IsSink,
}
use protocraft_framework.Primatives.Int.{read_primative, write_primative, to_be_bytes}
use protocraft_framework.Primatives.Int.Laws.{read_primative-write_primative}
use protocraft_framework.Primatives.VarInt.{varint, varint_size, read_varint, write_varint}
use protocraft_framework.Primatives.VarInt.Spec.{varint_bytes}
use protocraft_framework.Primatives.VarInt.RoundTrip.{
  read_varint-varint_bytes, write_varint-varint_bytes, read_varint-over_sized,
}
use protocraft_framework.Primatives.HandshakeVersion.{standard, read_handshake_version}
use protocraft_framework.Primatives.HandshakeVersion.Lengths.{
  read_handshake_version-length, read_handshake_version-malformed,
}
use mathlib.Core.Logic.{inr}

read_primative-write_primative_example :
    (r' : List ℕ) × (w' : List ℕ) × (length (to_be_bytes 2 0x0709) ≡ 2)
    × (write_primative 2 vec (record { bits = 0x0709 }) [] ≡ done tt w')
    × (w' ≡ 7 ∷ 9 ∷ [])
    × (read_primative 2 slice (7 ∷ 9 ∷ 1 ∷ []) ≡ done (record { bits = 0x0709 }) r')
    × (r' ≡ 1 ∷ [])
read_primative-write_primative_example =
    read_primative-write_primative slice Spells vec Spells 2 0x0709 (7 ∷ 9 ∷ 1 ∷ []) (1 ∷ []) [] []
      slice-IsSource vec-IsSink (omega arith) refl refl

-- The largest `i32`, and a byte after it.
read_varint-varint_bytes_example :
    (r' : List ℕ) × (read_varint slice (0xFF ∷ 0xFF ∷ 0xFF ∷ 0xFF ∷ 0x07 ∷ 9 ∷ [])
      ≡ done (varint 0x7FFF_FFFF) r')
    × (r' ≡ 9 ∷ [])
read_varint-varint_bytes_example =
    read_varint-varint_bytes slice Spells slice-IsSource 0x7FFF_FFFF
      (0xFF ∷ 0xFF ∷ 0xFF ∷ 0xFF ∷ 0x07 ∷ 9 ∷ []) (9 ∷ []) (omega arith) refl

-- -1, after a byte that is there.
write_varint-varint_bytes_example :
    (w' : List ℕ) × (write_varint vec (varint 0xFFFF_FFFF) (9 ∷ []) ≡ done tt w')
    × (w' ≡ 9 ∷ 0xFF ∷ 0xFF ∷ 0xFF ∷ 0xFF ∷ 0x0F ∷ [])
    × (length (varint_bytes 0xFFFF_FFFF) ≡ varint_size (varint 0xFFFF_FFFF))
    × (1 ≤ varint_size (varint 0xFFFF_FFFF))
    × (varint_size (varint 0xFFFF_FFFF) ≤ 5)
write_varint-varint_bytes_example =
    write_varint-varint_bytes vec Spells vec-IsSink 0xFFFF_FFFF (9 ∷ []) (9 ∷ []) (omega arith) refl

read_varint-over_sized_example :
    (r' : List ℕ) × (read_varint slice (128 ∷ 128 ∷ 255 ∷ 128 ∷ 128 ∷ 1 ∷ [])
      ≡ fail (ReadError.over_sized "varint" 5 6) r')
    × (r' ≡ 1 ∷ [])
read_varint-over_sized_example =
    read_varint-over_sized slice Spells slice-IsSource (128 ∷ 128 ∷ 255 ∷ 128 ∷ 128 ∷ []) (1 ∷ [])
      (128 ∷ 128 ∷ 255 ∷ 128 ∷ 128 ∷ 1 ∷ []) refl (omega arith) refl

-- The length 256 is read as 384.
read_handshake_version-length_example :
    (r' : List ℕ) × (read_handshake_version slice (0x80 ∷ 0x02 ∷ 0x00 ∷ [])
      ≡ done (standard 384) r')
    × (r' ≡ 0x00 ∷ [])
read_handshake_version-length_example =
    read_handshake_version-length slice Spells slice-IsSource 256 (0x80 ∷ 0x02 ∷ 0x00 ∷ [])
      (0x00 ∷ []) (omega arith) (omega arith) (omega arith) refl

read_handshake_version-malformed_example :
    (r' : List ℕ) × (read_handshake_version slice (0xFE ∷ 0x01 ∷ 0x02 ∷ 0x03 ∷ [])
      ≡ fail ReadError.malformed_legacy_ping r')
    × (r' ≡ 0x03 ∷ [])
read_handshake_version-malformed_example =
    read_handshake_version-malformed slice Spells slice-IsSource slice-HasArrived 0x02
      (0xFE ∷ 0x01 ∷ 0x02 ∷ []) (0x03 ∷ []) (0xFE ∷ 0x01 ∷ 0x02 ∷ 0x03 ∷ [])
      (inr (refl, omega arith)) refl
