-- ===== src/Primatives/HandshakeVersion.antt =====
-- src/primatives/handshake_version.rs: which kind of handshake a client opens with.
pub mod Legacy
pub mod Standard
pub mod Lengths
use protocraft_framework.Prelude.{
  ℕ, ◌+◌, ◌^◌, List, [], ◌∷◌, Bool, true, false, not, ◌&&◌, bit_and, ◌==◌, leb, if◌then◌else◌,
  Option, none, some,
}
use protocraft_framework.Error.{Action, ReadError, pure, throw, guard, ◌>>=◌, ◌>>◌}
use protocraft_framework.Traits.{Reader, FromReader}
use protocraft_framework.Traits.Contract.{read_bytes, try_read_byte}
use protocraft_framework.Primatives.Int.{read_primative, from_be_bytes}
use protocraft_framework.Primatives.VarInt.{add_segment, continue_mask}

-- The number is the length of what follows, in bytes.
pub data HandshakeVersion : Type 0 where
  standard : ℕ → HandshakeVersion
  legacy1_6 : ℕ → HandshakeVersion
  pre1_6 : HandshakeVersion
  pre1_3 : HandshakeVersion

-- "MC|PingHost" in UTF-16BE.
abbrev pub ping_host : List ℕ
ping_host =
    0x00 ∷ 0x4D ∷ 0x00 ∷ 0x43 ∷ 0x00 ∷ 0x7C ∷ 0x00 ∷ 0x50 ∷ 0x00 ∷ 0x69 ∷ 0x00 ∷ 0x6E ∷ 0x00 ∷ 0x67
    ∷ 0x00 ∷ 0x48 ∷ 0x00 ∷ 0x6F ∷ 0x00 ∷ 0x73 ∷ 0x00 ∷ 0x74 ∷ []

-- `==` of byte arrays.
abbrev bytes_eq : List ℕ → List ℕ → Bool
bytes_eq [] [] = true
bytes_eq [] (y ∷ ys) = false
bytes_eq (x ∷ xs) [] = false
bytes_eq (x ∷ xs) (y ∷ ys) = x == y && bytes_eq xs ys

-- `(7..24).step_by(7)`.
abbrev later_offsets : List ℕ
later_offsets = 7 ∷ 14 ∷ 21 ∷ []

module _ {E R : Type 0} (io : Reader E R) where
  -- After the three bytes FE 01 FA.
  read_ping_host : Action R (ReadError E) HandshakeVersion
  read_ping_host = do
    channel_length ← read_bytes io 2
    guard (from_be_bytes 0 channel_length == 0x0B) ReadError.malformed_legacy_ping
    channel ← read_bytes io 22
    guard (bytes_eq channel ping_host) ReadError.malformed_legacy_ping
    data_length ← read_bytes io 2
    let bound = from_be_bytes 0 data_length
    guard (not (leb (2 ^ 15) bound)) (ReadError.negative_length "legacy_ping_bound")
    pure (HandshakeVersion.legacy1_6 bound)

  -- After FE 01: the second `try_read_byte!`.
  read_channel : Option ℕ → Action R (ReadError E) HandshakeVersion
  read_channel none = pure HandshakeVersion.pre1_6
  read_channel (some channel_byte) = do
    guard (channel_byte == 0xFA) ReadError.malformed_legacy_ping
    read_ping_host

  -- After FE: the first `try_read_byte!`.
  read_legacy : Option ℕ → Action R (ReadError E) HandshakeVersion
  read_legacy none = pure HandshakeVersion.pre1_3
  read_legacy (some next_byte) = do
    guard (next_byte == 0x01) ReadError.malformed_legacy_ping
    channel ← try_read_byte io
    read_channel channel

  -- The `for` loop over the offsets that are left; `ok` stays false where they run out.
  read_length : List ℕ → ℕ → Action R (ReadError E) ℕ
  read_length [] value = throw (ReadError.over_sized "handshake_varint" 3 4)
  read_length (offset ∷ later) value = do
    curr ← read_primative 1 io
    let value' = add_segment value curr.bits offset
    let rest = read_length later value'
    if bit_and curr.bits continue_mask == 0 then pure value' else rest

  -- The length that starts with `first_byte`.
  read_standard : ℕ → Action R (ReadError E) HandshakeVersion
  read_standard first_byte = do
    value ←
        if bit_and first_byte continue_mask == 0
        then pure first_byte
        else read_length later_offsets first_byte
    guard (not (leb (2 ^ 31) value)) (ReadError.negative_length "handshake_varint")
    pure (HandshakeVersion.standard value)

  pub read_handshake_version : Action R (ReadError E) HandshakeVersion
  read_handshake_version = do
    first_byte ← read_primative 1 io
    let legacy = try_read_byte io >>= read_legacy
    if first_byte.bits == 0xFE then legacy else read_standard first_byte.bits

instance abbrev pub handshake_version_from_reader : FromReader HandshakeVersion
handshake_version_from_reader = record { from_reader = λ io. read_handshake_version io }
