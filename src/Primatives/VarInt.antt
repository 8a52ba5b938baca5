-- ===== src/Primatives/VarInt.antt =====
-- src/primatives/varint.rs: `VarInt`, an `i32` in groups of seven bits, lowest group first.
pub mod Spec
pub mod Write
pub mod Read
pub mod Size
pub mod RoundTrip
use protocraft_framework.Prelude.{
  ℕ, zero, suc, ◌+◌, ◌*◌, ◌/◌, ◌%◌, ◌^◌, ◌<◌, List, [], ◌∷◌, ◌++◌, bit_and, bit_or, ◌==◌, ltb,
  if◌then◌else◌, Option, none, some,
}
use protocraft_framework.Error.{Action, ReadError, WriteError, pure, throw, ◌>>=◌}
use protocraft_framework.Traits.{Reader, Writer, FromReader, ToWriter, Serializable}
use protocraft_framework.Traits.Contract.{write_bytes}
use protocraft_framework.Primatives.Int.{read_primative}
use mathlib.Core.Option.{get_or}

-- `VarInt(i32)`: the bit pattern of the `i32`, as the code's `as u32` takes it.
pub record VarInt : Type 0 where
  pub bits : ℕ

-- `From<i32>` and `Into<i32>` are the constructor and the field.
abbrev pub varint : ℕ → VarInt
varint i = record { bits = i }

abbrev pub IsI32 : ℕ → Type 0
IsI32 i = i < 2 ^ 32

abbrev pub segment_mask : ℕ
segment_mask = 0x7f

abbrev pub continue_mask : ℕ
continue_mask = 0x80

-- `(0..32).step_by(7)`.
abbrev offsets : List ℕ
offsets = 0 ∷ 7 ∷ 14 ∷ 21 ∷ 28 ∷ []

-- `value |= (curr & SEGMENT_MASK) << offset`, in a `u32`.
abbrev pub add_segment : ℕ → ℕ → ℕ → ℕ
add_segment value curr offset = bit_or value (bit_and curr segment_mask * 2 ^ offset % 2 ^ 32)

module _ {E R : Type 0} (io : Reader E R) where
  -- The `for` loop over the offsets that are left.
  read_loop : List ℕ → ℕ → Action R (ReadError E) VarInt
  read_loop [] value = throw (ReadError.over_sized "varint" 5 6)
  read_loop (offset ∷ later) value = do
    curr ← read_primative 1 io
    let value' = add_segment value curr.bits offset
    let rest = read_loop later value'
    if bit_and curr.bits continue_mask == 0 then pure (varint value') else rest

  pub read_varint : Action R (ReadError E) VarInt
  read_varint = read_loop offsets 0

-- `u32::ilog2` of a number that is not 0, with a step for each bit.
ilog2 : ℕ → ℕ → ℕ
ilog2 zero n = 0
ilog2 (suc bits) n = let rest = ilog2 bits (n / 2) in if ltb n 2 then 0 else suc rest

-- `u32::checked_ilog2`.
checked_ilog2 : ℕ → Option ℕ
checked_ilog2 n = if n == 0 then none else some (ilog2 32 n)

pub varint_size : VarInt → ℕ
unfolding checked_ilog2
varint_size v = get_or (checked_ilog2 v.bits) 0 / 7 + 1

-- `!SEGMENT_MASK`, as a `u32`.
abbrev upper_mask : ℕ
upper_mask = 0xffff_ff80

module _ {E W : Type 0} (wr : Writer E W) (v : ℕ) where
  -- The `for` loop over the bytes of the buffer that are left, from `index` on, with `buf[..index]`.
  write_loop : ℕ → ℕ → List ℕ → Action W (WriteError E) (Unit {0})
  write_loop zero index buf = throw WriteError.malformed_var_int
  write_loop (suc left) index buf =
      let remaining = v / 2 ^ (index * 7) in
      let masked = bit_and remaining segment_mask in
      let rest = write_loop left (index + 1) (buf ++ (bit_or (masked % 256) continue_mask ∷ [])) in
      if bit_and remaining upper_mask == 0
      then write_bytes wr (buf ++ (remaining % 256 ∷ []))
      else rest

pub write_varint : {E W : Type 0} → Writer E W → VarInt → Action W (WriteError E) (Unit {0})
write_varint wr v = write_loop wr v.bits 5 0 []

instance abbrev pub varint_from_reader : FromReader VarInt
varint_from_reader = record { from_reader = λ io. read_varint io }

instance abbrev pub varint_to_writer : ToWriter VarInt
varint_to_writer = record { to_writer = λ wr v. write_varint wr v }

instance abbrev pub varint_serializable : Serializable VarInt
varint_serializable = record { size = varint_size }
