-- ===== src/Primatives/VarInt/Write.antt =====
-- `VarInt::to_writer`: what it writes.
use protocraft_framework.Prelude.{
  ℕ, zero, suc, ◌+◌, ◌-◌, ◌*◌, ◌/◌, ◌%◌, ◌^◌, ◌<◌, ◌≤◌, ◌≡◌, List, [], ◌∷◌, ◌++◌, sym, ap, ◌∙◌,
  bit_and, bit_or, arith, ltb, ltb→lt, false, append_assoc, ◌==◌, Bool-cases, inl, inr, subst,
}
use protocraft_framework.Prelude.Bits.{bit_and-low, bit_and-high, bit_or-shifted}
use protocraft_framework.Traits.{Writer}
use protocraft_framework.Traits.Contract.{IsSink, Writes, Writes-write_bytes, write_bytes}
use protocraft_framework.Primatives.VarInt.{
  varint, write_loop, write_varint, upper_mask, segment_mask, continue_mask,
}
use protocraft_framework.Primatives.VarInt.Spec.{base128, varint_bytes}
use native.Mathlib.Nat.{div-div-eq-div-mul, pow-suc}

-- The test `remaining & !SEGMENT_MASK` looks at what lies above the lowest seven bits.
upper_bits : (r : ℕ) → r < 2 ^ 32 → bit_and r upper_mask ≡ r / 128 * 128
upper_bits r h =
    bit_and-high 7 r (2 ^ 25 - 1)
    ∙ ap (λ (t : ℕ). t * 128) (bit_and-low 25 (r / 2 ^ 7) ∙ omega arith)

continued : (r : ℕ) → bit_or (bit_and r segment_mask % 256) continue_mask ≡ r % 128 + 128
continued r = omega (arith, bit_and-low 7 r, bit_or-shifted 7 (bit_and r segment_mask % 256) 1)

seven_more : (i : ℕ) → 2 ^ ((i + 1) * 7) ≡ 2 ^ (i * 7) * 128
seven_more i =
    let bits : (i + 1) * 7 ≡ suc (suc (suc (suc (suc (suc (suc (i * 7))))))) = omega arith in
    rw (bits, pow-suc, pow-suc, pow-suc, pow-suc, pow-suc, pow-suc, pow-suc) (omega arith)

next_remaining : (v i : ℕ) → v / 2 ^ ((i + 1) * 7) ≡ v / 2 ^ (i * 7) / 128
next_remaining v i = rw (seven_more i, div-div-eq-div-mul)

module _ {E W : Type 0} (wr : Writer E W) (v : ℕ) where
  -- The round that writes the buffer.
  write_loop_last :
      (left i : ℕ) (buf : List ℕ)
      → v / 2 ^ (i * 7) < 128
      → write_loop wr v (suc left) i buf ≡ write_bytes wr (buf ++ (v / 2 ^ (i * 7) ∷ []))
  unfolding write_loop
  write_loop_last left i buf h =
      let low : v / 2 ^ (i * 7) % 256 ≡ v / 2 ^ (i * 7) = omega arith in
      let test : bit_and (v / 2 ^ (i * 7)) upper_mask ≡ 0 =
        omega (arith, upper_bits (v / 2 ^ (i * 7)) (omega arith)) in
      rw (test, low)

  -- The round that sets the continuation bit and goes on.
  write_loop_more :
      (left i : ℕ) (buf : List ℕ)
      → 128 ≤ v / 2 ^ (i * 7)
      → v / 2 ^ (i * 7) < 2 ^ 32
      → write_loop wr v (suc left) i buf
        ≡ write_loop wr v left (i + 1) (buf ++ ((v / 2 ^ (i * 7) % 128 + 128) ∷ []))
  unfolding write_loop
  write_loop_more left i buf h h32 =
      let test : (bit_and (v / 2 ^ (i * 7)) upper_mask == 0) ≡ false =
        ground (arith, upper_bits (v / 2 ^ (i * 7))) in
      rw (test, continued)

  write_loop_lem :
      (k i : ℕ) (buf : List ℕ)
      → v / 2 ^ (i * 7) < 128 ^ suc k
      → v / 2 ^ (i * 7) < 2 ^ 32
      → write_loop wr v (suc k) i buf ≡ write_bytes wr (buf ++ base128 k (v / 2 ^ (i * 7)))
  write_loop_lem zero i buf h h32 = write_loop_last zero i buf (omega arith)
  write_loop_lem (suc k) i buf h h32 = elim (Bool-cases (ltb (v / 2 ^ (i * 7)) 128)) [
    | inl last ↦ rw last (write_loop_last (suc k) i buf (ltb→lt _ _ last))
    | inr more ↦ rw more (
        write_loop_more (suc k) i buf (ground arith) h32
        ∙ write_loop_lem k (i + 1) _ (rw next_remaining (omega (arith, pow-suc 128 (suc k))))
            (rw next_remaining (omega arith))
        ∙ rw (append_assoc, next_remaining))
  ]

  -- An `i32` is written as its base 128 digits, and the error that the code calls impossible is.
  write_varint_lem : v < 2 ^ 32 → write_varint wr (varint v) ≡ write_bytes wr (varint_bytes v)
  unfolding write_varint
  write_varint_lem h =
      let whole : v / 1 ≡ v = omega arith in
      rw whole at (write_loop_lem 4 0 [] (omega arith) (omega arith))

-- `to_writer` appends the bytes of the wire format, on every writer that keeps the contract.
pub Writes-write_varint :
    {E W : Type 0} (wr : Writer E W) (Fed : W → List ℕ → Type 0) (v : ℕ)
    → IsSink wr Fed
    → v < 2 ^ 32
    → Writes Fed (write_varint wr (varint v)) (varint_bytes v)
Writes-write_varint wr Fed v s h =
    subst (λ m. Writes Fed m (varint_bytes v)) (sym (write_varint_lem wr v h))
      (Writes-write_bytes wr Fed (varint_bytes v) s)
