-- ===== src/Primatives/HandshakeVersion/Standard.antt =====
-- The modern handshake of src/primatives/handshake_version.rs: the length that is read.
use protocraft_framework.Prelude.{
  ℕ, zero, suc, ◌+◌, ◌*◌, ◌/◌, ◌%◌, ◌^◌, ◌<◌, ◌≤◌, ◌≡◌, ◌≢◌, List, [], ◌∷◌, ap, ◌∙◌, bit_and, arith,
  ltb, ltb→lt, ◌==◌, leb, Bool-cases, inl, inr, true, false, ne→==,
}
use protocraft_framework.Prelude.Bits.{bit_and-low, bit_or-above, one-bit_or}
use protocraft_framework.Error.{Result, ReadError}
use protocraft_framework.Traits.{Reader}
use protocraft_framework.Traits.Contract.{
  IsSource, Yields, Reads, Reads-pure, Reads->>=, Reads-then,
}
use protocraft_framework.Primatives.Int.{read_primative}
use protocraft_framework.Primatives.Int.Laws.{Reads-read_u8}
use protocraft_framework.Primatives.VarInt.{add_segment, continue_mask}
use protocraft_framework.Primatives.VarInt.Spec.{base128}
use protocraft_framework.Primatives.VarInt.Read.{
  continue_bit, add_last, add_group, steps, split_digit, digit_below,
}
use protocraft_framework.Primatives.HandshakeVersion.{
  standard, read_length, read_standard, read_handshake_version, later_offsets,
}
use native.Mathlib.Nat.{pow-suc, mod-eq_of_lt}

-- The first byte keeps its continuation bit, which the group of the second byte meets.
first_segment :
    (lo b : ℕ) → lo < 128 → add_segment (lo + 128) b 7 ≡ lo + (b % 128 / 2 * 2 + 1) * 128
first_segment lo b h =
    let fits : b % 128 * 128 < 2 ^ 32 = omega arith in
    rw (bit_and-low 7 b, mod-eq_of_lt fits)
      (bit_or-above 7 lo 1 (b % 128) h ∙ ap (λ (t : ℕ). lo + t * 128) (one-bit_or (b % 128)))

module _ {E R : Type 0} (io : Reader E R) (Holds : R → List ℕ → Type 0)
    (s : IsSource io Holds) where
  Reads-read_length_last :
      (offset : ℕ) (later : List ℕ) (value b : ℕ)
      → b < 128
      → Reads Holds (read_length io (offset ∷ later) value) (b ∷ []) (add_segment value b offset)
  unfolding read_length
  Reads-read_length_last offset later value b hb =
      Reads->>= Holds (read_primative 1 io) _ (b ∷ []) [] (record { bits = b }) _
        (Reads-read_u8 io Holds s b (omega arith)) (rw stop (Reads-pure Holds _))
    where
      stop : (bit_and b continue_mask == 0) ≡ true
      stop = ground (arith, continue_bit b)

  Yields-read_length_more :
      (offset : ℕ) (later : List ℕ) (value b : ℕ) (ys : List ℕ) (res : Result (ReadError E) ℕ)
      → 128 ≤ b
      → b < 256
      → Yields Holds (read_length io later (add_segment value b offset)) ys res
      → Yields Holds (read_length io (offset ∷ later) value) (b ∷ ys) res
  unfolding read_length
  Yields-read_length_more offset later value b ys res lo hi rest =
      Reads->>= Holds (read_primative 1 io) _ (b ∷ []) ys (record { bits = b }) res
        (Reads-read_u8 io Holds s b hi) (rw more rest)
    where
      more : (bit_and b continue_mask == 0) ≡ false
      more = ground (arith, continue_bit b)

  -- Beyond the second byte the groups do not meet.
  Reads-read_length :
      (k q o value : ℕ)
      → q < 128 ^ suc k
      → value < 2 ^ o
      → value + q * 2 ^ o < 2 ^ 32
      → Reads Holds (read_length io (steps (suc k) o) value) (base128 k q) (value + q * 2 ^ o)
  Reads-read_length zero q o value hq low fits =
      rw (← add_last value q o (omega arith) low (omega arith))
        (Reads-read_length_last o [] value q (omega arith))
  Reads-read_length (suc k) q o value hq low fits = elim (Bool-cases (ltb q 128)) [
    | inl small ↦
        rw (small, ← add_last value q o (ltb→lt q 128 small) low (omega arith))
          (Reads-read_length_last o (steps (suc k) (o + 7)) value q (ltb→lt q 128 small))
    | inr large ↦
        rw (large, whole)
          (Yields-read_length_more o (steps (suc k) (o + 7)) value (q % 128 + 128)
            (base128 k (q / 128)) _ (omega arith) (omega arith)
            (rw (add_group value (q % 128) o (omega arith) low (omega (arith, split_digit q o))) (
              Reads-read_length k (q / 128) (o + 7) (value + q % 128 * 2 ^ o)
                (omega (arith, pow-suc 128 (suc k)))
                (digit_below value (q % 128) o (omega arith) low)
                (omega (arith, split_digit q o)))))
  ]
    where
      whole : value + q * 2 ^ o ≡ value + q % 128 * 2 ^ o + q / 128 * 2 ^ (o + 7)
      whole = omega (arith, split_digit q o)

  -- The groups after a first byte with the digit `lo`: the lowest bit of `q` comes out set.
  Reads-read_length_first :
      (lo q : ℕ)
      → lo < 128
      → q < 2 ^ 21
      → Reads Holds
          (read_length io later_offsets (lo + 128))
          (base128 2 q)
          (lo + (q / 2 * 2 + 1) * 128)
  Reads-read_length_first lo q hlo hq = elim (Bool-cases (ltb q 128)) [
    | inl small ↦
        let low : q < 128 = ltb→lt q 128 small in
        let digit : q % 128 ≡ q = omega arith in
        rw (small, ← (rw digit at (first_segment lo q hlo)))
          (Reads-read_length_last 7 (14 ∷ 21 ∷ []) (lo + 128) q low)
    | inr large ↦
        rw (large, whole)
          (Yields-read_length_more 7 (14 ∷ 21 ∷ []) (lo + 128) (q % 128 + 128) (base128 1 (q / 128))
            _ (omega arith) (omega arith)
            (rw (first_segment lo (q % 128 + 128) hlo, digit)
              (Reads-read_length 1 (q / 128) 14 (lo + (q % 128 / 2 * 2 + 1) * 128) (omega arith)
                (omega arith) (omega arith))))
  ]
    where
      digit : (q % 128 + 128) % 128 ≡ q % 128
      digit = omega arith

      whole : lo + (q / 2 * 2 + 1) * 128 ≡ lo + (q % 128 / 2 * 2 + 1) * 128 + q / 128 * 2 ^ 14
      whole = omega arith

  Reads-read_standard :
      (b n : ℕ) (bs : List ℕ)
      → n < 2 ^ 31
      → 128 ≤ b
      → b < 256
      → Reads Holds (read_length io later_offsets b) bs n
      → Reads Holds (read_standard io b) bs (standard n)
  unfolding read_standard
  Reads-read_standard b n bs small lo hi h = rw more (
      Reads-then Holds (read_length io later_offsets b) _ bs n _ h
        (rw positive (Reads-pure Holds (standard n))))
    where
      positive : leb (2 ^ 31) n ≡ false
      positive = ground arith

      more : (bit_and b continue_mask == 0) ≡ false
      more = ground (arith, continue_bit b)

  -- A first byte that is not FE and has no continuation bit is the length.
  pub Reads-read_handshake_version_short :
      (n : ℕ) → n < 128 → Reads Holds (read_handshake_version io) (n ∷ []) (standard n)
  unfolding read_handshake_version
  Reads-read_handshake_version_short n h =
      Reads-then Holds (read_primative 1 io) _ (n ∷ []) (record { bits = n }) _
        (Reads-read_u8 io Holds s n (omega arith))
        (rw (ne→== n 0xFE (omega arith))
          (unfold read_standard in rw (stop, positive) (Reads-pure Holds (standard n))))
    where
      stop : (bit_and n continue_mask == 0) ≡ true
      stop = ground (arith, continue_bit n)

      positive : leb (2 ^ 31) n ≡ false
      positive = ground arith

  -- The length that is read from the wire format of `v`.
  pub Reads-read_handshake_version_long :
      (v : ℕ)
      → 128 ≤ v
      → v < 2 ^ 28
      → v % 128 ≢ 126
      → Reads Holds
          (read_handshake_version io)
          (base128 3 v)
          (standard (v % 128 + (v / 128 / 2 * 2 + 1) * 128))
  unfolding read_handshake_version
  Reads-read_handshake_version_long v lo hi ne = rw large (
      Reads->>= Holds (read_primative 1 io) _ ((v % 128 + 128) ∷ []) (base128 2 (v / 128))
        (record { bits = v % 128 + 128 }) _ (Reads-read_u8 io Holds s (v % 128 + 128) (omega arith))
        (rw (ne→== (v % 128 + 128) 0xFE (omega arith)) (
          Reads-read_standard (v % 128 + 128) _ (base128 2 (v / 128)) (omega arith) (omega arith)
            (omega arith)
            (Reads-read_length_first (v % 128) (v / 128) (omega arith) (omega arith)))))
    where
      large : ltb v 128 ≡ false
      large = ground arith
