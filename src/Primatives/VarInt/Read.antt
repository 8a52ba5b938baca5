-- ===== src/Primatives/VarInt/Read.antt =====
-- `VarInt::from_reader`: what it makes of the wire format, and of other bytes.
use protocraft_framework.Prelude.{
  ℕ, zero, suc, ◌+◌, ◌*◌, ◌/◌, ◌%◌, ◌^◌, ◌<◌, ◌≤◌, ◌≡◌, List, [], ◌∷◌, ap, ◌∙◌, bit_and, arith, ltb,
  ltb→lt, ◌==◌, Bool-cases, inl, inr, true, false, length, All,
}
use protocraft_framework.Prelude.Bits.{bit_and-low, bit_and-high, bit_or-shifted}
use protocraft_framework.Error.{Result, err, ReadError}
use protocraft_framework.Traits.{Reader}
use protocraft_framework.Traits.Contract.{
  IsSource, Yields, Yields-throw, Reads, Reads-pure, Reads->>=,
}
use protocraft_framework.Primatives.Int.{read_primative}
use protocraft_framework.Primatives.Int.Laws.{Reads-read_u8}
use protocraft_framework.Primatives.VarInt.{
  VarInt, varint, read_loop, read_varint, add_segment, continue_mask,
}
use protocraft_framework.Primatives.VarInt.Spec.{base128, varint_bytes}
use native.Mathlib.Nat.{div-add-mod, pow-suc, mod-eq_of_lt}
use native.Mathlib.Numerals.{towards_suc}

-- A group of seven bits lands above the bits that are there.
pub add_segment_lem :
    (value b offset : ℕ)
    → value < 2 ^ offset
    → b % 128 * 2 ^ offset < 2 ^ 32
    → add_segment value b offset ≡ value + b % 128 * 2 ^ offset
add_segment_lem value b offset low fits =
    rw (bit_and-low 7 b, mod-eq_of_lt fits) (bit_or-shifted offset value (b % 128) low)

pub add_last :
    (value g offset : ℕ)
    → g < 128
    → value < 2 ^ offset
    → g * 2 ^ offset < 2 ^ 32
    → add_segment value g offset ≡ value + g * 2 ^ offset
add_last value g offset hg low fits =
    let whole : g % 128 ≡ g = omega arith in
    rw whole at (add_segment_lem value g offset low (rw whole fits))

-- The same with the continuation bit set.
pub add_group :
    (value g offset : ℕ)
    → g < 128
    → value < 2 ^ offset
    → g * 2 ^ offset < 2 ^ 32
    → add_segment value (g + 128) offset ≡ value + g * 2 ^ offset
add_group value g offset hg low fits =
    let digit : (g + 128) % 128 ≡ g = omega arith in
    rw digit at (add_segment_lem value (g + 128) offset low (rw digit fits))

-- The continuation bit is the eighth.
pub continue_bit : (b : ℕ) → b < 256 → bit_and b continue_mask ≡ b / 128 * 128
continue_bit b h =
    bit_and-high 7 b 1 ∙ ap (λ (t : ℕ). t * 128) (bit_and-low 1 (b / 2 ^ 7) ∙ omega arith)

-- The first `k` of the offsets from `o` on.
abbrev pub steps : ℕ → ℕ → List ℕ
steps zero o = []
steps (suc k) o = o ∷ steps k (o + 7)

pow-add_seven : (o : ℕ) → 2 ^ (o + 7) ≡ 128 * 2 ^ o
pow-add_seven o = simp towards_suc (omega arith)

-- The lowest digit of `q` and the digits above it, from bit `o` on.
pub split_digit : (q o : ℕ) → q * 2 ^ o ≡ q % 128 * 2 ^ o + q / 128 * 2 ^ (o + 7)
split_digit q o = omega (
  arith,
  ap (λ (t : ℕ). t * 2 ^ o) (div-add-mod q 128),
  ap (λ (t : ℕ). q / 128 * t) (pow-add_seven o),
)

pub digit_below : (value g o : ℕ) → g < 128 → value < 2 ^ o → value + g * 2 ^ o < 2 ^ (o + 7)
digit_below value g o hg hv = rw pow-add_seven (grind arith)

module _ {E R : Type 0} (io : Reader E R) (Holds : R → List ℕ → Type 0)
    (s : IsSource io Holds) where
  -- A byte with no continuation bit ends the loop.
  Reads-read_loop_last :
      (offset : ℕ) (later : List ℕ) (value b : ℕ)
      → b < 128
      → value < 2 ^ offset
      → value + b * 2 ^ offset < 2 ^ 32
      → Reads Holds (read_loop io (offset ∷ later) value) (b ∷ []) (varint (value + b * 2 ^ offset))
  unfolding read_loop
  Reads-read_loop_last offset later value b hb low fits =
      Reads->>= Holds (read_primative 1 io) _ (b ∷ []) [] (record { bits = b }) _
        (Reads-read_u8 io Holds s b (omega arith))
        (rw (stop, add_last value b offset hb low (omega arith)) (Reads-pure Holds _))
    where
      stop : (bit_and b continue_mask == 0) ≡ true
      stop = ground (arith, continue_bit b)

  -- A byte with the bit goes on at the next offset.
  Yields-read_loop_more :
      (offset : ℕ) (later : List ℕ) (value b : ℕ) (ys : List ℕ) (res : Result (ReadError E) VarInt)
      → 128 ≤ b
      → b < 256
      → Yields Holds (read_loop io later (add_segment value b offset)) ys res
      → Yields Holds (read_loop io (offset ∷ later) value) (b ∷ ys) res
  unfolding read_loop
  Yields-read_loop_more offset later value b ys res lo hi rest =
      Reads->>= Holds (read_primative 1 io) _ (b ∷ []) ys (record { bits = b }) res
        (Reads-read_u8 io Holds s b hi) (rw more rest)
    where
      more : (bit_and b continue_mask == 0) ≡ false
      more = ground (arith, continue_bit b)

  -- Where the group fits, it is added.
  Yields-read_loop_group :
      (offset : ℕ) (later : List ℕ) (value g : ℕ) (ys : List ℕ) (res : Result (ReadError E) VarInt)
      → g < 128
      → value < 2 ^ offset
      → g * 2 ^ offset < 2 ^ 32
      → Yields Holds (read_loop io later (value + g * 2 ^ offset)) ys res
      → Yields Holds (read_loop io (offset ∷ later) value) ((g + 128) ∷ ys) res
  Yields-read_loop_group offset later value g ys res hg low fits rest =
      Yields-read_loop_more offset later value (g + 128) ys res (omega arith) (omega arith)
        (rw (add_group value g offset hg low fits) rest)

  -- With the bit on every byte the loop runs out of offsets.
  Yields-read_loop_long :
      (later : List ℕ) (value : ℕ) (bs : List ℕ)
      → length bs ≡ length later
      → All (λ b. (128 ≤ b) × (b < 256)) bs
      → Yields Holds (read_loop io later value) bs (err (ReadError.over_sized "varint" 5 6))
  Yields-read_loop_long [] value [] e h = unfold read_loop in Yields-throw Holds _
  Yields-read_loop_long [] value (b ∷ bs) e h = absurd (omega arith)
  Yields-read_loop_long (o ∷ later) value [] e h = absurd (omega arith)
  Yields-read_loop_long (o ∷ later) value (b ∷ bs) e (hb, hbs) =
      Yields-read_loop_more o later value b bs _ hb.0 hb.1
        (Yields-read_loop_long later (add_segment value b o) bs (omega arith) hbs)

  Reads-read_loop :
      (k q o value : ℕ)
      → q < 128 ^ suc k
      → value < 2 ^ o
      → value + q * 2 ^ o < 2 ^ 32
      → Reads Holds
          (read_loop io (steps (suc k) o) value)
          (base128 k q)
          (varint (value + q * 2 ^ o))
  Reads-read_loop zero q o value hq low fits =
      Reads-read_loop_last o [] value q (omega arith) low fits
  Reads-read_loop (suc k) q o value hq low fits = elim (Bool-cases (ltb q 128)) [
    | inl small ↦
        rw small
          (Reads-read_loop_last o (steps (suc k) (o + 7)) value q (ltb→lt q 128 small) low fits)
    | inr large ↦
        rw (large, whole)
          (Yields-read_loop_group o (steps (suc k) (o + 7)) value (q % 128) (base128 k (q / 128)) _
            (omega arith) low (omega (arith, split_digit q o))
            (Reads-read_loop k (q / 128) (o + 7) (value + q % 128 * 2 ^ o)
              (omega (arith, pow-suc 128 (suc k))) (digit_below value (q % 128) o (omega arith) low)
              (omega (arith, split_digit q o))))
  ]
    where
      whole : value + q * 2 ^ o ≡ value + q % 128 * 2 ^ o + q / 128 * 2 ^ (o + 7)
      whole = omega (arith, split_digit q o)

  -- `from_reader` reads the wire format of an `i32` back, and nothing of what follows.
  pub Reads-read_varint :
      (v : ℕ) → v < 2 ^ 32 → Reads Holds (read_varint io) (varint_bytes v) (varint v)
  unfolding read_varint
  Reads-read_varint v h =
      let whole : 0 + v * 1 ≡ v = omega arith in
      rw whole at (Reads-read_loop 4 v 0 0 (omega arith) (omega arith) (omega arith))

  -- Five bytes that all ask for another one are refused.
  pub Yields-read_varint_long :
      (bs : List ℕ)
      → length bs ≡ 5
      → All (λ b. (128 ≤ b) × (b < 256)) bs
      → Yields Holds (read_varint io) bs (err (ReadError.over_sized "varint" 5 6))
  unfolding read_varint
  Yields-read_varint_long bs e h = Yields-read_loop_long _ 0 bs e h
