-- ===== src/Primatives/VarInt/Size.antt =====
-- `VarInt::size`: the number of bytes that `to_writer` writes.
use protocraft_framework.Prelude.{
  ℕ, zero, suc, ◌+◌, ◌*◌, ◌/◌, ◌^◌, ◌<◌, ◌≤◌, ◌≡◌, refl, arith, ltb, length, inl, inr, ◌⊎◌, ◌≢◌, ap,
  ne→==, false,
}
use protocraft_framework.Primatives.VarInt.{varint, ilog2, varint_size}
use protocraft_framework.Primatives.VarInt.Spec.{base128, varint_bytes}
use native.Mathlib.Nat.{pow-suc, one-le-pow}
use native.Mathlib.Decide.{dec_lt, ℕ_discrete}

-- `ilog2` is the position of the highest bit.
pow-le_ilog2 : (bits k n : ℕ) → n < 2 ^ suc bits → 2 ^ k ≤ n → k ≤ ilog2 bits n
unfolding ilog2
pow-le_ilog2 bits zero n h lo = omega arith
pow-le_ilog2 zero (suc k) n h lo = absurd (omega (arith, one-le-pow k 2, pow-suc 2 k))
pow-le_ilog2 (suc bits) (suc k) n h lo =
    ground (arith, one-le-pow k 2, pow-suc 2 k, pow-suc 2 (suc bits), pow-le_ilog2 bits k (n / 2))

ilog2-lt_pow : (bits k n : ℕ) → n < 2 ^ suc k → ilog2 bits n ≤ k
unfolding ilog2
ilog2-lt_pow zero k n h = omega arith
ilog2-lt_pow (suc bits) zero n h = ground arith
ilog2-lt_pow (suc bits) (suc k) n h = ground (arith, pow-suc 2 (suc k), ilog2-lt_pow bits k (n / 2))

-- A number of `j + 1` digits takes `j + 1` bytes.
length-base128_eq :
    (k j v : ℕ) → j ≤ k → (j ≡ 0) ⊎ (128 ^ j ≤ v) → v < 128 ^ suc j → length (base128 k v) ≡ suc j
length-base128_eq zero zero v h lo hi = refl
length-base128_eq zero (suc j) v h lo hi = absurd (omega arith)
length-base128_eq (suc k) zero v h lo hi = ground arith
length-base128_eq (suc k) (suc j) v h lo hi =
    let above : 128 ^ suc j ≤ v = ground arith in
    let digits : 128 ^ j ≤ v / 128 = omega (arith, pow-suc 128 j) in
    let large : ltb v 128 ≡ false = ground (arith, pow-suc 128 j, one-le-pow j 128) in
    rw large (
      ap suc (
        length-base128_eq k j (v / 128) (omega arith) (inr digits)
          (omega (arith, pow-suc 128 (suc j)))))

-- `size` of a number whose highest bit is one of the bits 7 * j to 7 * j + 6.
size-band :
    (j v : ℕ)
    → v ≢ 0
    → v < 2 ^ 32
    → 2 ^ (7 * j) ≤ v
    → v < 2 ^ suc (7 * j + 6)
    → varint_size (varint v) ≡ j + 1
unfolding varint_size
size-band j v ne h lo hi =
    rw (ne→== v 0 ne)
      (omega (arith, pow-le_ilog2 32 (7 * j) v (omega arith) lo, ilog2-lt_pow 32 (7 * j + 6) v hi))

size-zero : varint_size (varint 0) ≡ 1
unfolding varint_size
size-zero = refl

-- `size` is the number of bytes of the wire format.
pub length-varint_bytes : (v : ℕ) → v < 2 ^ 32 → length (varint_bytes v) ≡ varint_size (varint v)
length-varint_bytes v h = elim (dec_lt v (2 ^ 7)) [
  | yes a ↦ elim (ℕ_discrete v 0) [
    | yes e ↦ rw (e, size-zero)
    | no ne ↦ one 0 (omega arith) (inl refl) (omega arith) ne (omega arith) (omega arith)
  ]
  | no a ↦ elim (dec_lt v (2 ^ 14)) [
    | yes b ↦
        one 1 (omega arith) (inr (omega arith)) (omega arith) (omega arith) (omega arith)
          (omega arith)
    | no b ↦ elim (dec_lt v (2 ^ 21)) [
      | yes c ↦
          one 2 (omega arith) (inr (omega arith)) (omega arith) (omega arith) (omega arith)
            (omega arith)
      | no c ↦ elim (dec_lt v (2 ^ 28)) [
        | yes d ↦
            one 3 (omega arith) (inr (omega arith)) (omega arith) (omega arith) (omega arith)
              (omega arith)
        | no d ↦
            one 4 (omega arith) (inr (omega arith)) (omega arith) (omega arith) (omega arith)
              (omega arith)
      ]
    ]
  ]
]
  where
    one :
        (j : ℕ)
        → j ≤ 4
        → (j ≡ 0) ⊎ (128 ^ j ≤ v)
        → v < 128 ^ suc j
        → v ≢ 0
        → 2 ^ (7 * j) ≤ v
        → v < 2 ^ suc (7 * j + 6)
        → length (varint_bytes v) ≡ varint_size (varint v)
    one j hj lo hi ne lo2 hi2 =
        omega (arith, length-base128_eq 4 j v hj lo hi, size-band j v ne h lo2 hi2)
