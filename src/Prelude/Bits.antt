-- ===== src/Prelude/Bits.antt =====
-- `|` and `&` on machine words as arithmetic, at every width.
use Prim.Native.Nat.{ℕ, zero, suc, ◌+◌, ◌-◌, ◌*◌, ◌/◌, ◌%◌, ◌^◌, ◌≤◌, ◌<◌, min, max}
use Prim.Native.Nat.{bit_and, bit_or, digits, bit_and-bitwise, bit_or-bitwise}
use mathlib.Core.Path.{◌≡◌, refl, ap}
use native.Mathlib.Nat.{pow-suc, one-le-pow, div-div-eq-div-mul}
use native.Mathlib.Omega.{arith}

-- The binary recursion behind the native operations does not depend on its fuel.
module _ (z : ℕ → ℕ) (f : ℕ → ℕ → ℕ) where
  digits-fuel : (n m a b : ℕ) → a ≤ n → a ≤ m → digits z f n a b ≡ digits z f m a b
  digits-fuel zero zero a b p q = refl
  digits-fuel zero (suc m) zero b p q = refl
  digits-fuel zero (suc m) (suc a) b p q = absurd (omega arith)
  digits-fuel (suc n) zero zero b p q = refl
  digits-fuel (suc n) zero (suc a) b p q = absurd (omega arith)
  digits-fuel (suc n) (suc m) zero b p q = refl
  digits-fuel (suc n) (suc m) (suc a) b p q =
      omega (arith, digits-fuel n m (suc a / 2) (b / 2) (omega arith) (omega arith))

-- One binary digit of `|`.
bit_or-digit : (a b : ℕ) → bit_or a b ≡ bit_or (a / 2) (b / 2) * 2 + max (a % 2) (b % 2)
bit_or-digit zero b = omega (arith, bit_or-bitwise 0 b, bit_or-bitwise 0 (b / 2))
bit_or-digit (suc a) b = omega (
  arith,
  bit_or-bitwise (suc a) b,
  bit_or-bitwise (suc a / 2) (b / 2),
  digits-fuel (λ y. y) max a (suc a / 2) (suc a / 2) (b / 2) (omega arith) (omega arith),
)

-- One binary digit of `&`.
bit_and-digit : (a b : ℕ) → bit_and a b ≡ bit_and (a / 2) (b / 2) * 2 + min (a % 2) (b % 2)
bit_and-digit zero b = omega (arith, bit_and-bitwise 0 b, bit_and-bitwise 0 (b / 2))
bit_and-digit (suc a) b = omega (
  arith,
  bit_and-bitwise (suc a) b,
  bit_and-bitwise (suc a / 2) (b / 2),
  digits-fuel (λ y. 0) min a (suc a / 2) (suc a / 2) (b / 2) (omega arith) (omega arith),
)

double-pow : (q k : ℕ) → q * 2 ^ suc k ≡ 2 * (q * 2 ^ k)
double-pow q k = omega (arith, ap (λ (t : ℕ). q * t) (pow-suc 2 k))

-- Fields that do not overlap: `r | (q << k)` is a sum when `r` fits `k` bits.
pub bit_or-shifted : (k r q : ℕ) → r < 2 ^ k → bit_or r (q * 2 ^ k) ≡ r + q * 2 ^ k
bit_or-shifted zero zero q h = omega (arith, bit_or-bitwise 0 (q * 1))
bit_or-shifted zero (suc r) q h = absurd (omega arith)
bit_or-shifted (suc k) r q h = ground (
  arith,
  bit_or-digit r (q * 2 ^ suc k),
  double-pow q k,
  pow-suc 2 k,
  bit_or-shifted k (r / 2) q (omega (arith, pow-suc 2 k)),
)

-- Fields that meet above the `k` lowest bits.
pub bit_or-above :
    (k r p q : ℕ) → r < 2 ^ k → bit_or (r + p * 2 ^ k) (q * 2 ^ k) ≡ r + bit_or p q * 2 ^ k
bit_or-above zero r p q h =
    let nothing : r ≡ 0 = omega arith in
    let unshifted : q * 1 ≡ q = omega arith in
    let lowest : 0 + p * 1 ≡ p = omega arith in rw (nothing, unshifted, lowest) (omega arith)
bit_or-above (suc k) r p q h = ground (
  arith,
  bit_or-digit (r + p * 2 ^ suc k) (q * 2 ^ suc k),
  double-pow p k,
  double-pow q k,
  double-pow (bit_or p q) k,
  pow-suc 2 k,
  bit_or-above k (r / 2) p q (omega (arith, pow-suc 2 k)),
)

-- Setting the lowest bit.
pub one-bit_or : (q : ℕ) → bit_or 1 q ≡ q / 2 * 2 + 1
one-bit_or q = omega (arith, bit_or-digit 1 q, bit_or-bitwise 0 (q / 2))

bit_and-none : (n a : ℕ) → a ≤ n → bit_and a 0 ≡ 0
bit_and-none n zero h = refl
bit_and-none zero (suc a) h = absurd (omega arith)
bit_and-none (suc n) (suc a) h =
    omega (arith, bit_and-digit (suc a) 0, bit_and-none n (suc a / 2) (omega arith))

-- Only the part below `2 ^ k` passes a mask of the `k` lowest bits.
bit_and-remainder : (k q r : ℕ) → r < 2 ^ k → bit_and (r + q * 2 ^ k) (2 ^ k - 1) ≡ r
bit_and-remainder zero q r h = omega (arith, bit_and-none (r + q * 1) (r + q * 1) (omega arith))
bit_and-remainder (suc k) q r h = ground (
  arith,
  bit_and-digit (r + q * 2 ^ suc k) (2 ^ suc k - 1),
  double-pow q k,
  pow-suc 2 k,
  bit_and-remainder k q (r / 2) (omega (arith, pow-suc 2 k)),
)

-- A mask of the `k` lowest bits is a remainder.
pub bit_and-low : (k a : ℕ) → bit_and a (2 ^ k - 1) ≡ a % 2 ^ k
bit_and-low k a = ground (arith, one-le-pow k 2, bit_and-remainder k (a / 2 ^ k) (a % 2 ^ k))

double-shifted : (m k : ℕ) → m * 2 ^ suc k / 2 ≡ m * 2 ^ k
double-shifted m k = omega (arith, double-pow m k)

div-pow-suc : (a k : ℕ) → a / 2 ^ suc k ≡ a / 2 / 2 ^ k
div-pow-suc a k =
    let halves : 2 ^ suc k ≡ 2 * 2 ^ k = omega (arith, pow-suc 2 k) in
    rw (halves, div-div-eq-div-mul)

-- A mask with `k` zeroes at its end looks at the upper bits only.
pub bit_and-high : (k a m : ℕ) → bit_and a (m * 2 ^ k) ≡ bit_and (a / 2 ^ k) m * 2 ^ k
bit_and-high zero a m =
    let unshifted : m * 1 ≡ m = omega arith in
    let whole : a / 1 ≡ a = omega arith in rw (unshifted, whole) (omega arith)
bit_and-high (suc k) a m = ground (
  arith,
  bit_and-digit a (m * 2 ^ suc k),
  double-pow m k,
  double-shifted m k,
  double-pow (bit_and (a / 2 ^ suc k) m) k,
  div-pow-suc a k,
  bit_and-high k (a / 2) m,
)
