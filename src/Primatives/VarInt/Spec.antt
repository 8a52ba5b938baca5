-- ===== src/Primatives/VarInt/Spec.antt =====
-- What the wire format of a VarInt is, apart from the code: base 128, lowest digit first, with 128
-- added to every digit but the last.
use protocraft_framework.Prelude.{
  ℕ, zero, suc, ◌+◌, ◌/◌, ◌%◌, ◌^◌, ◌<◌, ◌≤◌, List, [], ◌∷◌, ltb, if◌then◌else◌, length, arith, All,
}

-- The digits of a number below 128 ^ (k + 1).
abbrev pub base128 : ℕ → ℕ → List ℕ
base128 zero v = v ∷ []
base128 (suc k) v =
    let rest = base128 k (v / 128) in if ltb v 128 then v ∷ [] else (v % 128 + 128) ∷ rest

-- The bytes of an `i32`: five digits at most.
abbrev pub varint_bytes : ℕ → List ℕ
varint_bytes = base128 4

pub base128-IsByte : (k v : ℕ) → v < 128 ^ suc k → All (λ b. b < 256) (base128 k v)
base128-IsByte zero v h = omega arith
base128-IsByte (suc k) v h = ground (arith, base128-IsByte k (v / 128) (omega arith))

-- A number of five digits or fewer takes a byte for each digit.
pub length-base128 : (k v : ℕ) → (1 ≤ length (base128 k v)) × (length (base128 k v) ≤ k + 1)
length-base128 zero v = omega arith
length-base128 (suc k) v = ground (arith, length-base128 k (v / 128))

-- A number below 128 ^ j takes at most j bytes.
pub length-base128_le : (k j v : ℕ) → v < 128 ^ suc j → length (base128 k v) ≤ suc j
length-base128_le zero j v h = omega arith
length-base128_le (suc k) zero v h = ground arith
length-base128_le (suc k) (suc j) v h =
    ground (arith, length-base128_le k j (v / 128) (omega arith))
