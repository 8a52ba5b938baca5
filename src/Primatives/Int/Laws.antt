-- ===== src/Primatives/Int/Laws.antt =====
-- The primitive types of src/primatives/mod.rs: the bytes that are written are read back.
use protocraft_framework.Prelude.{
  ◌++◌, ℕ, zero, suc, ◌+◌, ◌*◌, ◌/◌, ◌%◌, ◌^◌, ◌<◌, ◌≡◌, List, [], ◌∷◌, length, ap, ◌∙◌, arith,
  refl, subst,
}
use protocraft_framework.Error.{done}
use protocraft_framework.Traits.{Reader, Writer}
use protocraft_framework.Traits.Contract.{
  IsSource, IsSink, Reads, Writes, Reads-read_bytes, Writes-write_bytes, Reads-then_pure,
  read_bytes,
}
use protocraft_framework.Primatives.Int.{
  Primative, from_be_bytes, to_be_bytes, read_primative, write_primative,
}
use native.Mathlib.Nat.{pow-suc, one-le-pow, div-add-mod, add-mul-mod_self_right, mod-eq_of_lt}

pub length-to_be_bytes : (n v : ℕ) → length (to_be_bytes n v) ≡ n
length-to_be_bytes zero v = refl
length-to_be_bytes (suc n) v = ap suc (length-to_be_bytes n v)

byte_below : (b r n : ℕ) → b < 256 → r < 256 ^ n → b * 256 ^ n + r < 256 ^ suc n
byte_below b r n hb hr = rw pow-suc (grind arith)

-- The lowest `n` bytes and the one above them.
split_mod : (n v : ℕ) → v % 256 ^ suc n ≡ v / 256 ^ n % 256 * 256 ^ n + v % 256 ^ n
split_mod n v =
    ap (λ (t : ℕ). t % 256 ^ suc n) whole
    ∙ add-mul-mod_self_right low (v / 256 ^ n / 256) (256 ^ suc n)
    ∙ mod-eq_of_lt below
  where
    low : ℕ
    low = v / 256 ^ n % 256 * 256 ^ n + v % 256 ^ n

    whole : v ≡ low + v / 256 ^ n / 256 * 256 ^ suc n
    whole = omega (
      arith,
      div-add-mod v (256 ^ n),
      ap (λ (t : ℕ). t * 256 ^ n) (div-add-mod (v / 256 ^ n) 256),
      ap (λ (t : ℕ). v / 256 ^ n / 256 * t) (pow-suc 256 n),
    )

    below : low < 256 ^ suc n
    below =
        byte_below (v / 256 ^ n % 256) (v % 256 ^ n) n (omega arith)
          (omega (arith, one-le-pow n 256))

pub from_be_bytes-to_be_bytes :
    (n acc v : ℕ) → from_be_bytes acc (to_be_bytes n v) ≡ acc * 256 ^ n + v % 256 ^ n
from_be_bytes-to_be_bytes zero acc v = omega arith
from_be_bytes-to_be_bytes (suc n) acc v =
    from_be_bytes-to_be_bytes n (acc * 256 + v / 256 ^ n % 256) v
    ∙ omega (arith, split_mod n v, ap (λ (t : ℕ). acc * t) (pow-suc 256 n))

module _ {E R : Type 0} (io : Reader E R) (Holds : R → List ℕ → Type 0)
    (s : IsSource io Holds) where
  -- Reading `n` bytes yields the number that they spell.
  pub Reads-read_primative :
      (n v : ℕ)
      → v < 256 ^ n
      → Reads Holds (read_primative n io) (to_be_bytes n v) (record { bits = v })
  unfolding read_primative
  Reads-read_primative n v fits =
      Reads-then_pure Holds (read_bytes io n) _ (to_be_bytes n v) (to_be_bytes n v) _
        (Reads-read_bytes io Holds n (to_be_bytes n v) s (length-to_be_bytes n v))
        (rw (from_be_bytes-to_be_bytes, mod-eq_of_lt fits) (ground arith))

  -- A `u8` is one byte.
  pub Reads-read_u8 :
      (b : ℕ) → b < 256 → Reads Holds (read_primative 1 io) (b ∷ []) (record { bits = b })
  Reads-read_u8 b h =
      subst (λ x. Reads Holds (read_primative 1 io) (x ∷ []) (record { bits = b }))
        (let same : b / 1 % 256 ≡ b = omega arith in same) (Reads-read_primative 1 b h)

module _ {E W : Type 0} (wr : Writer E W) (Fed : W → List ℕ → Type 0) (s : IsSink wr Fed) where
  -- Writing a primitive appends its big-endian bytes.
  pub Writes-write_primative :
      (n : ℕ) (v : Primative n) → Writes Fed (write_primative n wr v) (to_be_bytes n v.bits)
  unfolding write_primative
  Writes-write_primative n v = Writes-write_bytes wr Fed (to_be_bytes n v.bits) s

-- A value of `n` bytes is written as its bytes, highest first, which are `n`; a reader that yields
-- these bytes and then `rest` returns the value and is left at `rest`.
pub read_primative-write_primative :
    {E F R W : Type 0} (io : Reader E R) (Holds : R → List ℕ → Type 0) (wr : Writer F W)
    (Fed : W → List ℕ → Type 0) (n v : ℕ) (r : R) (rest : List ℕ) (w : W) (d : List ℕ)
    → IsSource io Holds
    → IsSink wr Fed
    → v < 256 ^ n
    → Holds r (to_be_bytes n v ++ rest)
    → Fed w d
    → (r' : R) × (w' : W) × (length (to_be_bytes n v) ≡ n)
      × (write_primative n wr (record { bits = v }) w ≡ done tt w')
      × Fed w' (d ++ to_be_bytes n v)
      × (read_primative n io r ≡ done (record { bits = v }) r')
      × Holds r' rest
read_primative-write_primative io Holds wr Fed n v r rest w d source sink fits holds fed =
    let (w', e, fed') = Writes-write_primative wr Fed sink n (record { bits = v }) w d fed in
    let (r', e', holds') = Reads-read_primative io Holds source n v fits r rest holds in
    (r', w', length-to_be_bytes n v, e, fed', e', holds')
