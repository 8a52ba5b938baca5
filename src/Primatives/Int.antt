-- ===== src/Primatives/Int.antt =====
-- `build_primative!` of src/primatives/mod.rs: integers and floats of `n` bytes, big-endian.
-- A value is its bit pattern, a number below 256 ^ n; two's complement and IEEE 754 give its meaning.
pub mod Laws
use protocraft_framework.Prelude.{ℕ, zero, suc, ◌+◌, ◌*◌, ◌/◌, ◌%◌, ◌^◌, List, [], ◌∷◌}
use protocraft_framework.Error.{Action, ReadError, WriteError, pure, ◌>>=◌}
use protocraft_framework.Traits.{Reader, Writer, FromReader, ToWriter, Serializable}
use protocraft_framework.Traits.Contract.{read_bytes, write_bytes}

-- A primitive type of `n` bytes.
pub record Primative (n : ℕ) : Type 0 where
  pub bits : ℕ

abbrev pub U8 : Type 0
U8 = Primative 1

abbrev pub U16 : Type 0
U16 = Primative 2

abbrev pub I16 : Type 0
I16 = Primative 2

-- `from_be_bytes`, from the value of the bytes before.
abbrev pub from_be_bytes : ℕ → List ℕ → ℕ
from_be_bytes acc [] = acc
from_be_bytes acc (b ∷ bs) = from_be_bytes (acc * 256 + b) bs

-- `to_be_bytes`.
abbrev pub to_be_bytes : ℕ → ℕ → List ℕ
to_be_bytes zero v = []
to_be_bytes (suc n) v = (v / 256 ^ n % 256) ∷ to_be_bytes n v

module _ (n : ℕ) where
  pub read_primative : {E R : Type 0} → Reader E R → Action R (ReadError E) (Primative n)
  read_primative io = do buf ← read_bytes io n; pure (record { bits = from_be_bytes 0 buf })

  pub write_primative :
      {E W : Type 0} → Writer E W → Primative n → Action W (WriteError E) (Unit {0})
  write_primative wr v = write_bytes wr (to_be_bytes n v.bits)

  instance abbrev pub primative_from_reader : FromReader (Primative n)
  primative_from_reader = record { from_reader = λ io. read_primative io }

  instance abbrev pub primative_to_writer : ToWriter (Primative n)
  primative_to_writer = record { to_writer = λ wr v. write_primative wr v }

  instance abbrev pub primative_serializable : Serializable (Primative n)
  primative_serializable = record { size = λ v. n }
