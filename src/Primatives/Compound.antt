-- ===== src/Primatives/Compound.antt =====
-- src/primatives/bool.rs, option.rs, array.rs, tuple.rs and str.rs: codecs made of other codecs.
-- An array `[T; N]` and a slice are lists; a string is its UTF-8 bytes.
pub mod Codec
pub mod Parts
pub mod RoundTrip
use protocraft_framework.Prelude.{
  ℕ, zero, suc, ◌+◌, List, [], ◌∷◌, ◌++◌, Bool, true, false, not, ◌==◌, if◌then◌else◌, Option, none,
  some, length,
}
use protocraft_framework.Error.{
  Action, Out, Result, ok, err, done, fail, ReadError, WriteError, pure, ◌>>=◌, ◌>>◌,
}
use protocraft_framework.Traits.{Reader, Writer, FromReader, ToWriter, Serializable}
use protocraft_framework.Traits.Contract.{read_bytes, write_bytes}
use protocraft_framework.Primatives.Int.{read_primative, write_primative}

-- `bool`: one byte, and every byte but 0 is read as `true`.
pub read_bool : {E R : Type 0} → Reader E R → Action R (ReadError E) Bool
read_bool io = do byte ← read_primative 1 io; pure (not (byte.bits == 0))

pub write_bool : {E W : Type 0} → Writer E W → Bool → Action W (WriteError E) (Unit {0})
write_bool wr b = write_primative 1 wr (record { bits = if b then 0x01 else 0x00 })

abbrev pub bool_size : Bool → ℕ
bool_size b = 1

-- `Bytes<N>`, `BytesRef` and `str`.
abbrev pub read_byte_array : {E R : Type 0} → ℕ → Reader E R → Action R (ReadError E) (List ℕ)
read_byte_array n io = read_bytes io n

abbrev pub write_byte_array :
    {E W : Type 0} → Writer E W → List ℕ → Action W (WriteError E) (Unit {0})
write_byte_array wr bs = write_bytes wr bs

-- A drop of uninitialised memory of a type, where the type needs one (`core::mem::needs_drop`): it is
-- undefined behaviour, `none`. For a type that needs none it does nothing.
pub drop_uninit : {X : Type 0} → Bool → Option X → Option X
drop_uninit true after = none
drop_uninit false after = after

-- A drop of so many uninitialised slots.
pub drop_slots : {X : Type 0} → Bool → ℕ → Option X → Option X
drop_slots needs_drop zero after = after
drop_slots needs_drop (suc left) after = drop_uninit needs_drop (drop_slots needs_drop left after)

module _ {A : Type 0} (r : FromReader A) (t : ToWriter A) (size : Serializable A) where
  -- `Option<T>`.
  pub read_option : {E R : Type 0} → Reader E R → Action R (ReadError E) (Option A)
  read_option io = do
    present ← read_bool io
    if present then (r.from_reader io >>= λ a. pure (some a)) else pure none

  pub write_option : {E W : Type 0} → Writer E W → Option A → Action W (WriteError E) (Unit {0})
  write_option wr none = write_bool wr false
  write_option wr (some a) = write_bool wr true >> t.to_writer wr a

  pub option_size : Option A → ℕ
  option_size none = 1
  option_size (some a) = 1 + size.size a

  -- `*item = t` and `read!`'s early return, at a slot that was never initialised and with `left` more
  -- after it: the assignment drops what the slot held, and the return drops the array. `next` is the
  -- rest of the loop.
  pub assign_item :
      {E R : Type 0}
      → Bool
      → ℕ
      → Result (ReadError E) A
      → R
      → (A → R → Option (Out R (ReadError E) (List A)))
      → Option (Out R (ReadError E) (List A))
  assign_item needs_drop left (ok t) q next = drop_uninit needs_drop (next t q)
  assign_item needs_drop left (err e) q next =
      drop_uninit needs_drop (drop_slots needs_drop left (some (fail e q)))

  -- The loop over the slots that are left, with the items before them.
  pub read_slots :
      {E R : Type 0} → Bool → ℕ → List A → Reader E R → R → Option (Out R (ReadError E) (List A))
  read_slots needs_drop zero before io q = some (done before q)
  read_slots needs_drop (suc left) before io q =
      let o = r.from_reader io q in
      assign_item needs_drop left o.result o.state
        (λ t q'. read_slots needs_drop left (before ++ (t ∷ [])) io q')

  -- `[T; N]`, from an uninitialised array of `N` slots.
  pub read_array :
      {E R : Type 0} → Bool → ℕ → Reader E R → R → Option (Out R (ReadError E) (List A))
  read_array needs_drop n io q = read_slots needs_drop n [] io q

  -- `[T]`.
  pub write_slice : {E W : Type 0} → Writer E W → List A → Action W (WriteError E) (Unit {0})
  write_slice wr [] = pure tt
  write_slice wr (item ∷ items) = t.to_writer wr item >> write_slice wr items

  -- `fold(0, |acc, val| acc + val.size())`, from the sum of the items before.
  pub slice_size : ℕ → List A → ℕ
  slice_size acc [] = acc
  slice_size acc (item ∷ items) = slice_size (acc + size.size item) items

-- `(T1, T2)`, one of the macro's tuples.
module _ {A B : Type 0} (r1 : FromReader A) (t1 : ToWriter A) (s1 : Serializable A)
    (r2 : FromReader B) (t2 : ToWriter B) (s2 : Serializable B) where
  pub read_pair : {E R : Type 0} → Reader E R → Action R (ReadError E) (A × B)
  read_pair io = do a ← r1.from_reader io; b ← r2.from_reader io; pure (a, b)

  pub write_pair : {E W : Type 0} → Writer E W → A × B → Action W (WriteError E) (Unit {0})
  write_pair wr p = t1.to_writer wr p.0 >> t2.to_writer wr p.1

  pub pair_size : A × B → ℕ
  pair_size p = s1.size p.0 + s2.size p.1
