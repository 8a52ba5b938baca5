-- ===== src/Primatives/Compound/Codec.antt =====
-- What a type with `FromReader`, `ToWriter` and `Serializable` promises, and that the compound types
-- keep the promise of their parts.
use protocraft_framework.Prelude.{
  ℕ, ◌+◌, ◌≡◌, refl, List, [], ◌∷◌, ◌++◌, length, length-append, All, Bool, true, Option, none,
  some, arith, false, append-nil, append_assoc, subst,
}
use protocraft_framework.Error.{done}
use protocraft_framework.Traits.{Reader, Writer, FromReader, ToWriter, Serializable}
use protocraft_framework.Traits.Contract.{
  IsSource, IsSink, Reads, Writes, Reads->>=, Reads-then_pure, Writes-pure, Writes->>,
}
use protocraft_framework.Primatives.Int.{read_primative}
use protocraft_framework.Primatives.Int.Laws.{Reads-read_u8, Writes-write_primative}
use protocraft_framework.Primatives.Compound.{
  read_bool, write_bool, read_option, write_option, option_size, read_slots, assign_item,
  drop_uninit, write_slice, slice_size,
}

-- The values with `Valid` are the ones that the Rust type has, and `spell` gives their bytes.
pub record IsCodec {A : Type 0} (r : FromReader A) (t : ToWriter A) (size : Serializable A)
    (Valid : A → Type 0) (spell : A → List ℕ) : Type 1 where
  pub reads :
      {E R : Type 0} (io : Reader E R) (Holds : R → List ℕ → Type 0)
      → IsSource io Holds
      → (a : A) → Valid a
      → Reads Holds (r.from_reader io) (spell a) a
  pub writes :
      {E W : Type 0} (wr : Writer E W) (Fed : W → List ℕ → Type 0)
      → IsSink wr Fed
      → (a : A) → Valid a
      → Writes Fed (t.to_writer wr a) (spell a)
  pub size_lem : (a : A) → Valid a → size.size a ≡ length (spell a)

abbrev pub bool_bytes : Bool → List ℕ
bool_bytes true = 1 ∷ []
bool_bytes false = 0 ∷ []

Reads-read_bool :
    {E R : Type 0} (io : Reader E R) (Holds : R → List ℕ → Type 0)
    → IsSource io Holds
    → (b : Bool) → Reads Holds (read_bool io) (bool_bytes b) b
unfolding read_bool
Reads-read_bool io Holds s true =
    Reads-then_pure Holds (read_primative 1 io) _ (1 ∷ []) (record { bits = 1 }) true
      (Reads-read_u8 io Holds s 1 (omega arith)) refl
Reads-read_bool io Holds s false =
    Reads-then_pure Holds (read_primative 1 io) _ (0 ∷ []) (record { bits = 0 }) false
      (Reads-read_u8 io Holds s 0 (omega arith)) refl

Writes-write_bool :
    {E W : Type 0} (wr : Writer E W) (Fed : W → List ℕ → Type 0)
    → IsSink wr Fed
    → (b : Bool) → Writes Fed (write_bool wr b) (bool_bytes b)
unfolding write_bool
Writes-write_bool wr Fed s true = Writes-write_primative wr Fed s 1 (record { bits = 1 })
Writes-write_bool wr Fed s false = Writes-write_primative wr Fed s 1 (record { bits = 0 })

module _ {A : Type 0} (r : FromReader A) (t : ToWriter A) (size : Serializable A)
    (Valid : A → Type 0) (spell : A → List ℕ) (c : IsCodec r t size Valid spell) where
  abbrev pub ValidOption : Option A → Type 0
  ValidOption none = Unit {0}
  ValidOption (some a) = Valid a

  abbrev pub option_bytes : Option A → List ℕ
  option_bytes none = bool_bytes false
  option_bytes (some a) = bool_bytes true ++ spell a

  pub option-IsCodec :
      IsCodec
        (record { from_reader = λ io. read_option r t size io })
        (record { to_writer = λ wr o. write_option r t size wr o })
        (record { size = option_size r t size })
        ValidOption
        option_bytes
  unfolding read_option write_option option_size
  option-IsCodec = record { reads = reads; writes = writes; size_lem = sizes }
    where
      reads :
          {E R : Type 0} (io : Reader E R) (Holds : R → List ℕ → Type 0)
          → IsSource io Holds
          → (o : Option A) → ValidOption o
          → Reads Holds (read_option r t size io) (option_bytes o) o
      reads io Holds s none v = λ q rest h.
          let (q1, e1, h1) = Reads-read_bool io Holds s false q rest h in (q1, rw e1, h1)
      reads io Holds s (some a) v =
          Reads->>= Holds (read_bool io) _ (bool_bytes true) (spell a) true _
            (Reads-read_bool io Holds s true)
            (Reads-then_pure Holds (r.from_reader io) _ (spell a) a (some a)
              (c.reads io Holds s a v) refl)

      writes :
          {E W : Type 0} (wr : Writer E W) (Fed : W → List ℕ → Type 0)
          → IsSink wr Fed
          → (o : Option A) → ValidOption o
          → Writes Fed (write_option r t size wr o) (option_bytes o)
      writes wr Fed s none v = Writes-write_bool wr Fed s false
      writes wr Fed s (some a) v =
          Writes->> Fed (write_bool wr true) (t.to_writer wr a) (bool_bytes true) (spell a)
            (Writes-write_bool wr Fed s true) (c.writes wr Fed s a v)

      sizes : (o : Option A) → ValidOption o → option_size r t size o ≡ length (option_bytes o)
      sizes none v = refl
      sizes (some a) v = omega (arith, c.size_lem a v)

  abbrev pub slice_bytes : List A → List ℕ
  slice_bytes [] = []
  slice_bytes (a ∷ items) = spell a ++ slice_bytes items

  -- For a type that needs no drop the loop reads its items.
  pub read_slots_lem :
      {E R : Type 0} (io : Reader E R) (Holds : R → List ℕ → Type 0)
      → IsSource io Holds
      → (items before : List A) (q : R) (rest : List ℕ) → All Valid items
      → Holds q (slice_bytes items ++ rest)
      → (q' : R) × (read_slots r t size false (length items) before io q
          ≡ some (done (before ++ items) q'))
        × Holds q' rest
  unfolding read_slots assign_item drop_uninit
  read_slots_lem io Holds s [] before q rest v h = (q, rw (append-nil before), h)
  read_slots_lem io Holds s (a ∷ items) before q rest v h =
      let (q1, e1, h1) =
        c.reads io Holds s a v.0 q (slice_bytes items ++ rest)
          (subst (Holds q) (append_assoc (spell a) (slice_bytes items) rest) h) in
      let (q2, e2, h2) = read_slots_lem io Holds s items (before ++ (a ∷ [])) q1 rest v.1 h1 in
      (q2, rw (e1, e2, append_assoc before (a ∷ []) items), h2)

  pub Writes-write_slice :
      {E W : Type 0} (wr : Writer E W) (Fed : W → List ℕ → Type 0)
      → IsSink wr Fed
      → (items : List A) → All Valid items
      → Writes Fed (write_slice r t size wr items) (slice_bytes items)
  unfolding write_slice
  Writes-write_slice wr Fed s [] v = Writes-pure Fed
  Writes-write_slice wr Fed s (a ∷ items) v =
      Writes->> Fed (t.to_writer wr a) (write_slice r t size wr items) (spell a) (slice_bytes items)
        (c.writes wr Fed s a v.0) (Writes-write_slice wr Fed s items v.1)

  pub slice_size_lem :
      (acc : ℕ) (items : List A)
      → All Valid items
      → slice_size r t size acc items ≡ acc + length (slice_bytes items)
  unfolding slice_size
  slice_size_lem acc [] v = omega arith
  slice_size_lem acc (a ∷ items) v = omega (
    arith,
    c.size_lem a v.0,
    slice_size_lem (acc + size.size a) items v.1,
    length-append (spell a) (slice_bytes items),
  )
