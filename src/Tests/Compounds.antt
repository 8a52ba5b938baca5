-- ===== src/Tests/Compounds.antt =====
-- Compound values on concrete bytes.
use protocraft_framework.Prelude.{
  true, false, none, ℕ, ◌↔◌, ◌<◌, ◌≡◌, refl, List, [], ◌∷◌, some, arith,
}
use protocraft_framework.Error.{done}
use protocraft_framework.Traits.Memory.{slice, Spells, slice-IsSource, vec, vec-IsSink}
use protocraft_framework.Primatives.Int.{
  U16, primative_from_reader, primative_to_writer, primative_serializable,
}
use protocraft_framework.Primatives.VarInt.{
  VarInt, varint, varint_from_reader, varint_to_writer, varint_serializable,
}
use protocraft_framework.Primatives.Compound.{
  read_option, write_option, option_size, read_array, write_slice, slice_size, read_pair,
  write_pair, pair_size,
}
use protocraft_framework.Primatives.Compound.Parts.{primative-IsCodec, varint-IsCodec}
use protocraft_framework.Primatives.Compound.RoundTrip.{
  read_option-write_option, read_array-write_slice, read_array-none_iff, read_pair-write_pair,
}

abbrev number : U16
number = record { bits = 0x0102 }

read_option-write_option_example :
    (q' : List ℕ) × (w' : List ℕ) × (write_option
        (primative_from_reader 2)
        (primative_to_writer 2)
        (primative_serializable 2)
        vec
        (some number)
        (8 ∷ [])
      ≡ done tt w')
    × (w' ≡ 8 ∷ 1 ∷ 1 ∷ 2 ∷ [])
    × (option_size
          (primative_from_reader 2)
          (primative_to_writer 2)
          (primative_serializable 2)
          (some number)
        ≡ 3)
    × (read_option
          (primative_from_reader 2)
          (primative_to_writer 2)
          (primative_serializable 2)
          slice
          (1 ∷ 1 ∷ 2 ∷ 9 ∷ [])
        ≡ done (some number) q')
    × (q' ≡ 9 ∷ [])
read_option-write_option_example =
    read_option-write_option slice Spells slice-IsSource vec Spells vec-IsSink
      (primative_from_reader 2) (primative_to_writer 2) (primative_serializable 2) _ _
      (primative-IsCodec 2) (some number) (1 ∷ 1 ∷ 2 ∷ 9 ∷ []) (9 ∷ []) (8 ∷ []) (8 ∷ [])
      (omega arith) refl refl

abbrev numbers : List VarInt
numbers = varint 3 ∷ varint 300 ∷ []

read_array-write_slice_example :
    (q' : List ℕ) × (w' : List ℕ) × (write_slice varint_from_reader varint_to_writer
        varint_serializable vec numbers
        (8 ∷ [])
      ≡ done tt w')
    × (w' ≡ 8 ∷ 3 ∷ 0xAC ∷ 2 ∷ [])
    × (slice_size varint_from_reader varint_to_writer varint_serializable 0 numbers ≡ 3)
    × (read_array varint_from_reader varint_to_writer varint_serializable false 2 slice
          (3 ∷ 0xAC ∷ 2 ∷ 9 ∷ [])
        ≡ some (done numbers q'))
    × (q' ≡ 9 ∷ [])
read_array-write_slice_example =
    read_array-write_slice slice Spells slice-IsSource vec Spells vec-IsSink varint_from_reader
      varint_to_writer varint_serializable _ _ varint-IsCodec numbers (3 ∷ 0xAC ∷ 2 ∷ 9 ∷ [])
      (9 ∷ []) (8 ∷ []) (8 ∷ []) (omega arith) refl refl

read_pair-write_pair_example :
    (q' : List ℕ) × (w' : List ℕ) × (write_pair
        (primative_from_reader 2)
        (primative_to_writer 2)
        (primative_serializable 2)
        varint_from_reader
        varint_to_writer
        varint_serializable
        vec
        (number, varint 300)
        (8 ∷ [])
      ≡ done tt w')
    × (w' ≡ 8 ∷ 1 ∷ 2 ∷ 0xAC ∷ 2 ∷ [])
    × (pair_size
          (primative_from_reader 2)
          (primative_to_writer 2)
          (primative_serializable 2)
          varint_from_reader
          varint_to_writer
          varint_serializable
          (number, varint 300)
        ≡ 4)
    × (read_pair
          (primative_from_reader 2)
          (primative_to_writer 2)
          (primative_serializable 2)
          varint_from_reader
          varint_to_writer
          varint_serializable
          slice
          (1 ∷ 2 ∷ 0xAC ∷ 2 ∷ 9 ∷ [])
        ≡ done (number, varint 300) q')
    × (q' ≡ 9 ∷ [])
read_pair-write_pair_example =
    read_pair-write_pair slice Spells slice-IsSource vec Spells vec-IsSink (primative_from_reader 2)
      (primative_to_writer 2) (primative_serializable 2) varint_from_reader varint_to_writer
      varint_serializable _ _ _ _ (primative-IsCodec 2) varint-IsCodec number (varint 300)
      (1 ∷ 2 ∷ 0xAC ∷ 2 ∷ 9 ∷ []) (9 ∷ []) (8 ∷ []) (8 ∷ []) (omega arith) (omega arith) refl refl

-- As if the integers needed a drop.
read_array-none_iff_example :
    (read_array
        (primative_from_reader 2)
        (primative_to_writer 2)
        (primative_serializable 2)
        true
        2
        slice
        (1 ∷ 2 ∷ 3 ∷ [])
      ≡ none)
    ↔ ((true ≡ true) × (0 < 2))
read_array-none_iff_example =
    read_array-none_iff (primative_from_reader 2) (primative_to_writer 2) (primative_serializable 2)
      slice true 2 (1 ∷ 2 ∷ 3 ∷ [])
