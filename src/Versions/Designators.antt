-- ===== src/Versions/Designators.antt =====
-- `designator_from_id` and `id` on a table whose ids and whose names are distinct.
use protocraft_framework.Prelude.{
  ℕ, [], ◌∷◌, ◌≡◌, refl, String, none, some, ◌==◌, Bool, true, not, ◌&&◌, arith,
}
use protocraft_framework.Versions.{Table, designator_from_id, designator_id}
use text.Mathlib.Text.{◌==◌ as str_eq}
use text.Mathlib.TextEquality.{eq_iff}

abbrev id_absent : ℕ → Table → Bool
id_absent i [] = true
id_absent i ((j, name) ∷ arms) = not (j == i) && id_absent i arms

abbrev name_absent : String → Table → Bool
name_absent n [] = true
name_absent n ((j, name) ∷ arms) = not (str_eq name n) && name_absent n arms

-- No id and no name stands in two arms: the compiler accepts the enum, and no arm is unreachable.
abbrev pub is_distinct : Table → Bool
is_distinct [] = true
is_distinct ((i, name) ∷ arms) = id_absent i arms && name_absent name arms && is_distinct arms

absent_from_id : (t : Table) (i : ℕ) → id_absent i t ≡ true → designator_from_id t i ≡ none
unfolding designator_from_id
absent_from_id [] i h = refl
absent_from_id ((j, name) ∷ arms) i h = ground (arith, absent_from_id arms i)

absent_id : (t : Table) (n : String) → name_absent n t ≡ true → designator_id t n ≡ none
unfolding designator_id
absent_id [] n h = refl
absent_id ((j, name) ∷ arms) n h = ground (arith, absent_id arms n)

-- The packet of an id has that id.
pub designator_id-designator_from_id :
    (t : Table) (i : ℕ) (n : String)
    → is_distinct t ≡ true
    → designator_from_id t i ≡ some n
    → designator_id t n ≡ some i
unfolding designator_id designator_from_id
designator_id-designator_from_id [] i n h e = cc
designator_id-designator_from_id ((j, name) ∷ arms) i n h e = ground (
  arith,
  eq_iff name n,
  absent_id arms name,
  absent_from_id arms j,
  designator_id-designator_from_id arms i n,
)

-- The id of a packet is that packet's.
pub designator_from_id-designator_id :
    (t : Table) (i : ℕ) (n : String)
    → is_distinct t ≡ true
    → designator_id t n ≡ some i
    → designator_from_id t i ≡ some n
unfolding designator_id designator_from_id
designator_from_id-designator_id [] i n h e = cc
designator_from_id-designator_id ((j, name) ∷ arms) i n h e = ground (
  arith,
  eq_iff name n,
  absent_id arms name,
  absent_from_id arms j,
  designator_from_id-designator_id arms i n,
)
