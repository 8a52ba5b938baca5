-- ===== src/Versions/Supported.antt =====
-- The versions that src/protocol/versions/mod.rs exports, and what their tables have in common.
use protocraft_framework.Prelude.{
  ℕ, zero, suc, ◌≡◌, refl, ◌↔◌, List, [], ◌∷◌, ◌&&◌, Bool, true, false, String, Option, none, some,
  get_elem?, subst,
}
use protocraft_framework.Versions.{
  Side, clientbound, serverbound, Stage, handshake, status, login, config, play, Tables, table,
  Version, stage_tables, designator_from_id, designator_id,
}
use protocraft_framework.Versions.Designators.{
  is_distinct, designator_id-designator_from_id, designator_from_id-designator_id,
}
use protocraft_framework.Versions.V4.{version_4}
use protocraft_framework.Versions.V5.{version_5}
use protocraft_framework.Versions.V47.{version_47}
use protocraft_framework.Versions.V107.{version_107}
use protocraft_framework.Versions.V108.{version_108}
use protocraft_framework.Versions.V109.{version_109}
use protocraft_framework.Versions.V110.{version_110}
use protocraft_framework.Versions.V210.{version_210}
use protocraft_framework.Versions.V315.{version_315}
use protocraft_framework.Versions.V316.{version_316}
use protocraft_framework.Versions.V335.{version_335}
use protocraft_framework.Versions.V338.{version_338}
use protocraft_framework.Versions.V340.{version_340}
use protocraft_framework.Versions.V401.{version_401}
use protocraft_framework.Versions.V404.{version_404}
use protocraft_framework.Versions.V498.{version_498}
use protocraft_framework.Versions.V578.{version_578}
use protocraft_framework.Versions.V753.{version_753}
use protocraft_framework.Versions.V754.{version_754}
use protocraft_framework.Versions.V755.{version_755}
use protocraft_framework.Versions.V756.{version_756}
use protocraft_framework.Versions.V757.{version_757}
use protocraft_framework.Versions.V758.{version_758}
use protocraft_framework.Versions.V759.{version_759}
use protocraft_framework.Versions.V760.{version_760}
use protocraft_framework.Versions.V761.{version_761}
use protocraft_framework.Versions.V762.{version_762}
use protocraft_framework.Versions.V763.{version_763}
use protocraft_framework.Versions.V764.{version_764}
use protocraft_framework.Versions.V765.{version_765}
use protocraft_framework.Versions.V766.{version_766}
use protocraft_framework.Versions.V767.{version_767}
use protocraft_framework.Versions.V769.{version_769}
use protocraft_framework.Versions.V770.{version_770}
use protocraft_framework.Versions.V771.{version_771}
use protocraft_framework.Versions.V772.{version_772}
use protocraft_framework.Versions.V773.{version_773}
use protocraft_framework.Versions.V774.{version_774}

-- Oldest first.
abbrev pub versions : List Version
versions =
    version_4 ∷ version_5 ∷ version_47 ∷ version_107 ∷ version_108 ∷ version_109 ∷ version_110
    ∷ version_210 ∷ version_315 ∷ version_316 ∷ version_335 ∷ version_338 ∷ version_340
    ∷ version_401 ∷ version_404 ∷ version_498 ∷ version_578 ∷ version_753 ∷ version_754
    ∷ version_755 ∷ version_756 ∷ version_757 ∷ version_758 ∷ version_759 ∷ version_760
    ∷ version_761 ∷ version_762 ∷ version_763 ∷ version_764 ∷ version_765 ∷ version_766
    ∷ version_767 ∷ version_769 ∷ version_770 ∷ version_771 ∷ version_772 ∷ version_773
    ∷ version_774 ∷ []

abbrev tables_distinct : Tables → Bool
tables_distinct t = is_distinct t.to_client && is_distinct t.to_server

abbrev config_distinct : Option Tables → Bool
config_distinct none = true
config_distinct (some t) = tables_distinct t

abbrev version_distinct : Version → Bool
version_distinct v =
    tables_distinct v.status_tables
    && tables_distinct v.login_tables
    && config_distinct v.config_tables
    && tables_distinct v.play_tables

abbrev all_distinct : List Version → Bool
all_distinct [] = true
all_distinct (v ∷ vs) = version_distinct v && all_distinct vs

-- By evaluation of every table.
versions_distinct : all_distinct versions ≡ true
versions_distinct = refl

both : (a b : Bool) → (a && b) ≡ true → (a ≡ true) × (b ≡ true)
both true b h = (refl, h)
both false b h = cc

nth_distinct :
    (vs : List Version) (n : ℕ) (v : Version)
    → all_distinct vs ≡ true
    → get_elem? vs n ≡ some v
    → version_distinct v ≡ true
nth_distinct [] n v h e = cc
nth_distinct (u ∷ vs) zero v h e =
    let same : u ≡ v = cc in
    subst (λ x. version_distinct x ≡ true) same (both (version_distinct u) (all_distinct vs) h).0
nth_distinct (u ∷ vs) (suc n) v h e =
    nth_distinct vs n v (both (version_distinct u) (all_distinct vs) h).1 e

config_tables_distinct :
    (o : Option Tables) (t : Tables)
    → config_distinct o ≡ true
    → o ≡ some t
    → tables_distinct t ≡ true
config_tables_distinct none t h e = cc
config_tables_distinct (some u) t h e =
    let same : u ≡ t = cc in subst (λ x. tables_distinct x ≡ true) same h

stage_distinct :
    (v : Version) (stage : Stage) (t : Tables)
    → version_distinct v ≡ true
    → stage_tables v stage ≡ some t
    → tables_distinct t ≡ true
stage_distinct v stage t h e =
    let (before_play, play_ok) = both _ (tables_distinct v.play_tables) h in
    let (before_config, config_ok) = both _ (config_distinct v.config_tables) before_play in
    let (status_ok, login_ok) = both (tables_distinct v.status_tables) _ before_config in
    of_stage status_ok login_ok config_ok play_ok stage e
  where
    of_stage :
        tables_distinct v.status_tables ≡ true
        → tables_distinct v.login_tables ≡ true
        → config_distinct v.config_tables ≡ true
        → tables_distinct v.play_tables ≡ true
        → (stage : Stage) → stage_tables v stage ≡ some t
        → tables_distinct t ≡ true
    of_stage s l c p handshake e = cc
    of_stage s l c p status e =
        let same : v.status_tables ≡ t = cc in subst (λ x. tables_distinct x ≡ true) same s
    of_stage s l c p login e =
        let same : v.login_tables ≡ t = cc in subst (λ x. tables_distinct x ≡ true) same l
    of_stage s l c p config e = config_tables_distinct v.config_tables t c e
    of_stage s l c p play e =
        let same : v.play_tables ≡ t = cc in subst (λ x. tables_distinct x ≡ true) same p

side_distinct :
    (t : Tables) (side : Side) → tables_distinct t ≡ true → is_distinct (table t side) ≡ true
side_distinct t clientbound h = (both (is_distinct t.to_client) _ h).0
side_distinct t serverbound h = (both (is_distinct t.to_client) _ h).1

-- Every table of the supported versions has distinct ids and distinct names.
pub table-IsDistinct :
    (n : ℕ) (v : Version) (stage : Stage) (t : Tables) (side : Side)
    → get_elem? versions n ≡ some v
    → stage_tables v stage ≡ some t
    → is_distinct (table t side) ≡ true
table-IsDistinct n v stage t side e_v e_t =
    side_distinct t side
      (stage_distinct v stage t (nth_distinct versions n v versions_distinct e_v) e_t)

-- In every stage of every version that the crate exports, and for either side, an id is read as a
-- packet exactly if that packet is written with the id.
pub designator_from_id_iff :
    (n : ℕ) (v : Version) (stage : Stage) (t : Tables) (side : Side) (id : ℕ) (packet : String)
    → get_elem? versions n ≡ some v
    → stage_tables v stage ≡ some t
    → (designator_from_id (table t side) id ≡ some packet)
      ↔ (designator_id (table t side) packet ≡ some id)
designator_from_id_iff n v stage t side id packet e_v e_t =
    let distinct = table-IsDistinct n v stage t side e_v e_t in
    (
      λ e. designator_id-designator_from_id (table t side) id packet distinct e,
      λ e. designator_from_id-designator_id (table t side) id packet distinct e,
    )
