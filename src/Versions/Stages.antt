-- ===== src/Versions/Stages.antt =====
-- The typestates of src/protocol/mod.rs: `ProtocolHandler<P, S>`, whose type parameter is the state
-- of one end of the connection, and the transitions that src/protocol/versions/mod.rs gives it.
use protocraft_framework.Prelude.{
  ℕ, suc, ◌+◌, ◌≡◌, ◌↔◌, ◌⊎◌, inl, inr, refl, sym, subst, Bool, true, false, Option, none, some,
  arith,
}
use protocraft_framework.Versions.{
  Side, Stage, handshake, status, login, config, play, Version, stage_tables,
}

-- `PhantomData<S>` is the parameters.
record ProtocolHandler (P : Type 0) (side : Side) (stage : Stage) : Type 0 where
  provider : P

-- `new_serverside` and `new_clientside`.
abbrev new_handler : {P : Type 0} (side : Side) → P → ProtocolHandler P side handshake
new_handler side p = record { provider = p }

-- `HasNextProtocolState` of the versions with a config stage (`true`) and of those without.
pub data HasNext : Bool → Stage → Stage → Type 0 where
  login_config : HasNext true login config
  config_play : HasNext true config play
  login_play : HasNext false login play

module _ {P : Type 0} {side : Side} where
  abbrev into_status_state : ProtocolHandler P side handshake → ProtocolHandler P side status
  into_status_state h = record { provider = h.provider }

  abbrev into_login_state : ProtocolHandler P side handshake → ProtocolHandler P side login
  into_login_state h = record { provider = h.provider }

  abbrev into_next_state :
      {has_config : Bool} {s s' : Stage}
      → HasNext has_config s s'
      → ProtocolHandler P side s
      → ProtocolHandler P side s'
  into_next_state n h = record { provider = h.provider }

-- One call of these methods (`take_step`), in a version that has a config stage or not.
pub data Step (has_config : Bool) : Stage → Stage → Type 0 where
  to_status : Step has_config handshake status
  to_login : Step has_config handshake login
  to_next : {s s' : Stage} → HasNext has_config s s' → Step has_config s s'

-- The calls that lead from one stage to another.
pub data Reaches (has_config : Bool) (s : Stage) : Stage → Type 0 where
  here : Reaches has_config s s
  next : {t u : Stage} → Reaches has_config s t → Step has_config t u → Reaches has_config s u

module _ {P : Type 0} {side : Side} {has_config : Bool} where
  abbrev take_step :
      {s s' : Stage} → Step has_config s s' → ProtocolHandler P side s → ProtocolHandler P side s'
  take_step to_status h = into_status_state h
  take_step to_login h = into_login_state h
  take_step (to_next n) h = into_next_state n h

-- How many calls lead to a stage.
abbrev pub depth : Bool → Stage → ℕ
depth c handshake = 0
depth c status = 1
depth c login = 1
depth c config = 2
depth true play = 3
depth false play = 2

abbrev pub calls : {has_config : Bool} {s s' : Stage} → Reaches has_config s s' → ℕ
calls here = 0
calls (next r st) = suc (calls r)

depth-Step : {c : Bool} {s s' : Stage} → Step c s s' → depth c s' ≡ suc (depth c s)
depth-Step to_status = refl
depth-Step to_login = refl
depth-Step (to_next login_config) = refl
depth-Step (to_next config_play) = refl
depth-Step (to_next login_play) = refl

calls_lem : {c : Bool} {s s' : Stage} (r : Reaches c s s') → depth c s + calls r ≡ depth c s'
calls_lem here = omega arith
calls_lem (next r st) = omega (arith, calls_lem r, depth-Step st)

-- In a version with a config stage (`c` is true) or without, every sequence of transitions from the
-- handshake to a stage has the same number of calls: none to the handshake, one to the status or
-- the login stage, two to the config stage, and to the play stage three with a config stage and two
-- without.
pub calls-depth : {c : Bool} {s : Stage} (r : Reaches c handshake s) → calls r ≡ depth c s
calls-depth r = omega (arith, calls_lem r)

abbrev is_some : {A : Type 0} → Option A → Bool
is_some none = false
is_some (some a) = true

-- `build_protocol!` builds a config stage, and `build_protocol_pre_1_21_2!` none.
abbrev pub has_config : Version → Bool
has_config v = is_some v.config_tables

-- A stage whose packets the version lists.
abbrev pub has_packets : Version → Stage → Bool
has_packets v s = is_some (stage_tables v s)

Step-packets :
    (v : Version) {c : Bool} {s s' : Stage}
    → c ≡ has_config v
    → Step c s s'
    → has_packets v s' ≡ true
Step-packets v e to_status = refl
Step-packets v e to_login = refl
Step-packets v e (to_next login_config) = sym e
Step-packets v e (to_next config_play) = refl
Step-packets v e (to_next login_play) = refl

to_login_stage : {c : Bool} → Reaches c handshake login
to_login_stage = next here to_login

to_config_stage : (c : Bool) → c ≡ true → Reaches c handshake config
to_config_stage true e = next to_login_stage (to_next login_config)
to_config_stage false e = cc

to_play_stage : (c : Bool) → Reaches c handshake play
to_play_stage true = next (to_config_stage true refl) (to_next config_play)
to_play_stage false = next to_login_stage (to_next login_play)

with_packets :
    (v : Version) (s : Stage) → has_packets v s ≡ true → Reaches (has_config v) handshake s
with_packets v handshake e = here
with_packets v status e = next here to_status
with_packets v login e = to_login_stage
with_packets v config e = to_config_stage (has_config v) e
with_packets v play e = to_play_stage (has_config v)

reached :
    (v : Version) {c : Bool} {s : Stage}
    → c ≡ has_config v
    → Reaches c handshake s
    → (s ≡ handshake) ⊎ (has_packets v s ≡ true)
reached v e here = inl refl
reached v e (next r st) = inr (Step-packets v e st)

-- In every version the stages that a handler reaches from the handshake are the handshake itself and
-- the stages whose packets the version lists.
pub reaches-iff-has_packets :
    (v : Version) (s : Stage)
    → Reaches (has_config v) handshake s ↔ ((s ≡ handshake) ⊎ (has_packets v s ≡ true))
reaches-iff-has_packets v s = (
  λ r. reached v refl r,
  λ x. elim x [
    | inl e ↦ subst (Reaches (has_config v) handshake) (sym e) here
    | inr e ↦ with_packets v s e
  ],
)
