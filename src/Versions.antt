-- ===== src/Versions.antt =====
-- src/protocol/versions/mod.rs: the protocol states that the macros build from a version's tables.
pub mod Designators
pub mod Stages
pub mod Supported
pub mod Connection
pub mod V4
pub mod V5
pub mod V47
pub mod V107
pub mod V108
pub mod V109
pub mod V110
pub mod V210
pub mod V315
pub mod V316
pub mod V335
pub mod V338
pub mod V340
pub mod V401
pub mod V404
pub mod V498
pub mod V578
pub mod V753
pub mod V754
pub mod V755
pub mod V756
pub mod V757
pub mod V758
pub mod V759
pub mod V760
pub mod V761
pub mod V762
pub mod V763
pub mod V764
pub mod V765
pub mod V766
pub mod V767
pub mod V769
pub mod V770
pub mod V771
pub mod V772
pub mod V773
pub mod V774
use protocraft_framework.Prelude.{
  ℕ, List, [], ◌∷◌, String, Option, none, some, ◌==◌, if◌then◌else◌, Bool, true, false,
}
use protocraft_framework.Traits.{ProtocolState, ToWriter, Serializable}
use protocraft_framework.Error.{Action, WriteError, Out}
use protocraft_framework.Protocol.Streams.{WriteStream}
use protocraft_framework.Protocol.Read.{Handshake}
use protocraft_framework.Protocol.Write.{write_packet_internal}
use mathlib.Core.Option
use text.Mathlib.Text.{◌==◌ as str_eq}

-- The arms `$id => $packet_name` of one enum of packets. A designator is its variant's name.
abbrev pub Table : Type 0
Table = List (ℕ × String)

-- `designator_from_id`: the first arm with the id.
unfoldable pub designator_from_id : Table → ℕ → Option String
designator_from_id [] id = none
designator_from_id ((i, name) ∷ arms) id = if i == id then some name else designator_from_id arms id

-- `id`: the arm of the variant; `none` for a name that is no variant.
unfoldable pub designator_id : Table → String → Option ℕ
designator_id [] packet = none
designator_id ((i, name) ∷ arms) packet =
    if str_eq name packet then some i else designator_id arms packet

pub data Side : Type 0 where
  clientbound serverbound : Side

pub data Stage : Type 0 where
  handshake status login config play : Stage

abbrev pub reciprocal : Side → Side
reciprocal clientbound = serverbound
reciprocal serverbound = clientbound

-- The tables of one stage.
pub record Tables : Type 0 where
  pub to_client : Table
  pub to_server : Table

abbrev pub table : Tables → Side → Table
table t clientbound = t.to_client
table t serverbound = t.to_server

-- What `build_protocol!` is given; `build_protocol_pre_1_21_2!` has no config stage.
pub record Version : Type 0 where
  pub version : ℕ
  pub status_tables : Tables
  pub login_tables : Tables
  pub config_tables : Option Tables
  pub play_tables : Tables

-- The tables of a stage that has packets.
abbrev pub stage_tables : Version → Stage → Option Tables
stage_tables v handshake = none
stage_tables v status = some v.status_tables
stage_tables v login = some v.login_tables
stage_tables v config = v.config_tables
stage_tables v play = some v.play_tables

-- `STATE_NAME`.
abbrev pub state_name : Side → Stage → String
state_name clientbound handshake = "clientbound_handshake"
state_name clientbound status = "clientbound_status"
state_name clientbound login = "clientbound_login"
state_name clientbound config = "clientbound_config"
state_name clientbound play = "clientbound_play"
state_name serverbound handshake = "serverbound_handshake"
state_name serverbound status = "serverbound_status"
state_name serverbound login = "serverbound_login"
state_name serverbound config = "serverbound_config"
state_name serverbound play = "serverbound_play"

-- `_build_protocol_state!`
abbrev pub protocol_state : Tables → Side → Stage → ProtocolState
protocol_state t side stage = record {
  state_name = state_name side stage;
  PacketDesignator = String;
  designator_from_id = designator_from_id (table t side);
}

-- The handshake states: a server knows the id 0, a client none.
unfoldable pub handshake_designator : Side → ℕ → Option Handshake
handshake_designator clientbound id = none
handshake_designator serverbound id = if id == 0 then some Handshake.standard else none

-- `write_packet` of `_build_protocol_writer!`: an end in one state writes the packets of the
-- reciprocal one. A packet is a variant of that enum, so that it has an id.
module _ {A : Type 0} (t : ToWriter A) (size : Serializable A) (st : WriteStream) where
  pub write_packet :
      Option ℕ
      → st.Level
      → Tables
      → Side
      → String
      → A
      → Option (Action st.Base (WriteError st.Error) (Unit {0}))
  write_packet threshold level tables side packet payload =
      Option.map (λ id. write_packet_internal t size st threshold level id payload)
        (designator_id (table tables (reciprocal side)) packet)
