-- ===== src/Tests/Connections.antt =====
-- The states of a connection: their tables, their transitions, and a packet from end to end.
use protocraft_framework.Prelude.{ℕ, ◌≡◌, ◌↔◌, ◌⊎◌, refl, List, [], ◌∷◌, true, some, none, arith}
use protocraft_framework.Error.{done}
use protocraft_framework.Protocol.Streams.Contract.{IsBounded-IsSource, Window}
use protocraft_framework.Traits.Memory.{Outbox}
use protocraft_framework.Protocol.Read.{read_packet}
use protocraft_framework.Versions.{
  Side, Stage, designator_from_id, designator_id, protocol_state, write_packet,
}
use protocraft_framework.Versions.Stages.{
  Reaches, here, next, to_login, to_next, login_config, config_play, calls, calls-depth, has_config,
  has_packets, reaches-iff-has_packets,
}
use protocraft_framework.Versions.Supported.{designator_from_id_iff}
use protocraft_framework.Versions.Connection.{read_packet-write_packet}
use protocraft_framework.Versions.V4.{version_4}
use protocraft_framework.Versions.V774.{version_774}
use protocraft_framework.Tests.Fixtures.{
  reads, reads_lem, writes, writes_lem, pipe, pipe_lem, packet, u16_writer, u16_size, packet_lem,
  first_byte, seven, first_byte-Handles, after,
}
use mathlib.Core.Option

designator_from_id_iff_example :
    (designator_from_id version_4.status_tables.to_server 1 ≡ some "Ping")
    ↔ (designator_id version_4.status_tables.to_server "Ping" ≡ some 1)
designator_from_id_iff_example =
    designator_from_id_iff 0 version_4 Stage.status version_4.status_tables Side.serverbound 1
      "Ping" refl refl

known : designator_id version_4.status_tables.to_server "Ping" ≡ some 1
unfolding designator_id
known = refl

-- A client sends a ping.
read_packet-write_packet_example :
    (w' : Outbox) × (r' : List ℕ) × (Option.map
        (λ m. m (after []))
        (write_packet u16_writer u16_size writes none 5 version_4.status_tables Side.clientbound
          "Ping" packet)
      ≡ some (done tt w'))
    × (read_packet reads
          (protocol_state version_4.status_tables Side.serverbound Stage.status)
          first_byte
          none
          w'.sent
        ≡ record { result = seven; state = r' })
    × (r' ≡ [])
read_packet-write_packet_example =
    read_packet-write_packet u16_writer u16_size packet (7 ∷ 9 ∷ []) packet_lem writes writes_lem
      reads reads_lem pipe pipe_lem 5 0 version_4 Stage.status version_4.status_tables
      Side.clientbound 1 "Ping" first_byte seven (after []) refl refl known (omega arith)
      (omega arith)
      (first_byte-Handles reads.bounded.reader (Window reads_lem.BoundedHolds 0 [])
        (IsBounded-IsSource reads.bounded reads_lem.BoundedHolds reads_lem.bounded_lem 0 []))
      refl

-- The login of a version with a config stage.
abbrev to_play : Reaches true Stage.handshake Stage.play
to_play = next (next (next here to_login) (to_next login_config)) (to_next config_play)

calls-depth_example : calls to_play ≡ 3
calls-depth_example = calls-depth to_play

reaches-iff-has_packets_example :
    Reaches (has_config version_774) Stage.handshake Stage.config
    ↔ ((Stage.config ≡ Stage.handshake) ⊎ (has_packets version_774 Stage.config ≡ true))
reaches-iff-has_packets_example = reaches-iff-has_packets version_774 Stage.config
