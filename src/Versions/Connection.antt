-- ===== src/Versions/Connection.antt =====
-- The two ends of a connection in a supported version: what one end writes with the `write_packet`
-- of src/protocol/versions/mod.rs, and what the other end's `read_packet` makes of it.
use protocraft_framework.Prelude.{
  ℕ, ◌^◌, ◌<◌, ◌≤◌, ◌≡◌, List, [], length, String, some, none, get_elem?,
}
use protocraft_framework.Error.{Result, done, ReadError}
use protocraft_framework.Traits.{ToWriter, Serializable, ProtocolStateHandler}
use protocraft_framework.Protocol.Streams.{ReadStream, WriteStream}
use protocraft_framework.Protocol.Streams.Contract.{IsReadStream, IsWriteStream, Window}
use protocraft_framework.Protocol.Read.{read_packet}
use protocraft_framework.Protocol.Read.Frame.{Handles}
use protocraft_framework.Protocol.Read.Packet.{body}
use protocraft_framework.Protocol.Write.{max_packet_size}
use protocraft_framework.Protocol.Write.Packet.{Serializes}
use protocraft_framework.Protocol.RoundTrip.{IsPipe, read_packet-write_packet_plain}
use protocraft_framework.Versions.{
  Version, Stage, Side, Tables, stage_tables, table, reciprocal, designator_id, protocol_state,
  write_packet,
}
use protocraft_framework.Versions.Designators.{designator_from_id-designator_id}
use protocraft_framework.Versions.Supported.{versions, table-IsDistinct}
use mathlib.Core.Option

module _ {A Res : Type 0} (t : ToWriter A) (size : Serializable A) (payload : A) (bytes : List ℕ)
    (packet_lem : Serializes t size payload bytes) (wst : WriteStream) (ws : IsWriteStream wst)
    (rst : ReadStream) (rs : IsReadStream rst) (pipe : wst.Base → rst.Base)
    (link : IsPipe wst ws rst rs pipe) (level : wst.Level) where
  -- In a stage of a version that the crate exports, with no compression and over a connection that
  -- carries nothing yet: a packet of the other end's table of that stage, whose id and payload are
  -- at most 2 ^ 21 - 1 bytes, is written, and if the other end's handler ends with a result or an
  -- error for exactly this packet and payload, `read_packet` there, in the same stage, ends with
  -- the same; nothing is left on the connection.
  pub read_packet-write_packet :
      (n : ℕ) (v : Version) (stage : Stage) (tables : Tables) (side : Side) (id : ℕ)
      (packet : String) (h : ProtocolStateHandler String Res)
      (res : Result (ReadError rst.Error) Res) (w : wst.Base)
      → get_elem? versions n ≡ some v
      → stage_tables v stage ≡ some tables
      → designator_id (table tables (reciprocal side)) packet ≡ some id
      → id < 2 ^ 32
      → length (body id bytes) ≤ max_packet_size
      → Handles (Window rs.BoundedHolds 0 []) (h.handle_packet rst.bounded packet) bytes res
      → ws.Fed w []
      → (w' : wst.Base) × (r' : rst.Base) × (Option.map
            (λ m. m w)
            (write_packet t size wst none level tables side packet payload)
          ≡ some (done tt w'))
        × (read_packet rst (protocol_state tables (reciprocal side) stage) h none (pipe w')
            ≡ record { result = res; state = r' })
        × rs.Holds r' []
  unfolding write_packet
  read_packet-write_packet n v stage tables side id packet h res w e_v e_t known fits small handles
        fed =
      let distinct = table-IsDistinct n v stage tables (reciprocal side) e_v e_t in
      let known_back =
        designator_from_id-designator_id (table tables (reciprocal side)) id packet distinct
          known in
      let (w', r', e, e', h') =
        read_packet-write_packet_plain t size payload bytes packet_lem id fits wst ws rst rs pipe
          link level (protocol_state tables (reciprocal side) stage) h packet known_back res w small
          handles fed in
      (w', r', rw (known, e), e', h')
