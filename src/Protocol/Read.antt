-- ===== src/Protocol/Read.antt =====
-- `read_packet` and `read_handshake` of src/protocol/mod.rs, as the macros expand for the
-- synchronous traits.
pub mod Frame
pub mod Packet
pub mod Compressed
pub mod Opening
use protocraft_framework.Prelude.{
  ℕ, ◌^◌, Bool, true, false, not, leb, ◌==◌, if◌then◌else◌, Option, none, some, String,
}
use protocraft_framework.Error.{
  Out, Action, Result, ReadError, pure, throw, guard, follow, map_err, ◌>>=◌, ◌>>◌,
}
use protocraft_framework.Traits.{Reader, BoundedReader, ProtocolState, ProtocolStateHandler}
use protocraft_framework.Primatives.VarInt.{VarInt, read_varint}
use protocraft_framework.Primatives.HandshakeVersion.{HandshakeVersion, read_handshake_version}
use protocraft_framework.Protocol.Streams.{ReadStream, scoped}

-- `Handshake`: what `read_handshake` hands to its handler.
pub data Handshake : Type 0 where
  standard legacy1_6 legacy1_5 legacy1_3 : Handshake

-- `i32` below 0, on the bit pattern.
abbrev pub is_negative : ℕ → Bool
is_negative i = leb (2 ^ 31) i

module _ {E R : Type 0} (br : BoundedReader E R) where
  -- `discard_remaining!`
  pub discard_remaining : Action R (ReadError E) (Unit {0})
  discard_remaining r = map_err ReadError.stream_error (br.reader.discard (br.remaining r) r)

  -- The handler's result is returned after the discard, an error too.
  pub then_discard : {A : Type 0} → Action R (ReadError E) A → Action R (ReadError E) A
  then_discard m r =
      let o = m r in
      let d = discard_remaining o.state in
      follow d.result d.state (λ _ s. record { result = o.result; state = s })

  module _ {D Res : Type 0} (state_name : String) (h : ProtocolStateHandler D Res) where
    -- `if let Some(designator) = S::designator_from_id(packet_id) { … } else { … }`
    pub dispatch : ℕ → Option D → Action R (ReadError E) Res
    dispatch id (some designator) = then_discard (h.handle_packet br designator)
    dispatch id none = throw (ReadError.unknown_packet state_name id)

    -- `handle_helper!`
    pub handle_helper : (ℕ → Option D) → Action R (ReadError E) Res
    handle_helper designator_from_id = do
      packet_id ← read_varint br.reader
      dispatch packet_id.bits (designator_from_id packet_id.bits)

module _ (st : ReadStream) (s : ProtocolState) {Res : Type 0}
    (h : ProtocolStateHandler s.PacketDesignator Res) where
  open st use {Error, Base, Bounded, Decompress, Inner, bounded, inner}

  -- What `read_packet` does inside the bound of the packet's length.
  pub read_body : Option ℕ → Action Bounded (ReadError Error) Res
  read_body none = handle_helper bounded s.state_name h s.designator_from_id
  read_body (some threshold) = do
    data_length ← read_varint bounded.reader
    guard (not (is_negative data_length.bits)) (ReadError.negative_length "uncompressed_size")
    let decompressed = scoped st.with_decompression st.end_decompression (
        scoped (st.with_inner_bound data_length.bits) st.end_inner_bound
          (handle_helper inner s.state_name h s.designator_from_id))
    if data_length.bits == 0
        then handle_helper bounded s.state_name h s.designator_from_id
        else decompressed

  -- "3-Byte VarInts are the maximum allowed for packet lengths"
  pub read_packet_length : Action Base (ReadError Error) VarInt
  read_packet_length = scoped (st.with_bound 3) st.end_bound (read_varint bounded.reader)

  pub read_packet : Option ℕ → Action Base (ReadError Error) Res
  read_packet compression_threshold = do
    packet_length ← read_packet_length
    guard (not (is_negative packet_length.bits)) (ReadError.negative_length "packet_length")
    scoped (st.with_bound packet_length.bits) st.end_bound (read_body compression_threshold)

-- A state whose packets are the handshakes.
module _ (st : ReadStream) (state_name : String) (designator_from_id : ℕ → Option Handshake)
    {Res : Type 0} (h : ProtocolStateHandler Handshake Res) where
  open st use {Error, Base, Bounded, bounded}

  -- What `read_handshake` does for each kind.
  read_handshake_as : HandshakeVersion → Action Base (ReadError Error) Res
  read_handshake_as (HandshakeVersion.standard bound) =
      scoped (st.with_bound bound) st.end_bound
        (handle_helper bounded state_name h designator_from_id)
  read_handshake_as (HandshakeVersion.legacy1_6 bound) =
      scoped (st.with_bound bound) st.end_bound
        (then_discard bounded (h.handle_packet bounded Handshake.legacy1_6))
  read_handshake_as HandshakeVersion.pre1_6 =
      scoped (st.with_bound 0) st.end_bound
        (then_discard bounded (h.handle_packet bounded Handshake.legacy1_5))
  read_handshake_as HandshakeVersion.pre1_3 =
      scoped (st.with_bound 0) st.end_bound
        (then_discard bounded (h.handle_packet bounded Handshake.legacy1_3))

  pub read_handshake : Action Base (ReadError Error) Res
  read_handshake = read_handshake_version st.base >>= read_handshake_as
