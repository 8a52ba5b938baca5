-- ===== src/Protocol/RoundTrip.antt =====
-- A packet that src/protocol/mod.rs writes at one end of a connection is what it reads at the other.
use protocraft_framework.Prelude.{
  ℕ, ◌^◌, ◌<◌, ◌≤◌, ◌≡◌, ◌⊎◌, inl, inr, sym, List, [], ◌++◌, length, append-nil, subst, some, none,
  arith,
}
use protocraft_framework.Error.{Result, done, fail, ReadError, WriteError}
use protocraft_framework.Traits.{ToWriter, Serializable, ProtocolState, ProtocolStateHandler}
use protocraft_framework.Primatives.VarInt.Spec.{varint_bytes}
use protocraft_framework.Protocol.Streams.{ReadStream, WriteStream}
use protocraft_framework.Protocol.Streams.Contract.{IsReadStream, IsWriteStream, Window}
use protocraft_framework.Protocol.Read.{read_packet}
use protocraft_framework.Protocol.Read.Frame.{Handles}
use protocraft_framework.Protocol.Read.Packet.{
  body, plain_frame, stored_frame, compressed_frame, read_packet_plain, read_packet_stored,
}
use protocraft_framework.Protocol.Read.Compressed.{InnerWindow, read_packet_compressed}
use protocraft_framework.Protocol.Write.{max_packet_size, i32_max, write_packet_internal}
use protocraft_framework.Protocol.Write.Packet.{Serializes, write_packet_plain, write_packet_stored}
use protocraft_framework.Protocol.Write.Compressed.{write_packet_compressed}

-- The two ends: the reader of `pipe w` yields what the writer `w` has sent, and inflates what the
-- writer deflates. What the writer was fed and holds back until a flush does not reach the reader.
pub record IsPipe (wst : WriteStream) (ws : IsWriteStream wst) (rst : ReadStream)
    (rs : IsReadStream rst) (pipe : wst.Base → rst.Base) : Type 0 where
  pub carries : (w : wst.Base) (bs : List ℕ) → ws.Sent w bs → rs.Holds (pipe w) bs
  pub inflates : (d z : List ℕ) → ws.Deflates d z → rs.Inflates z d

module _ {A Res : Type 0} (t : ToWriter A) (size : Serializable A) (packet : A) (bytes : List ℕ)
    (packet_lem : Serializes t size packet bytes) (id : ℕ) (fits : id < 2 ^ 32) (wst : WriteStream)
    (ws : IsWriteStream wst) (rst : ReadStream) (rs : IsReadStream rst) (pipe : wst.Base → rst.Base)
    (link : IsPipe wst ws rst rs pipe) (level : wst.Level) (s : ProtocolState)
    (h : ProtocolStateHandler s.PacketDesignator Res) (d : s.PacketDesignator)
    (known : s.designator_from_id id ≡ some d) (res : Result (ReadError rst.Error) Res) where
  -- With no compression, over a connection that carries nothing yet: a packet whose id and payload
  -- are at most 2 ^ 21 - 1 bytes is written, and if the state at the other end knows the id and the
  -- handler of the id ends with a result or an error on the payload, `read_packet` there ends with
  -- the same; nothing is left on the connection, whatever the handler left unread.
  pub read_packet-write_packet_plain :
      (w : wst.Base)
      → length (body id bytes) ≤ max_packet_size
      → Handles (Window rs.BoundedHolds 0 []) (h.handle_packet rst.bounded d) bytes res
      → ws.Fed w []
      → (w' : wst.Base) × (r' : rst.Base) × (write_packet_internal t size wst none level id packet w
          ≡ done tt w')
        × (read_packet rst s h none (pipe w') ≡ record { result = res; state = r' })
        × rs.Holds r' []
  read_packet-write_packet_plain w small handles fed =
      let (w', e, fed', sent) =
        write_packet_plain t size packet bytes packet_lem id fits wst ws level w [] small fed in
      let (r', e', h') =
        read_packet_plain rst rs s h id bytes [] d res fits known (pipe w') (omega arith) handles (
          subst (rs.Holds (pipe w')) (sym (append-nil (plain_frame id bytes)))
            (link.carries w' (plain_frame id bytes) sent)) in
      (w', r', e, e', h')

  -- With compression on at both ends, over a connection that carries nothing yet: a packet whose id
  -- and payload are shorter than the writer's threshold and, with the byte of the data length, at
  -- most 2 ^ 21 - 1 bytes is written, and if the state at the other end knows the id and the
  -- handler of the id ends with a result or an error on the payload, `read_packet` there ends with
  -- the same, whatever the reader's threshold; nothing is left on the connection.
  pub read_packet-write_packet_stored :
      (threshold reader_threshold : ℕ) (w : wst.Base)
      → length (body id bytes) < threshold
      → length (varint_bytes 0 ++ body id bytes) ≤ max_packet_size
      → Handles (Window rs.BoundedHolds 0 []) (h.handle_packet rst.bounded d) bytes res
      → ws.Fed w []
      → (w' : wst.Base) × (r' : rst.Base) × (write_packet_internal t size wst
            (some threshold)
            level
            id
            packet
            w
          ≡ done tt w')
        × (read_packet rst s h (some reader_threshold) (pipe w')
            ≡ record { result = res; state = r' })
        × rs.Holds r' []
  read_packet-write_packet_stored threshold reader_threshold w below small handles fed =
      let (w', e, fed', sent) =
        write_packet_stored t size packet bytes packet_lem id fits wst ws level threshold w [] below
          small fed in
      let (r', e', h') =
        read_packet_stored rst rs s h id bytes [] d res fits known reader_threshold (pipe w')
          (omega arith) handles
          (subst (rs.Holds (pipe w')) (sym (append-nil (stored_frame id bytes)))
            (link.carries w' (stored_frame id bytes) sent)) in
      (w', r', e, e', h')

  -- With compression on at both ends, over a connection that carries nothing yet, for a packet
  -- whose id and payload are at least as long as the writer's threshold and no longer than
  -- `i32::MAX`: there is a ZLib stream of them that the writer makes. If it is, with the data length
  -- before it, longer than 2 ^ 21 - 1 bytes, the write fails with the error `OverSized` of just that
  -- length. If not, the packet is written, and if the state at the other end knows the id and the
  -- handler of the id ends with a result or an error on the payload, `read_packet` there ends with
  -- the same; then an end of the ZLib stream that the decompressing reader has not taken is left on
  -- the connection, and nothing else.
  pub read_packet-write_packet_compressed :
      (threshold reader_threshold : ℕ) (w : wst.Base)
      → threshold ≤ length (body id bytes)
      → length (body id bytes) ≤ i32_max
      → ((z : List ℕ)
          → ws.Deflates (body id bytes) z
          → Handles (InnerWindow rst rs z []) (h.handle_packet rst.inner d) bytes res)
      → ws.Fed w []
      → (z : List ℕ) × (w' : wst.Base) × ws.Deflates (body id bytes) z
        × (((max_packet_size < length (varint_bytes (length (body id bytes)) ++ z))
              × (write_packet_internal t size wst (some threshold) level id packet w
                  ≡ fail
                      (WriteError.over_sized "no_compression_size" max_packet_size
                        (length (varint_bytes (length (body id bytes)) ++ z)))
                      w'))
            ⊎ ((length (varint_bytes (length (body id bytes)) ++ z) ≤ max_packet_size)
                × (write_packet_internal t size wst (some threshold) level id packet w ≡ done tt w')
                × ((r' : rst.Base) × (part : List ℕ) × (left : List ℕ) × (part ++ left ≡ z)
                    × (read_packet rst s h (some reader_threshold) (pipe w')
                        ≡ record { result = res; state = r' })
                    × rs.Holds r' left)))
  read_packet-write_packet_compressed threshold reader_threshold w above small handles fed =
      let (z, w', deflates, outcome) =
        write_packet_compressed t size packet bytes packet_lem id fits wst ws level threshold w []
          above small fed in
      elim outcome [
        | inr (large, e, h') ↦ (z, w', deflates, inl (large, e))
        | inl (room, e, fed', sent) ↦
            let frame = compressed_frame (length (body id bytes)) z in
            let (part, left, r', split, e', h') =
              read_packet_compressed rst rs s h id bytes [] d res fits known reader_threshold z
                (pipe w') (omega arith) (omega arith) (link.inflates (body id bytes) z deflates)
                (handles z deflates)
                (subst (rs.Holds (pipe w')) (sym (append-nil frame))
                  (link.carries w' frame sent)) in
            (
              z,
              w',
              deflates,
              inr (room, e, (r', part, left, split, e', subst (rs.Holds r') (append-nil left) h')),
            )
      ]
