-- ===== src/Protocol/Write/Packet.antt =====
-- `write_packet_internal`: the bytes of each form of a packet, and the packets that are refused.
use protocraft_framework.Prelude.{
  ℕ, ◌+◌, ◌^◌, ◌<◌, ◌≤◌, ◌≡◌, List, ◌++◌, length, Option, some, none, arith, length-append, lt→ltb,
  le→ltb,
}
use protocraft_framework.Error.{done, fail, WriteError}
use protocraft_framework.Traits.{Writer, ToWriter, Serializable}
use protocraft_framework.Traits.Contract.{IsSink, Writes, Writes->>}
use protocraft_framework.Primatives.VarInt.{varint, write_varint}
use protocraft_framework.Primatives.VarInt.Spec.{varint_bytes}
use protocraft_framework.Primatives.VarInt.Write.{Writes-write_varint}
use protocraft_framework.Primatives.VarInt.Size.{length-varint_bytes}
use protocraft_framework.Protocol.Streams.{WriteStream}
use protocraft_framework.Protocol.Streams.Contract.{IsWriteStream}
use protocraft_framework.Protocol.Read.Packet.{body, plain_frame, stored_frame}
use protocraft_framework.Protocol.Write.{
  max_packet_size, write_body, total_size, write_plain, write_stored, write_form,
  write_packet_internal,
}

-- What `ToWriter` and `Serializable` promise of a packet: its bytes, on every writer, and their
-- number.
pub record Serializes {A : Type 0} (t : ToWriter A) (size : Serializable A) (packet : A)
    (bytes : List ℕ) : Type 1 where
  pub writes :
      {E W : Type 0} (wr : Writer E W) (Fed : W → List ℕ → Type 0)
      → IsSink wr Fed
      → Writes Fed (t.to_writer wr packet) bytes
  pub size_lem : size.size packet ≡ length bytes

module _ {A : Type 0} (t : ToWriter A) (size : Serializable A) (packet : A) (bytes : List ℕ)
    (packet_lem : Serializes t size packet bytes) (id : ℕ) (fits : id < 2 ^ 32) where
  pub Writes-write_body :
      {E W : Type 0} (wr : Writer E W) (Fed : W → List ℕ → Type 0)
      → IsSink wr Fed
      → Writes Fed (write_body t size wr id packet) (body id bytes)
  unfolding write_body
  Writes-write_body wr Fed s =
      Writes->> Fed (write_varint wr (varint id)) (t.to_writer wr packet) (varint_bytes id) bytes
        (Writes-write_varint wr Fed id s fits) (packet_lem.writes wr Fed s)

  pub total_size_lem : total_size t size id packet ≡ length (body id bytes)
  unfolding total_size
  total_size_lem = omega (
    arith,
    length-varint_bytes id fits,
    packet_lem.size_lem,
    length-append (varint_bytes id) bytes,
  )

  module _ (st : WriteStream) (is : IsWriteStream st) (level : st.Level) where
    pub flush_after :
        (w w' : st.Base) (d : List ℕ) (threshold : Option ℕ)
        → write_form t size st threshold level id packet w ≡ done tt w'
        → is.Fed w' d
        → (w'' : st.Base) × (write_packet_internal t size st threshold level id packet w
            ≡ done tt w'')
          × is.Fed w'' d
          × is.Sent w'' d
    unfolding write_packet_internal
    flush_after w w' d threshold e h =
        let (w'', e', h', sent) = is.base_flushing.flush_sends w' d h in (w'', rw (e, e'), h', sent)

    write_plain_lem :
        length (body id bytes) ≤ max_packet_size
        → Writes is.Fed (write_plain t size st id packet) (plain_frame id bytes)
    unfolding write_plain
    write_plain_lem small =
        rw (total_size_lem, le→ltb _ _ small)
          (Writes->> is.Fed (write_varint st.base (varint (length (body id bytes)))) _
            (varint_bytes (length (body id bytes))) (body id bytes)
            (Writes-write_varint st.base is.Fed (length (body id bytes)) is.base_sink (omega arith))
            (Writes-write_body st.base is.Fed is.base_sink))

    write_stored_lem :
        length (varint_bytes 0 ++ body id bytes) ≤ max_packet_size
        → Writes is.Fed (write_stored t size st id packet) (stored_frame id bytes)
    unfolding write_stored
    write_stored_lem small =
        let stored = varint_bytes 0 ++ body id bytes in
        let total : total_size t size id packet + 1 ≡ length stored =
          omega (arith, total_size_lem) in
        rw (total, le→ltb _ _ small)
          (Writes->> is.Fed (write_varint st.base (varint (length stored))) _
            (varint_bytes (length stored)) stored
            (Writes-write_varint st.base is.Fed (length stored) is.base_sink (omega arith))
            (Writes->> is.Fed (write_varint st.base (varint 0)) _ (varint_bytes 0) (body id bytes)
              (Writes-write_varint st.base is.Fed 0 is.base_sink (omega arith))
              (Writes-write_body st.base is.Fed is.base_sink)))

    -- With no compression, a packet whose id and payload are at most 2 ^ 21 - 1 bytes is written
    -- and flushed: the writer has taken, and has actually written, its length, its id and its
    -- payload, after what it had taken before.
    pub write_packet_plain :
        (w : st.Base) (d : List ℕ)
        → length (body id bytes) ≤ max_packet_size
        → is.Fed w d
        → (w' : st.Base) × (write_packet_internal t size st none level id packet w ≡ done tt w')
          × is.Fed w' (d ++ plain_frame id bytes)
          × is.Sent w' (d ++ plain_frame id bytes)
    write_packet_plain w d small h =
        let (w1, e1, h1) = write_plain_lem small w d h in
        flush_after w w1 (d ++ plain_frame id bytes) none (unfold write_form in e1) h1

    -- With compression, a packet whose id and payload are shorter than the threshold and, with the
    -- byte of the data length, at most 2 ^ 21 - 1 bytes is written and flushed: the writer has
    -- taken, and has actually written, the length, a data length of 0, the id and the payload,
    -- after what it had taken before.
    pub write_packet_stored :
        (threshold : ℕ) (w : st.Base) (d : List ℕ)
        → length (body id bytes) < threshold
        → length (varint_bytes 0 ++ body id bytes) ≤ max_packet_size
        → is.Fed w d
        → (w' : st.Base) × (write_packet_internal t size st (some threshold) level id packet w
            ≡ done tt w')
          × is.Fed w' (d ++ stored_frame id bytes)
          × is.Sent w' (d ++ stored_frame id bytes)
    write_packet_stored threshold w d below small h =
        let (w1, e1, h1) = write_stored_lem small w d h in
        flush_after w w1 (d ++ stored_frame id bytes) (some threshold)
          (unfold write_form in rw (total_size_lem, lt→ltb _ _ below, e1)) h1

    -- With no compression, a packet whose id and payload are longer than 2 ^ 21 - 1 bytes fails
    -- with the error `OverSized` of that length, and the writer is as it was.
    pub write_packet_plain_over_sized :
        (w : st.Base)
        → max_packet_size < length (body id bytes)
        → write_packet_internal t size st none level id packet w
          ≡ fail
              (WriteError.over_sized "no_compression_size" max_packet_size (length (body id bytes)))
              w
    unfolding write_packet_internal write_form write_plain
    write_packet_plain_over_sized w large = rw (total_size_lem, lt→ltb _ _ large)

    -- With compression, a packet below the threshold whose id and payload, with the byte of its
    -- data length, are longer than 2 ^ 21 - 1 bytes fails with the error `OverSized` of that
    -- length, and the writer is as it was.
    pub write_packet_stored_over_sized :
        (threshold : ℕ) (w : st.Base)
        → length (body id bytes) < threshold
        → max_packet_size < length (body id bytes) + 1
        → write_packet_internal t size st (some threshold) level id packet w
          ≡ fail
              (WriteError.over_sized "compression_below_size" max_packet_size
                (length (body id bytes) + 1))
              w
    unfolding write_packet_internal write_form write_stored
    write_packet_stored_over_sized threshold w below large =
        rw (total_size_lem, lt→ltb _ _ below, lt→ltb _ _ large)
