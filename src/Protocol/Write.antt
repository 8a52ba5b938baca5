-- ===== src/Protocol/Write.antt =====
-- `write_packet_internal` of src/protocol/mod.rs, as the macro expands for the synchronous traits.
pub mod Packet
pub mod Compressed
use protocraft_framework.Prelude.{ℕ, ◌+◌, ◌-◌, ◌^◌, not, ltb, if◌then◌else◌, Option, none, some}
use protocraft_framework.Error.{Out, Action, WriteError, throw, guard, follow, map_err, ◌>>=◌, ◌>>◌}
use protocraft_framework.Traits.{Writer, ToWriter, Serializable}
use protocraft_framework.Primatives.VarInt.{varint, varint_size, write_varint}
use protocraft_framework.Protocol.Streams.{WriteStream, scoped}

abbrev pub max_packet_size : ℕ
max_packet_size = 0x1F_FFFF

-- `i32::MAX`
abbrev pub i32_max : ℕ
i32_max = 2 ^ 31 - 1

-- `flush!`
abbrev pub flush : {E W : Type 0} → Writer E W → Action W (WriteError E) (Unit {0})
flush wr w = map_err WriteError.stream_error (wr.flush w)

module _ {A : Type 0} (t : ToWriter A) (size : Serializable A) where
  -- The id and the packet, in every branch the last that is written.
  pub write_body : {E W : Type 0} → Writer E W → ℕ → A → Action W (WriteError E) (Unit {0})
  write_body wr id packet = do write_varint wr (varint id); t.to_writer wr packet

  pub total_size : ℕ → A → ℕ
  total_size id packet = varint_size (varint id) + size.size packet

  module _ (st : WriteStream) where
    open st use {Error, Base, Pre, Compress, Payload, Level, base, pre, compress}

    -- `with_pre_compression!`
    pub pre_compress : Level → ℕ → A → Action Base (WriteError Error) (ℕ × Payload)
    pre_compress level id packet w =
        let o = (do write_body pre id packet; flush pre) (st.pre_compression_writer level w) in
        follow o.result (st.drop_pre o.state)
          (λ _ _. map_err WriteError.stream_error (st.finish o.state))

    -- `with_compression!`
    pub write_compressed : Level → Payload → ℕ → A → Action Base (WriteError Error) (Unit {0})
    write_compressed level payload id packet =
        scoped (st.with_compression level) st.end_compression (do
          (λ w. map_err WriteError.stream_error (st.initialize payload w))
          write_body compress id packet)

    -- The branch with no compression.
    pub write_plain : ℕ → A → Action Base (WriteError Error) (Unit {0})
    write_plain id packet = do
      let total = total_size id packet
      guard (not (ltb max_packet_size total))
          (WriteError.over_sized "no_compression_size" max_packet_size total)
      write_varint base (varint total)
      write_body base id packet

    -- Below the threshold.
    pub write_stored : ℕ → A → Action Base (WriteError Error) (Unit {0})
    write_stored id packet = do
      let total = total_size id packet + 1
      guard (not (ltb max_packet_size total))
          (WriteError.over_sized "compression_below_size" max_packet_size total)
      write_varint base (varint total)
      write_varint base (varint 0)
      write_body base id packet

    -- From the threshold on.
    pub write_deflated : Level → ℕ → A → Action Base (WriteError Error) (Unit {0})
    write_deflated level id packet = do
      (compressed_size, payload) ← pre_compress level id packet
      let size = total_size id packet
      guard (not (ltb i32_max size)) (WriteError.over_sized "uncompressed_varint" i32_max size)
      let total = varint_size (varint size) + compressed_size
      guard (not (ltb max_packet_size total))
          (WriteError.over_sized "no_compression_size" max_packet_size total)
      write_varint base (varint total)
      write_varint base (varint size)
      write_compressed level payload id packet

    -- `match compression_threshold`
    pub write_form : Option ℕ → Level → ℕ → A → Action Base (WriteError Error) (Unit {0})
    write_form none level id packet = write_plain id packet
    write_form (some threshold) level id packet =
        if ltb (total_size id packet) threshold
        then write_stored id packet
        else write_deflated level id packet

    pub write_packet_internal : Option ℕ → Level → ℕ → A → Action Base (WriteError Error) (Unit {0})
    write_packet_internal compression_threshold compression_level id packet = do
      write_form compression_threshold compression_level id packet
      flush base
