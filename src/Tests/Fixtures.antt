-- ===== src/Tests/Fixtures.antt =====
-- The streams, the packet and the handler of the tests.
use protocraft_framework.Prelude.{ℕ, List, [], ◌∷◌, refl, ap, arith}
use protocraft_framework.Error.{Result, ok}
use protocraft_framework.Traits.{
  Reader, ToWriter, Serializable, ProtocolState, ProtocolStateHandler,
}
use protocraft_framework.Traits.Contract.{IsSource}
use protocraft_framework.Traits.Memory.{Outbox}
use protocraft_framework.Primatives.Int.{
  U8, U16, read_primative, primative_to_writer, primative_serializable,
}
use protocraft_framework.Primatives.Int.Laws.{Reads-read_u8, Writes-write_primative}
use protocraft_framework.Protocol.Streams.{ReadStream, WriteStream}
use protocraft_framework.Protocol.Streams.Contract.{IsReadStream, IsWriteStream}
use protocraft_framework.Protocol.Streams.Memory.{memory_read_stream, memory-IsReadStream}
use protocraft_framework.Protocol.Streams.MemoryWriter.{memory_write_stream, memory-IsWriteStream}
use protocraft_framework.Protocol.Read.Frame.{Handles}
use protocraft_framework.Protocol.Write.Packet.{Serializes}
use protocraft_framework.Protocol.RoundTrip.{IsPipe}
use protocraft_framework.Versions.{protocol_state, Side, Stage}
use protocraft_framework.Versions.V4.{version_4}

-- The end of every stream in the tests' compressed format.
abbrev pub trailer : List ℕ
trailer = 0xAA ∷ []

abbrev pub reads : ReadStream
reads = memory_read_stream trailer

abbrev pub reads_lem : IsReadStream reads
reads_lem = memory-IsReadStream trailer

abbrev pub writes : WriteStream
writes = memory_write_stream trailer

abbrev pub writes_lem : IsWriteStream writes
writes_lem = memory-IsWriteStream trailer

-- The bytes that are sent are the bytes to read.
abbrev pub pipe : Outbox → List ℕ
pipe w = w.sent

pub pipe_lem : IsPipe writes writes_lem reads reads_lem pipe
pipe_lem = record { carries = λ w bs h. ap (λ (x : Outbox). x.sent) h; inflates = λ d z h. h }

-- A writer that has sent the given bytes.
abbrev pub after : List ℕ → Outbox
after bs = record { sent = bs; pending = [] }

-- A packet of two bytes.
abbrev pub packet : U16
packet = record { bits = 0x0709 }

abbrev pub u16_writer : ToWriter U16
u16_writer = primative_to_writer 2

abbrev pub u16_size : Serializable U16
u16_size = primative_serializable 2

pub packet_lem : Serializes u16_writer u16_size packet (7 ∷ 9 ∷ [])
packet_lem = record {
  writes = λ wr Fed s. Writes-write_primative wr Fed s 2 packet;
  size_lem = refl;
}

-- A handler that reads one byte of every packet.
abbrev pub first_byte : {D : Type 0} → ProtocolStateHandler D U8
first_byte = record { handle_packet = λ br d. read_primative 1 br.reader }

abbrev pub seven : {E : Type 0} → Result E U8
seven = ok (record { bits = 7 })

pub first_byte-Handles :
    {E R : Type 0} (io : Reader E R) (Holds : R → List ℕ → Type 0)
    → IsSource io Holds
    → Handles Holds (read_primative 1 io) (7 ∷ 9 ∷ []) seven
first_byte-Handles io Holds s r h =
    let (r', e, h') = Reads-read_u8 io Holds s 7 (omega arith) r (9 ∷ []) h in (r', 9 ∷ [], e, h')

-- A server in the status stage of version 4.
abbrev pub status_server : ProtocolState
status_server = protocol_state version_4.status_tables Side.serverbound Stage.status
