-- ===== src/Tests/Packets.antt =====
-- Packets that are written, read, and written and read.
use protocraft_framework.Prelude.{
  ℕ, ◌≡◌, ◌<◌, ◌≤◌, ◌⊎◌, refl, List, [], ◌∷◌, ◌++◌, length, some, none, arith,
}
use protocraft_framework.Error.{done, fail, ReadError, WriteError}
use protocraft_framework.Primatives.VarInt.Spec.{varint_bytes}
use protocraft_framework.Traits.Memory.{Outbox}
use protocraft_framework.Primatives.Int.{read_primative}
use protocraft_framework.Protocol.Streams.Contract.{IsBounded-IsSource, Window}
use protocraft_framework.Protocol.Read.{read_packet}
use protocraft_framework.Protocol.Read.Frame.{Handles}
use protocraft_framework.Protocol.Read.Packet.{
  compressed_frame, read_packet_unknown, read_packet_plain, read_packet_stored,
}
use protocraft_framework.Protocol.Read.Compressed.{InnerWindow, read_packet_compressed}
use protocraft_framework.Protocol.Write.{max_packet_size, write_packet_internal}
use protocraft_framework.Protocol.Write.Packet.{write_packet_plain, write_packet_stored}
use protocraft_framework.Protocol.Write.Compressed.{write_packet_compressed}
use protocraft_framework.Protocol.RoundTrip.{
  read_packet-write_packet_plain, read_packet-write_packet_stored,
  read_packet-write_packet_compressed,
}
use protocraft_framework.Versions.{designator_from_id}
use protocraft_framework.Tests.Fixtures.{
  reads, reads_lem, writes, writes_lem, pipe, pipe_lem, packet, u16_writer, u16_size, packet_lem,
  first_byte, seven, first_byte-Handles, status_server, after,
}

known : status_server.designator_from_id 1 ≡ some "Ping"
unfolding designator_from_id
known = refl

unknown : status_server.designator_from_id 5 ≡ none
unfolding designator_from_id
unknown = refl

handles :
    (rest : List ℕ)
    → Handles
        (Window reads_lem.BoundedHolds 0 rest)
        (read_primative 1 reads.bounded.reader)
        (7 ∷ 9 ∷ [])
        seven
handles rest =
    first_byte-Handles reads.bounded.reader (Window reads_lem.BoundedHolds 0 rest)
      (IsBounded-IsSource reads.bounded reads_lem.BoundedHolds reads_lem.bounded_lem 0 rest)

Handles-inner :
    (z rest : List ℕ)
    → Handles
        (InnerWindow reads reads_lem z rest)
        (read_primative 1 reads.inner.reader)
        (7 ∷ 9 ∷ [])
        seven
Handles-inner z rest =
    first_byte-Handles reads.inner.reader (InnerWindow reads reads_lem z rest)
      (IsBounded-IsSource reads.inner _ (reads_lem.inner_lem z rest) 0 [])

read_packet-write_packet_plain_example :
    (w' : Outbox) × (r' : List ℕ) × (write_packet_internal u16_writer u16_size writes none 5 1
        packet
        (after [])
      ≡ done tt w')
    × (read_packet reads status_server first_byte none w'.sent
        ≡ record { result = seven; state = r' })
    × (r' ≡ [])
read_packet-write_packet_plain_example =
    read_packet-write_packet_plain u16_writer u16_size packet (7 ∷ 9 ∷ []) packet_lem 1
      (omega arith) writes writes_lem reads reads_lem pipe pipe_lem 5 status_server first_byte
      "Ping" known seven (after []) (omega arith) (handles []) refl

read_packet-write_packet_stored_example :
    (w' : Outbox) × (r' : List ℕ) × (write_packet_internal u16_writer u16_size writes
        (some 256)
        5
        1
        packet
        (after [])
      ≡ done tt w')
    × (read_packet reads status_server first_byte (some 256) w'.sent
        ≡ record { result = seven; state = r' })
    × (r' ≡ [])
read_packet-write_packet_stored_example =
    read_packet-write_packet_stored u16_writer u16_size packet (7 ∷ 9 ∷ []) packet_lem 1
      (omega arith) writes writes_lem reads reads_lem pipe pipe_lem 5 status_server first_byte
      "Ping" known seven 256 256 (after []) (omega arith) (omega arith) (handles []) refl

read_packet-write_packet_compressed_example :
    (z : List ℕ) × (w' : Outbox) × (z ≡ 1 ∷ 7 ∷ 9 ∷ 0xAA ∷ [])
    × (((max_packet_size < length (varint_bytes 3 ++ z))
          × (write_packet_internal u16_writer u16_size writes (some 2) 5 1 packet (after [])
              ≡ fail
                  (WriteError.over_sized "no_compression_size" max_packet_size
                    (length (varint_bytes 3 ++ z)))
                  w'))
        ⊎ ((length (varint_bytes 3 ++ z) ≤ max_packet_size)
            × (write_packet_internal u16_writer u16_size writes (some 2) 5 1 packet (after [])
                ≡ done tt w')
            × ((r' : List ℕ) × (part : List ℕ) × (left : List ℕ) × (part ++ left ≡ z)
                × (read_packet reads status_server first_byte (some 2) w'.sent
                    ≡ record { result = seven; state = r' })
                × (r' ≡ left))))
read_packet-write_packet_compressed_example =
    read_packet-write_packet_compressed u16_writer u16_size packet (7 ∷ 9 ∷ []) packet_lem 1
      (omega arith) writes writes_lem reads reads_lem pipe pipe_lem 5 status_server first_byte
      "Ping" known seven 2 2 (after []) (omega arith) (omega arith) (λ z h. Handles-inner z []) refl

read_packet_plain_example :
    (r' : List ℕ) × (read_packet reads status_server first_byte none (3 ∷ 1 ∷ 7 ∷ 9 ∷ 2 ∷ [])
      ≡ record { result = seven; state = r' })
    × (r' ≡ 2 ∷ [])
read_packet_plain_example =
    read_packet_plain reads reads_lem status_server first_byte 1 (7 ∷ 9 ∷ []) (2 ∷ []) "Ping" seven
      (omega arith) known (3 ∷ 1 ∷ 7 ∷ 9 ∷ 2 ∷ []) (omega arith) (handles (2 ∷ [])) refl

read_packet_stored_example :
    (r' : List ℕ) × (read_packet reads status_server first_byte
        (some 256)
        (4 ∷ 0 ∷ 1 ∷ 7 ∷ 9 ∷ 2 ∷ [])
      ≡ record { result = seven; state = r' })
    × (r' ≡ 2 ∷ [])
read_packet_stored_example =
    read_packet_stored reads reads_lem status_server first_byte 1 (7 ∷ 9 ∷ []) (2 ∷ []) "Ping" seven
      (omega arith) known 256 (4 ∷ 0 ∷ 1 ∷ 7 ∷ 9 ∷ 2 ∷ []) (omega arith) (handles (2 ∷ [])) refl

-- The trailer of the compressed data stays on the stream.
read_packet_compressed_example :
    (part : List ℕ) × (left : List ℕ) × (r' : List ℕ) × (part ++ left ≡ 1 ∷ 7 ∷ 9 ∷ 0xAA ∷ [])
    × (read_packet reads status_server first_byte (some 2) (5 ∷ 3 ∷ 1 ∷ 7 ∷ 9 ∷ 0xAA ∷ 2 ∷ [])
        ≡ record { result = seven; state = r' })
    × (r' ≡ left ++ (2 ∷ []))
read_packet_compressed_example =
    read_packet_compressed reads reads_lem status_server first_byte 1 (7 ∷ 9 ∷ []) (2 ∷ []) "Ping"
      seven (omega arith) known 2 (1 ∷ 7 ∷ 9 ∷ 0xAA ∷ []) (5 ∷ 3 ∷ 1 ∷ 7 ∷ 9 ∷ 0xAA ∷ 2 ∷ [])
      (omega arith) (omega arith) refl (Handles-inner (1 ∷ 7 ∷ 9 ∷ 0xAA ∷ []) (2 ∷ [])) refl

write_packet_plain_example :
    (w' : Outbox) × (write_packet_internal u16_writer u16_size writes none 5 1 packet
        (after (8 ∷ []))
      ≡ done tt w')
    × (w'.sent ++ w'.pending ≡ 8 ∷ 3 ∷ 1 ∷ 7 ∷ 9 ∷ [])
    × (w' ≡ after (8 ∷ 3 ∷ 1 ∷ 7 ∷ 9 ∷ []))
write_packet_plain_example =
    write_packet_plain u16_writer u16_size packet (7 ∷ 9 ∷ []) packet_lem 1 (omega arith) writes
      writes_lem 5 (after (8 ∷ [])) (8 ∷ []) (omega arith) refl

write_packet_stored_example :
    (w' : Outbox) × (write_packet_internal u16_writer u16_size writes
        (some 256)
        5
        1
        packet
        (after (8 ∷ []))
      ≡ done tt w')
    × (w'.sent ++ w'.pending ≡ 8 ∷ 4 ∷ 0 ∷ 1 ∷ 7 ∷ 9 ∷ [])
    × (w' ≡ after (8 ∷ 4 ∷ 0 ∷ 1 ∷ 7 ∷ 9 ∷ []))
write_packet_stored_example =
    write_packet_stored u16_writer u16_size packet (7 ∷ 9 ∷ []) packet_lem 1 (omega arith) writes
      writes_lem 5 256 (after (8 ∷ [])) (8 ∷ []) (omega arith) (omega arith) refl

write_packet_compressed_example :
    (z : List ℕ) × (w' : Outbox) × (z ≡ 1 ∷ 7 ∷ 9 ∷ 0xAA ∷ [])
    × (((length (varint_bytes 3 ++ z) ≤ max_packet_size)
          × (write_packet_internal u16_writer u16_size writes (some 2) 5 1 packet (after (8 ∷ []))
              ≡ done tt w')
          × (w'.sent ++ w'.pending ≡ 8 ∷ compressed_frame 3 z)
          × (w' ≡ after (8 ∷ compressed_frame 3 z)))
        ⊎ ((max_packet_size < length (varint_bytes 3 ++ z))
            × (write_packet_internal u16_writer u16_size writes (some 2) 5 1 packet (after (8 ∷ []))
                ≡ fail
                    (WriteError.over_sized "no_compression_size" max_packet_size
                      (length (varint_bytes 3 ++ z)))
                    w')
            × (w'.sent ++ w'.pending ≡ 8 ∷ [])))
write_packet_compressed_example =
    write_packet_compressed u16_writer u16_size packet (7 ∷ 9 ∷ []) packet_lem 1 (omega arith)
      writes writes_lem 5 2 (after (8 ∷ [])) (8 ∷ []) (omega arith) (omega arith) refl

read_packet_unknown_example :
    (r' : List ℕ) × (read_packet reads status_server first_byte none (3 ∷ 5 ∷ 7 ∷ 9 ∷ 2 ∷ [])
      ≡ fail (ReadError.unknown_packet "serverbound_status" 5) r')
    × (r' ≡ 7 ∷ 9 ∷ 2 ∷ [])
read_packet_unknown_example =
    read_packet_unknown reads reads_lem status_server first_byte 5 (7 ∷ 9 ∷ []) (2 ∷ [])
      (3 ∷ 5 ∷ 7 ∷ 9 ∷ 2 ∷ []) (omega arith) unknown (omega arith) refl
