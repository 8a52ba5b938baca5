-- ===== src/Tests/Handshakes.antt =====
-- The first packet of a connection, for each kind of client.
use protocraft_framework.Prelude.{ℕ, ◌≡◌, refl, List, [], ◌∷◌, ◌++◌, arith, some}
use protocraft_framework.Error.{done, ok}
use protocraft_framework.Traits.{ProtocolStateHandler}
use protocraft_framework.Traits.Memory.{slice-HasArrived}
use protocraft_framework.Primatives.Int.{read_primative}
use protocraft_framework.Primatives.HandshakeVersion.Legacy.{ping_host_message}
use protocraft_framework.Protocol.Streams.Contract.{IsBounded-IsSource, Window}
use protocraft_framework.Protocol.Read.{Handshake, read_handshake}
use protocraft_framework.Protocol.Read.Frame.{Handles}
use protocraft_framework.Protocol.Read.Opening.{
  read_handshake-standard, read_handshake-legacy_1_6, read_handshake-legacy_short,
}
use protocraft_framework.Versions.{Side, handshake_designator}
use protocraft_framework.Tests.Fixtures.{reads, reads_lem, first_byte, seven, first_byte-Handles}
use mathlib.Core.Logic.{inl, inr}

-- A handler that reads nothing and returns the kind of the client.
abbrev kind : ProtocolStateHandler Handshake Handshake
kind = record { handle_packet = λ br d r. done d r }

Handles-payload :
    (rest : List ℕ)
    → Handles
        (Window reads_lem.BoundedHolds 0 rest)
        (read_primative 1 reads.bounded.reader)
        (7 ∷ 9 ∷ [])
        seven
Handles-payload rest =
    first_byte-Handles reads.bounded.reader (Window reads_lem.BoundedHolds 0 rest)
      (IsBounded-IsSource reads.bounded reads_lem.BoundedHolds reads_lem.bounded_lem 0 rest)

known : handshake_designator Side.serverbound 0 ≡ some Handshake.standard
unfolding handshake_designator
known = refl

-- A packet of three bytes, and the first byte of the next.
read_handshake-standard_example :
    (r' : List ℕ) × (read_handshake reads "serverbound_handshake"
        (handshake_designator Side.serverbound)
        first_byte
        (3 ∷ 0 ∷ 7 ∷ 9 ∷ 1 ∷ [])
      ≡ record { result = seven; state = r' })
    × (r' ≡ 1 ∷ [])
read_handshake-standard_example =
    read_handshake-standard reads reads_lem "serverbound_handshake"
      (handshake_designator Side.serverbound) first_byte seven 0 (7 ∷ 9 ∷ []) (1 ∷ [])
      Handshake.standard (3 ∷ 0 ∷ 7 ∷ 9 ∷ 1 ∷ []) (omega arith) known (inl (omega arith))
      (Handles-payload (1 ∷ [])) refl

read_handshake-legacy_1_6_example :
    (r' : List ℕ) × (read_handshake reads "serverbound_handshake"
        (handshake_designator Side.serverbound)
        first_byte
        ((0xFE ∷ 0x01 ∷ 0xFA ∷ ping_host_message 2) ++ (7 ∷ 9 ∷ []))
      ≡ record { result = seven; state = r' })
    × (r' ≡ [])
read_handshake-legacy_1_6_example =
    read_handshake-legacy_1_6 reads reads_lem "serverbound_handshake"
      (handshake_designator Side.serverbound) first_byte seven slice-HasArrived (7 ∷ 9 ∷ []) []
      ((0xFE ∷ 0x01 ∷ 0xFA ∷ ping_host_message 2) ++ (7 ∷ 9 ∷ [])) (omega arith)
      (Handles-payload []) refl

read_handshake-legacy_short_example :
    (r' : List ℕ) × (read_handshake reads "serverbound_handshake"
        (handshake_designator Side.serverbound)
        kind
        (0xFE ∷ 0x01 ∷ [])
      ≡ record { result = ok Handshake.legacy1_5; state = r' })
    × (r' ≡ [])
read_handshake-legacy_short_example =
    read_handshake-legacy_short reads reads_lem "serverbound_handshake"
      (handshake_designator Side.serverbound) kind (ok Handshake.legacy1_5) slice-HasArrived
      (0xFE ∷ 0x01 ∷ []) (inr (refl, λ r h. (r, [], refl, h)))
