-- ===== src/Primatives/HandshakeVersion/Lengths.antt =====
-- `HandshakeVersion::from_reader` on a modern client's packet length, and on malformed pings.
use protocraft_framework.Prelude.{
  ℕ, ◌+◌, ◌*◌, ◌/◌, ◌%◌, ◌^◌, ◌<◌, ◌≤◌, ◌≡◌, ◌≢◌, ◌⊎◌, inl, inr, List, [], ◌∷◌, ◌++◌, ◌==◌,
  if◌then◌else◌, arith, subst,
}
use protocraft_framework.Error.{done, fail, ReadError}
use protocraft_framework.Traits.{Reader}
use protocraft_framework.Traits.Contract.{IsSource, HasArrived}
use protocraft_framework.Primatives.VarInt.Spec.{base128}
use protocraft_framework.Primatives.HandshakeVersion.{standard, read_handshake_version}
use protocraft_framework.Primatives.HandshakeVersion.Standard.{Reads-read_handshake_version_long}
use protocraft_framework.Primatives.HandshakeVersion.Legacy.{
  Yields-read_handshake_version_bad_next, Yields-read_handshake_version_bad_channel,
}

module _ {E R : Type 0} (io : Reader E R) (Holds : R → List ℕ → Type 0)
    (s : IsSource io Holds) where
  -- On the base 128 digits of a length `v` of two to four bytes whose first byte is not FE, the
  -- length that is returned is `v` where bit 7 of `v` is set, and `v + 128` where it is clear.
  pub read_handshake_version-length :
      (v : ℕ) (r : R) (rest : List ℕ)
      → 128 ≤ v
      → v < 2 ^ 28
      → v % 128 ≢ 126
      → Holds r (base128 3 v ++ rest)
      → (r' : R) × (read_handshake_version io r
          ≡ done (standard (if v / 128 % 2 == 1 then v else v + 128)) r')
        × Holds r' rest
  read_handshake_version-length v r rest lo hi ne holds =
      rw (← value) (Reads-read_handshake_version_long io Holds s v lo hi ne r rest holds)
    where
      value : v % 128 + (v / 128 / 2 * 2 + 1) * 128 ≡ (if v / 128 % 2 == 1 then v else v + 128)
      value = ground arith

  -- Once the bytes have arrived, FE followed by another byte than 01, and FE 01 followed by another
  -- byte than FA, are refused as a malformed legacy ping.
  pub read_handshake_version-malformed :
      HasArrived io Holds
      → (b : ℕ) (bs rest : List ℕ) (r : R)
      → ((bs ≡ 0xFE ∷ b ∷ []) × (b ≢ 0x01)) ⊎ ((bs ≡ 0xFE ∷ 0x01 ∷ b ∷ []) × (b ≢ 0xFA))
      → Holds r (bs ++ rest)
      → (r' : R) × (read_handshake_version io r ≡ fail ReadError.malformed_legacy_ping r')
        × Holds r' rest
  read_handshake_version-malformed arrived b bs rest r (inl (e, ne)) holds =
      Yields-read_handshake_version_bad_next io Holds s arrived b ne r rest
        (subst (λ l. Holds r (l ++ rest)) e holds)
  read_handshake_version-malformed arrived b bs rest r (inr (e, ne)) holds =
      Yields-read_handshake_version_bad_channel io Holds s arrived b ne r rest
        (subst (λ l. Holds r (l ++ rest)) e holds)
