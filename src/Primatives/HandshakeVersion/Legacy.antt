-- ===== src/Primatives/HandshakeVersion/Legacy.antt =====
-- The legacy pings of src/primatives/handshake_version.rs: how the first bytes tell them apart.
use protocraft_framework.Prelude.{
  ℕ, ◌+◌, ◌*◌, ◌%◌, ◌^◌, ◌<◌, ◌≡◌, ◌≢◌, List, [], ◌∷◌, ◌++◌, refl, arith, leb, false, some, ne→==,
}
use protocraft_framework.Error.{err, done, ReadError}
use protocraft_framework.Traits.{Reader}
use protocraft_framework.Traits.Contract.{
  IsSource, HasArrived, Yields, Yields-throw, Reads, Reads-pure, Reads->>=, Reads-then,
  Reads-read_bytes, read_bytes, try_read_byte,
}
use protocraft_framework.Primatives.Int.{read_primative, to_be_bytes}
use protocraft_framework.Primatives.Int.Laws.{Reads-read_u8, from_be_bytes-to_be_bytes}
use protocraft_framework.Primatives.HandshakeVersion.{
  legacy1_6, pre1_6, pre1_3, read_ping_host, read_channel, read_legacy, read_handshake_version,
  ping_host,
}

-- The plugin message of a 1.6 client, behind its FE 01 FA.
abbrev pub ping_host_message : ℕ → List ℕ
ping_host_message n = 0x00 ∷ 0x0B ∷ ping_host ++ to_be_bytes 2 n

module _ {E R : Type 0} (io : Reader E R) (Holds : R → List ℕ → Type 0)
    (s : IsSource io Holds) where
  Reads-read_ping_host :
      (n : ℕ) → n < 2 ^ 15 → Reads Holds (read_ping_host io) (ping_host_message n) (legacy1_6 n)
  unfolding read_ping_host
  Reads-read_ping_host n h =
      Reads->>= Holds (read_bytes io 2) _ (0x00 ∷ 0x0B ∷ []) (ping_host ++ to_be_bytes 2 n)
        (0x00 ∷ 0x0B ∷ []) _ (Reads-read_bytes io Holds 2 (0x00 ∷ 0x0B ∷ []) s refl)
        (Reads->>= Holds (read_bytes io 22) _ ping_host (to_be_bytes 2 n) ping_host _
          (Reads-read_bytes io Holds 22 ping_host s refl)
          (Reads-then Holds (read_bytes io 2) _ (to_be_bytes 2 n) (to_be_bytes 2 n) _
            (Reads-read_bytes io Holds 2 (to_be_bytes 2 n) s refl)
            (rw (from_be_bytes-to_be_bytes 2 0 n, spelled, positive)
              (Reads-pure Holds (legacy1_6 n)))))
    where
      spelled : 0 * 256 ^ 2 + n % 256 ^ 2 ≡ n
      spelled = omega arith

      positive : leb (2 ^ 15) n ≡ false
      positive = ground arith

  module _ (arrived : HasArrived io Holds) where
    Reads-try_read_byte : (b : ℕ) → Reads Holds (try_read_byte io) (b ∷ []) (some b)
    Reads-try_read_byte b r rest h = let (r', e, h') = arrived.try_some r b rest h in (r', rw e, h')

    -- FE 01 FA and the message: a 1.6 client.
    pub Reads-read_handshake_version_1_6 :
        (n : ℕ)
        → n < 2 ^ 15
        → Reads Holds
            (read_handshake_version io)
            (0xFE ∷ 0x01 ∷ 0xFA ∷ ping_host_message n)
            (legacy1_6 n)
    unfolding read_handshake_version read_legacy read_channel
    Reads-read_handshake_version_1_6 n h =
        Reads->>= Holds (read_primative 1 io) _ (0xFE ∷ []) (0x01 ∷ 0xFA ∷ ping_host_message n)
          (record { bits = 0xFE }) _ (Reads-read_u8 io Holds s 0xFE (omega arith))
          (Reads->>= Holds (try_read_byte io) _ (0x01 ∷ []) (0xFA ∷ ping_host_message n) (some 0x01)
            _ (Reads-try_read_byte 0x01)
            (Reads->>= Holds (try_read_byte io) _ (0xFA ∷ []) (ping_host_message n) (some 0xFA) _
              (Reads-try_read_byte 0xFA) (Reads-read_ping_host n h)))

    -- FE and another byte than 01 is refused.
    pub Yields-read_handshake_version_bad_next :
        (b : ℕ)
        → b ≢ 0x01
        → Yields Holds
            (read_handshake_version io)
            (0xFE ∷ b ∷ [])
            (err ReadError.malformed_legacy_ping)
    unfolding read_handshake_version read_legacy
    Yields-read_handshake_version_bad_next b ne =
        Reads->>= Holds (read_primative 1 io) _ (0xFE ∷ []) (b ∷ []) (record { bits = 0xFE }) _
          (Reads-read_u8 io Holds s 0xFE (omega arith))
          (Reads-then Holds (try_read_byte io) _ (b ∷ []) (some b) _ (Reads-try_read_byte b)
            (rw (ne→== b 0x01 ne) (Yields-throw Holds _)))

    -- FE 01 and another byte than FA is refused.
    pub Yields-read_handshake_version_bad_channel :
        (b : ℕ)
        → b ≢ 0xFA
        → Yields Holds
            (read_handshake_version io)
            (0xFE ∷ 0x01 ∷ b ∷ [])
            (err ReadError.malformed_legacy_ping)
    unfolding read_handshake_version read_legacy read_channel
    Yields-read_handshake_version_bad_channel b ne =
        Reads->>= Holds (read_primative 1 io) _ (0xFE ∷ []) (0x01 ∷ b ∷ []) (record { bits = 0xFE })
          _ (Reads-read_u8 io Holds s 0xFE (omega arith))
          (Reads->>= Holds (try_read_byte io) _ (0x01 ∷ []) (b ∷ []) (some 0x01) _
            (Reads-try_read_byte 0x01)
            (Reads-then Holds (try_read_byte io) _ (b ∷ []) (some b) _ (Reads-try_read_byte b)
              (rw (ne→== b 0xFA ne) (Yields-throw Holds _))))

    -- FE alone, or FE 01 alone: the clients that send no message.
    pub read_handshake_version_alone :
        (r : R)
        → Holds r (0xFE ∷ [])
        → (r' : R) × (read_handshake_version io r ≡ done pre1_3 r') × Holds r' []
    unfolding read_handshake_version read_legacy
    read_handshake_version_alone r h =
        let (r1, e1, h1) = Reads-read_u8 io Holds s 0xFE (omega arith) r [] h in
        let (r2, e2, h2) = arrived.try_none r1 h1 in (r2, rw (e1, e2), h2)

    pub read_handshake_version_pair :
        (r : R)
        → Holds r (0xFE ∷ 0x01 ∷ [])
        → (r' : R) × (read_handshake_version io r ≡ done pre1_6 r') × Holds r' []
    unfolding read_handshake_version read_legacy read_channel
    read_handshake_version_pair r h =
        let (r1, e1, h1) = Reads-read_u8 io Holds s 0xFE (omega arith) r (0x01 ∷ []) h in
        let (r2, e2, h2) = arrived.try_some r1 0x01 [] h1 in
        let (r3, e3, h3) = arrived.try_none r2 h2 in (r3, rw (e1, e2, e3), h3)
