-- ===== src/Protocol/Ping/Payload.antt =====
-- The answer to a legacy ping: its length is the number of code units that follow it.
use protocraft_framework.Prelude.{ℕ, ◌≡◌, refl, ap, List, [], ◌∷◌, ◌++◌, length}
use protocraft_framework.Error.{Action, WriteError, ◌>>◌}
use protocraft_framework.Traits.{Writer}
use protocraft_framework.Traits.Contract.{IsSink, Writes, Writes-pure, Writes->>}
use protocraft_framework.Primatives.Int.{to_be_bytes, write_primative}
use protocraft_framework.Primatives.Int.Laws.{Writes-write_primative}
use protocraft_framework.Protocol.Ping.{write_1_3, write_1_6, write_legacy_string}

-- UTF-16BE.
abbrev pub unit_bytes : List ℕ → List ℕ
unit_bytes [] = []
unit_bytes (u ∷ us) = to_be_bytes 2 u ++ unit_bytes us

unit_bytes-append : (us vs : List ℕ) → unit_bytes (us ++ vs) ≡ unit_bytes us ++ unit_bytes vs
unit_bytes-append [] vs = refl
unit_bytes-append (u ∷ us) vs = ap (λ l. to_be_bytes 2 u ++ l) (unit_bytes-append us vs)

-- The packet of a legacy answer: FF, the number of code units, and the code units.
abbrev pub kick_packet : List ℕ → List ℕ
kick_packet units = 0xFF ∷ (to_be_bytes 2 (length units) ++ unit_bytes units)

-- MOTD, player count and maximal players, with a "§" between.
abbrev pub payload_1_3 : List ℕ → List ℕ → List ℕ → List ℕ
payload_1_3 motd player_count max_players = motd ++ (0xA7 ∷ (player_count ++ (0xA7 ∷ max_players)))

-- "§1", the protocol version 127, and the four strings, with a zero between.
abbrev pub payload_1_6 : List ℕ → List ℕ → List ℕ → List ℕ → List ℕ
payload_1_6 server_version motd player_count max_players =
    0xA7
    ∷ 0x31
    ∷ 0
    ∷ 0x31
    ∷ 0x32
    ∷ 0x37
    ∷ 0
    ∷ (server_version ++ (0 ∷ (motd ++ (0 ∷ (player_count ++ (0 ∷ max_players))))))

module _ {E W : Type 0} (wr : Writer E W) (Fed : W → List ℕ → Type 0) (s : IsSink wr Fed) where
  units : (us : List ℕ) → Writes Fed (write_legacy_string wr us) (unit_bytes us)
  unfolding write_legacy_string
  units [] = Writes-pure Fed
  units (u ∷ us) =
      Writes->> Fed (write_primative 2 wr (record { bits = u })) (write_legacy_string wr us)
        (to_be_bytes 2 u) (unit_bytes us) (Writes-write_primative wr Fed s 2 (record { bits = u }))
        (units us)

  kick :
      (n : ℕ) (k : Action W (WriteError E) (Unit {0})) (bs : List ℕ)
      → Writes Fed k bs
      → Writes Fed
          (write_primative 1 wr (record { bits = 0xFF })
            >> (write_primative 2 wr (record { bits = n }) >> k))
          (0xFF ∷ (to_be_bytes 2 n ++ bs))
  kick n k bs h =
      Writes->> Fed (write_primative 1 wr (record { bits = 0xFF })) _ (0xFF ∷ [])
        (to_be_bytes 2 n ++ bs) (Writes-write_primative wr Fed s 1 (record { bits = 0xFF }))
        (Writes->> Fed (write_primative 2 wr (record { bits = n })) k (to_be_bytes 2 n) bs
          (Writes-write_primative wr Fed s 2 (record { bits = n })) h)

  text :
      (us : List ℕ) (k : Action W (WriteError E) (Unit {0})) (vs : List ℕ)
      → Writes Fed k (unit_bytes vs)
      → Writes Fed (write_legacy_string wr us >> k) (unit_bytes (us ++ vs))
  text us k vs h =
      rw (unit_bytes-append us vs)
        (Writes->> Fed (write_legacy_string wr us) k (unit_bytes us) (unit_bytes vs) (units us) h)

  unit :
      (u : ℕ) (k : Action W (WriteError E) (Unit {0})) (vs : List ℕ)
      → Writes Fed k (unit_bytes vs)
      → Writes Fed (write_primative 2 wr (record { bits = u }) >> k) (unit_bytes (u ∷ vs))
  unit u k vs h =
      Writes->> Fed (write_primative 2 wr (record { bits = u })) k (to_be_bytes 2 u) (unit_bytes vs)
        (Writes-write_primative wr Fed s 2 (record { bits = u })) h

  module _ {S : Type 0} (encode_utf16 : S → List ℕ) where
    pub Writes-write_1_3 :
        (n : ℕ) (motd player_count max_players : S)
        → Writes Fed
            (write_1_3 encode_utf16 wr (record {
              motd = motd;
              player_count = player_count;
              max_players = max_players;
              payload_length = n;
            }))
            (0xFF
              ∷ (to_be_bytes 2 n
                  ++ unit_bytes (
                      payload_1_3
                        (encode_utf16 motd)
                        (encode_utf16 player_count)
                        (encode_utf16 max_players))))
    unfolding write_1_3
    Writes-write_1_3 n motd player_count max_players =
        let m = encode_utf16 motd in
        let p = encode_utf16 player_count in
        let x = encode_utf16 max_players in
        kick n _ _ (
          text m _ (0xA7 ∷ (p ++ (0xA7 ∷ x))) (
            text (0xA7 ∷ []) _ (p ++ (0xA7 ∷ x))
              (text p _ (0xA7 ∷ x) (text (0xA7 ∷ []) _ x (units x)))))

    pub Writes-write_1_6 :
        (n : ℕ) (server_version motd player_count max_players : S)
        → Writes Fed
            (write_1_6 encode_utf16 wr (record {
              server_version = server_version;
              motd = motd;
              player_count = player_count;
              max_players = max_players;
              payload_length = n;
            }))
            (0xFF
              ∷ (to_be_bytes 2 n
                  ++ unit_bytes (
                      payload_1_6
                        (encode_utf16 server_version)
                        (encode_utf16 motd)
                        (encode_utf16 player_count)
                        (encode_utf16 max_players))))
    unfolding write_1_6
    Writes-write_1_6 n server_version motd player_count max_players =
        let v = encode_utf16 server_version in
        let m = encode_utf16 motd in
        let p = encode_utf16 player_count in
        let x = encode_utf16 max_players in
        let strings = v ++ (0 ∷ (m ++ (0 ∷ (p ++ (0 ∷ x))))) in
        kick n _ _ (
          text (0xA7 ∷ 0x31 ∷ []) _ (0 ∷ 0x31 ∷ 0x32 ∷ 0x37 ∷ 0 ∷ strings) (
            unit 0 _ (0x31 ∷ 0x32 ∷ 0x37 ∷ 0 ∷ strings) (
              text (0x31 ∷ 0x32 ∷ 0x37 ∷ []) _ (0 ∷ strings) (
                unit 0 _ strings (
                  text v _ (0 ∷ (m ++ (0 ∷ (p ++ (0 ∷ x))))) (
                    unit 0 _ (m ++ (0 ∷ (p ++ (0 ∷ x)))) (
                      text m _ (0 ∷ (p ++ (0 ∷ x)))
                        (unit 0 _ (p ++ (0 ∷ x)) (text p _ (0 ∷ x) (unit 0 _ x (units x)))))))))))
