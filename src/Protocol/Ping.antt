-- ===== src/Protocol/Ping.antt =====
-- The answers to legacy pings of src/protocol/mod.rs. A string `S` is used through the code units of
-- `encode_utf16`, which is the standard library's.
pub mod Payload
pub mod Answers
use protocraft_framework.Prelude.{
  ℕ, ◌+◌, ◌-◌, ◌^◌, List, [], ◌∷◌, length, ltb, if◌then◌else◌, Option, none, some,
}
use protocraft_framework.Error.{Action, WriteError, pure, ◌>>=◌, ◌>>◌}
use protocraft_framework.Traits.{Writer}
use protocraft_framework.Primatives.Int.{write_primative}
use protocraft_framework.Protocol.Write.{flush}

-- `write_legacy_string!`, on the code units of the string.
pub write_legacy_string : {E W : Type 0} → Writer E W → List ℕ → Action W (WriteError E) (Unit {0})
write_legacy_string wr [] = pure tt
write_legacy_string wr (unit ∷ units) =
    write_primative 2 wr (record { bits = unit }) >> write_legacy_string wr units

-- `Legacy1_3PingResponse`.
pub record Legacy13PingResponse (S : Type 0) : Type 0 where
  pub motd : S
  pub player_count : S
  pub max_players : S
  pub payload_length : ℕ

-- `Legacy1_6PingResponse`.
pub record Legacy16PingResponse (S : Type 0) : Type 0 where
  pub server_version : S
  pub motd : S
  pub player_count : S
  pub max_players : S
  pub payload_length : ℕ

module _ {S : Type 0} (encode_utf16 : S → List ℕ) where
  abbrev pub utf16_code_units : S → ℕ
  utf16_code_units s = length (encode_utf16 s)

  -- `Legacy1_3PingResponse::new`.
  unfoldable pub new_1_3 : S → S → S → Option (Legacy13PingResponse S)
  new_1_3 motd player_count max_players =
      let payload_length =
        2 + utf16_code_units motd + utf16_code_units player_count + utf16_code_units max_players in
      if ltb 0x100 payload_length
      then none
      else some (record {
        motd = motd;
        player_count = player_count;
        max_players = max_players;
        payload_length = payload_length;
      })

  -- `Legacy1_6PingResponse::new`.
  unfoldable pub new_1_6 : S → S → S → S → Option (Legacy16PingResponse S)
  new_1_6 server_version motd player_count max_players =
      let payload_length =
        10
        + (utf16_code_units server_version
            + utf16_code_units motd
            + utf16_code_units player_count
            + utf16_code_units max_players) in
      if ltb (2 ^ 15 - 1) payload_length
      then none
      else some (record {
        server_version = server_version;
        motd = motd;
        player_count = player_count;
        max_players = max_players;
        payload_length = payload_length;
      })

  module _ {E W : Type 0} (wr : Writer E W) where
    -- "§"
    pub write_1_3 : Legacy13PingResponse S → Action W (WriteError E) (Unit {0})
    write_1_3 this = do
      write_primative 1 wr (record { bits = 0xFF })
      write_primative 2 wr (record { bits = this.payload_length })
      write_legacy_string wr (encode_utf16 this.motd)
      write_legacy_string wr (0xA7 ∷ [])
      write_legacy_string wr (encode_utf16 this.player_count)
      write_legacy_string wr (0xA7 ∷ [])
      write_legacy_string wr (encode_utf16 this.max_players)

    -- "§1" and "127"
    pub write_1_6 : Legacy16PingResponse S → Action W (WriteError E) (Unit {0})
    write_1_6 this = do
      write_primative 1 wr (record { bits = 0xFF })
      write_primative 2 wr (record { bits = this.payload_length })
      write_legacy_string wr (0xA7 ∷ 0x31 ∷ [])
      write_primative 2 wr (record { bits = 0 })
      write_legacy_string wr (0x31 ∷ 0x32 ∷ 0x37 ∷ [])
      write_primative 2 wr (record { bits = 0 })
      write_legacy_string wr (encode_utf16 this.server_version)
      write_primative 2 wr (record { bits = 0 })
      write_legacy_string wr (encode_utf16 this.motd)
      write_primative 2 wr (record { bits = 0 })
      write_legacy_string wr (encode_utf16 this.player_count)
      write_primative 2 wr (record { bits = 0 })
      write_legacy_string wr (encode_utf16 this.max_players)

    -- `write_legacy_1_3_ping_response` and `write_legacy_1_6_ping_response`, with `write_raw`.
    pub write_legacy_1_3_ping_response : Legacy13PingResponse S → Action W (WriteError E) (Unit {0})
    write_legacy_1_3_ping_response response = do write_1_3 response; flush wr

    pub write_legacy_1_6_ping_response : Legacy16PingResponse S → Action W (WriteError E) (Unit {0})
    write_legacy_1_6_ping_response response = do write_1_6 response; flush wr
