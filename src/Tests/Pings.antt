-- ===== src/Tests/Pings.antt =====
-- Answers to legacy pings. A string is its code units.
use protocraft_framework.Prelude.{◌++◌, ℕ, ◌≡◌, ◌≤◌, ◌-◌, ◌^◌, refl, List, [], ◌∷◌, length, some}
use protocraft_framework.Error.{done}
use protocraft_framework.Traits.Memory.{
  Outbox, outbox, HasTaken, HasSent, outbox-IsSink, outbox-IsFlushing,
}
use protocraft_framework.Tests.Fixtures.{after}
use protocraft_framework.Protocol.Ping.{
  Legacy13PingResponse, Legacy16PingResponse, new_1_3, new_1_6, write_legacy_1_3_ping_response,
  write_legacy_1_6_ping_response,
}
use protocraft_framework.Protocol.Ping.Payload.{payload_1_3, payload_1_6}
use protocraft_framework.Protocol.Ping.Answers.{
  write_legacy_1_3_ping_response-new, write_legacy_1_6_ping_response-new,
}

abbrev units : List ℕ → List ℕ
units s = s

-- The MOTD "A", with 3 of 20 players.
abbrev old_response : Legacy13PingResponse (List ℕ)
old_response = record {
  motd = 0x41 ∷ [];
  player_count = 0x33 ∷ [];
  max_players = 0x32 ∷ 0x30 ∷ [];
  payload_length = 6;
}

old_new : new_1_3 units (0x41 ∷ []) (0x33 ∷ []) (0x32 ∷ 0x30 ∷ []) ≡ some old_response
unfolding new_1_3
old_new = refl

abbrev old_bytes : List ℕ
old_bytes = 0xFF ∷ 0 ∷ 6 ∷ 0 ∷ 0x41 ∷ 0 ∷ 0xA7 ∷ 0 ∷ 0x33 ∷ 0 ∷ 0xA7 ∷ 0 ∷ 0x32 ∷ 0 ∷ 0x30 ∷ []

write_legacy_1_3_ping_response-new_example :
    (w' : Outbox) × (write_legacy_1_3_ping_response units outbox old_response (after [])
      ≡ done tt w')
    × (w'.sent ++ w'.pending ≡ old_bytes)
    × (w' ≡ after old_bytes)
    × (length (payload_1_3 (0x41 ∷ []) (0x33 ∷ []) (0x32 ∷ 0x30 ∷ [])) ≤ 256)
write_legacy_1_3_ping_response-new_example =
    write_legacy_1_3_ping_response-new outbox HasTaken outbox-IsSink HasSent outbox-IsFlushing units
      (0x41 ∷ []) (0x33 ∷ []) (0x32 ∷ 0x30 ∷ []) old_response (after []) [] old_new refl

-- The same from the server version "B".
abbrev response : Legacy16PingResponse (List ℕ)
response = record {
  server_version = 0x42 ∷ [];
  motd = 0x41 ∷ [];
  player_count = 0x33 ∷ [];
  max_players = 0x32 ∷ 0x30 ∷ [];
  payload_length = 15;
}

response_new : new_1_6 units (0x42 ∷ []) (0x41 ∷ []) (0x33 ∷ []) (0x32 ∷ 0x30 ∷ []) ≡ some response
unfolding new_1_6
response_new = refl

abbrev bytes : List ℕ
bytes =
    0xFF ∷ 0 ∷ 15 ∷ 0 ∷ 0xA7 ∷ 0 ∷ 0x31 ∷ 0 ∷ 0 ∷ 0 ∷ 0x31 ∷ 0 ∷ 0x32 ∷ 0 ∷ 0x37 ∷ 0 ∷ 0 ∷ 0 ∷ 0x42
    ∷ 0 ∷ 0 ∷ 0 ∷ 0x41 ∷ 0 ∷ 0 ∷ 0 ∷ 0x33 ∷ 0 ∷ 0 ∷ 0 ∷ 0x32 ∷ 0 ∷ 0x30 ∷ []

write_legacy_1_6_ping_response-new_example :
    (w' : Outbox) × (write_legacy_1_6_ping_response units outbox response (after []) ≡ done tt w')
    × (w'.sent ++ w'.pending ≡ bytes)
    × (w' ≡ after bytes)
    × (length (payload_1_6 (0x42 ∷ []) (0x41 ∷ []) (0x33 ∷ []) (0x32 ∷ 0x30 ∷ [])) ≤ 2 ^ 15 - 1)
write_legacy_1_6_ping_response-new_example =
    write_legacy_1_6_ping_response-new outbox HasTaken outbox-IsSink HasSent outbox-IsFlushing units
      (0x42 ∷ []) (0x41 ∷ []) (0x33 ∷ []) (0x32 ∷ 0x30 ∷ []) response (after []) [] response_new
      refl
