-- ===== src/Protocol/Ping/Answers.antt =====
-- The answers to legacy pings that the constructors accept, on a writer.
use protocraft_framework.Prelude.{
  ℕ, ◌+◌, ◌-◌, ◌^◌, ◌≤◌, ◌≡◌, List, ◌∷◌, ◌++◌, length, length-append, some, none, subst, ltb, arith,
  Bool-cases, inl, inr,
}
use protocraft_framework.Error.{done}
use protocraft_framework.Traits.{Writer}
use protocraft_framework.Traits.Contract.{IsSink, IsFlushing}
use protocraft_framework.Primatives.Int.{to_be_bytes}
use protocraft_framework.Protocol.Ping.{
  Legacy13PingResponse, Legacy16PingResponse, new_1_3, new_1_6, write_legacy_1_3_ping_response,
  write_legacy_1_6_ping_response,
}
use protocraft_framework.Protocol.Ping.Payload.{
  unit_bytes, kick_packet, payload_1_3, payload_1_6, Writes-write_1_3, Writes-write_1_6,
}

module _ {E W S : Type 0} (wr : Writer E W) (Fed : W → List ℕ → Type 0) (s : IsSink wr Fed)
    (Sent : W → List ℕ → Type 0) (flushing : IsFlushing wr Fed Sent)
    (encode_utf16 : S → List ℕ) where
  -- An answer to a ping of a client from before 1.4, once it is constructed, is written and flushed:
  -- the writer has taken, and has actually written, FF, the number of code units that follow, at most
  -- 256, and the code units of the strings with a "§" between, after what it had taken before.
  pub write_legacy_1_3_ping_response-new :
      (motd player_count max_players : S) (r : Legacy13PingResponse S) (w : W) (d : List ℕ)
      → new_1_3 encode_utf16 motd player_count max_players ≡ some r
      → Fed w d
      → (w' : W) × (write_legacy_1_3_ping_response encode_utf16 wr r w ≡ done tt w')
        × Fed w' (
            d
            ++ kick_packet (
                payload_1_3
                  (encode_utf16 motd)
                  (encode_utf16 player_count)
                  (encode_utf16 max_players)))
        × Sent w' (
            d
            ++ kick_packet (
                payload_1_3
                  (encode_utf16 motd)
                  (encode_utf16 player_count)
                  (encode_utf16 max_players)))
        × (length (
              payload_1_3
                (encode_utf16 motd)
                (encode_utf16 player_count)
                (encode_utf16 max_players))
            ≤ 256)
  unfolding new_1_3 write_legacy_1_3_ping_response
  write_legacy_1_3_ping_response-new motd player_count max_players r w d e fed =
      let m = encode_utf16 motd in
      let p = encode_utf16 player_count in
      let x = encode_utf16 max_players in
      let n = 2 + length m + length p + length x in
      let payload = payload_1_3 m p x in
      let count : n ≡ length payload =
        omega (arith, length-append m (0xA7 ∷ (p ++ (0xA7 ∷ x))), length-append p (0xA7 ∷ x)) in
      elim (Bool-cases (ltb 0x100 n)) [
        | inl large ↦ let never : none ≡ some r = rw (← e, large) in cc
        | inr small ↦
            let made : Legacy13PingResponse S = record {
              motd = motd;
              player_count = player_count;
              max_players = max_players;
              payload_length = n;
            } in
            let some_made : some made ≡ some r = rw (← e, small) in
            let same : made ≡ r = cc in
            let (w1, e1, fed1) =
              Writes-write_1_3 wr Fed s encode_utf16 n motd player_count max_players w d fed in
            let (w2, e2, fed2, sent2) = flushing.flush_sends w1 _ fed1 in
            let bound : n ≤ 256 = ground (arith, small) in
            (
              w2,
              rw (← same, e1, e2),
              subst (λ k. Fed w2 (d ++ (0xFF ∷ (to_be_bytes 2 k ++ unit_bytes payload)))) count
                  fed2,
              subst (λ k. Sent w2 (d ++ (0xFF ∷ (to_be_bytes 2 k ++ unit_bytes payload)))) count
                  sent2,
              omega arith,
            )
      ]

  -- An answer to a ping of a client from 1.4 to 1.6, once it is constructed, is written and flushed:
  -- the writer has taken, and has actually written, FF, the number of code units that follow, at most
  -- 2 ^ 15 - 1, and the code units of "§1", "127" and the strings with a zero between, after what it
  -- had taken before.
  pub write_legacy_1_6_ping_response-new :
      (server_version motd player_count max_players : S) (r : Legacy16PingResponse S) (w : W)
      (d : List ℕ)
      → new_1_6 encode_utf16 server_version motd player_count max_players ≡ some r
      → Fed w d
      → (w' : W) × (write_legacy_1_6_ping_response encode_utf16 wr r w ≡ done tt w')
        × Fed w' (
            d
            ++ kick_packet (
                payload_1_6
                  (encode_utf16 server_version)
                  (encode_utf16 motd)
                  (encode_utf16 player_count)
                  (encode_utf16 max_players)))
        × Sent w' (
            d
            ++ kick_packet (
                payload_1_6
                  (encode_utf16 server_version)
                  (encode_utf16 motd)
                  (encode_utf16 player_count)
                  (encode_utf16 max_players)))
        × (length (
              payload_1_6
                (encode_utf16 server_version)
                (encode_utf16 motd)
                (encode_utf16 player_count)
                (encode_utf16 max_players))
            ≤ 2 ^ 15 - 1)
  unfolding new_1_6 write_legacy_1_6_ping_response
  write_legacy_1_6_ping_response-new server_version motd player_count max_players r w d e fed =
      let v = encode_utf16 server_version in
      let m = encode_utf16 motd in
      let p = encode_utf16 player_count in
      let x = encode_utf16 max_players in
      let n = 10 + (length v + length m + length p + length x) in
      let payload = payload_1_6 v m p x in
      let count : n ≡ length payload = omega (
        arith,
        length-append v (0 ∷ (m ++ (0 ∷ (p ++ (0 ∷ x))))),
        length-append m (0 ∷ (p ++ (0 ∷ x))),
        length-append p (0 ∷ x),
      ) in
      elim (Bool-cases (ltb (2 ^ 15 - 1) n)) [
        | inl large ↦ let never : none ≡ some r = rw (← e, large) in cc
        | inr small ↦
            let made : Legacy16PingResponse S = record {
              server_version = server_version;
              motd = motd;
              player_count = player_count;
              max_players = max_players;
              payload_length = n;
            } in
            let some_made : some made ≡ some r = rw (← e, small) in
            let same : made ≡ r = cc in
            let (w1, e1, fed1) =
              Writes-write_1_6 wr Fed s encode_utf16 n server_version motd player_count max_players
                w d fed in
            let (w2, e2, fed2, sent2) = flushing.flush_sends w1 _ fed1 in
            let bound : n ≤ 2 ^ 15 - 1 = ground (arith, small) in
            (
              w2,
              rw (← same, e1, e2),
              subst (λ k. Fed w2 (d ++ (0xFF ∷ (to_be_bytes 2 k ++ unit_bytes payload)))) count
                  fed2,
              subst (λ k. Sent w2 (d ++ (0xFF ∷ (to_be_bytes 2 k ++ unit_bytes payload)))) count
                  sent2,
              omega arith,
            )
      ]
