-- ===== src/Tests/Refusals.antt =====
-- Packets that are too long to be written.
use protocraft_framework.Prelude.{
  ℕ, zero, suc, ap, sym, subst, ◌+◌, ◌≡◌, ◌<◌, refl, List, [], ◌∷◌, length, some, none, arith,
}
use protocraft_framework.Error.{fail, WriteError}
use protocraft_framework.Traits.{ToWriter, Serializable}
use protocraft_framework.Traits.Contract.{write_bytes, Writes-write_bytes}
use protocraft_framework.Protocol.Read.Packet.{body}
use protocraft_framework.Protocol.Write.{max_packet_size, write_packet_internal}
use protocraft_framework.Protocol.Write.Packet.{
  Serializes, write_packet_plain_over_sized, write_packet_stored_over_sized,
}
use protocraft_framework.Tests.Fixtures.{writes, writes_lem, after}

-- `n` zeros.
abbrev zeros : ℕ → List ℕ
zeros zero = []
zeros (suc n) = 0 ∷ zeros n

length-zeros : (n : ℕ) → length (zeros n) ≡ n
length-zeros zero = refl
length-zeros (suc n) = ap suc (length-zeros n)

abbrev zeros_writer : ToWriter ℕ
zeros_writer = record { to_writer = λ wr n. write_bytes wr (zeros n) }

abbrev zeros_size : Serializable ℕ
zeros_size = record { size = λ n. n }

zeros-Serializes : (n : ℕ) → Serializes zeros_writer zeros_size n (zeros n)
zeros-Serializes n = record {
  writes = λ wr Fed s. Writes-write_bytes wr Fed (zeros n) s;
  size_lem = sym (length-zeros n);
}

long_body : (n : ℕ) → length (body 1 (zeros n)) ≡ n + 1
long_body n = omega (arith, length-zeros n)

-- Two megabytes.
abbrev two_mib : ℕ
two_mib = 0x20_0000

write_packet_plain_over_sized_example :
    write_packet_internal zeros_writer zeros_size writes none 5 1 two_mib (after [])
    ≡ fail
        (WriteError.over_sized "no_compression_size" max_packet_size
          (length (body 1 (zeros two_mib))))
        (after [])
write_packet_plain_over_sized_example =
    write_packet_plain_over_sized zeros_writer zeros_size two_mib (zeros two_mib)
      (zeros-Serializes two_mib) 1 (omega arith) writes writes_lem 5 (after [])
      (subst (λ n. max_packet_size < n) (sym (long_body two_mib)) (omega arith))

write_packet_stored_over_sized_example :
    write_packet_internal zeros_writer zeros_size writes (some 0x40_0000) 5 1 two_mib (after [])
    ≡ fail
        (WriteError.over_sized "compression_below_size" max_packet_size
          (length (body 1 (zeros two_mib)) + 1))
        (after [])
write_packet_stored_over_sized_example =
    write_packet_stored_over_sized zeros_writer zeros_size two_mib (zeros two_mib)
      (zeros-Serializes two_mib) 1 (omega arith) writes writes_lem 5 0x40_0000 (after [])
      (subst (λ n. n < 0x40_0000) (sym (long_body two_mib)) (omega arith))
      (subst (λ n. max_packet_size < n + 1) (sym (long_body two_mib)) (omega arith))
