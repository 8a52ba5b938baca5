-- ===== src/Protocol/Write/Compressed.antt =====
-- `write_packet_internal` from the compression threshold on.
use protocraft_framework.Prelude.{
  ℕ, ◌+◌, ◌^◌, ◌<◌, ◌≤◌, ◌≡◌, ◌∙◌, ◌⊎◌, inl, inr, List, [], ◌++◌, length, append_assoc, subst, some,
  arith, length-append, lt→ltb, le→ltb,
}
use protocraft_framework.Error.{done, fail, WriteError}
use protocraft_framework.Traits.{ToWriter, Serializable}
use protocraft_framework.Primatives.VarInt.{varint, varint_size}
use protocraft_framework.Primatives.VarInt.Spec.{varint_bytes}
use protocraft_framework.Primatives.VarInt.Write.{Writes-write_varint}
use protocraft_framework.Primatives.VarInt.Size.{length-varint_bytes}
use protocraft_framework.Protocol.Streams.{WriteStream}
use protocraft_framework.Protocol.Streams.Contract.{IsWriteStream}
use protocraft_framework.Protocol.Read.Packet.{body, compressed_frame}
use protocraft_framework.Protocol.Write.{
  max_packet_size, i32_max, pre_compress, write_compressed, write_deflated, write_form,
  write_packet_internal,
}
use protocraft_framework.Protocol.Write.Packet.{
  Serializes, Writes-write_body, total_size_lem, flush_after,
}
use native.Mathlib.Decide.{dec_lt}

module _ {A : Type 0} (t : ToWriter A) (size : Serializable A) (packet : A) (bytes : List ℕ)
    (packet_lem : Serializes t size packet bytes) (id : ℕ) (fits : id < 2 ^ 32) (st : WriteStream)
    (is : IsWriteStream st) (level : st.Level) where
  pre_compress_lem :
      (w : st.Base) (d : List ℕ)
      → is.Fed w d
      → (z : List ℕ) × (p : st.Payload) × (w' : st.Base) × (pre_compress t size st level id packet w
          ≡ done (length z, p) w')
        × is.Deflates (body id bytes) z
        × is.Deflated p (body id bytes) z
        × is.Fed w' d
  unfolding pre_compress
  pre_compress_lem w d h =
      let h0 = is.pre_compression_writer_lem level w d h in
      let (p1, e1, h1) =
        Writes-write_body t size packet bytes packet_lem id fits st.pre (λ v bs. is.PreFed v d bs)
          (is.pre_sink d) (st.pre_compression_writer level w) [] h0 in
      let (p2, e2, h2) = (is.pre_sink d).flush_all p1 (body id bytes) h1 in
      let (z, p, w', e3, deflates, deflated, h3) = is.finish_lem p1 p2 d (body id bytes) h1 e2 in
      (z, p, w', rw (e1, e2, e3), deflates, deflated, h3)

  write_compressed_lem :
      (p : st.Payload) (w : st.Base) (d z : List ℕ)
      → is.Deflates (body id bytes) z
      → is.Deflated p (body id bytes) z
      → is.Fed w d
      → (w' : st.Base) × (write_compressed t size st level p id packet w ≡ done tt w')
        × is.Fed w' (d ++ z)
  unfolding write_compressed
  write_compressed_lem p w d z deflates deflated h =
      let (c1, e1, h1) = is.initialize_lem level w p d (body id bytes) z h deflated in
      let (c2, e2, h2) =
        Writes-write_body t size packet bytes packet_lem id fits st.compress
          (λ v bs. is.CompressFed v d z bs) (is.compress_sink d z) c1 [] h1 in
      (
        st.end_compression c2,
        rw (e1, e2),
        is.end_compression_lem c2 d (body id bytes) z deflates h2,
      )

  abbrev framed : List ℕ → List ℕ
  framed z = varint_bytes (length (body id bytes)) ++ z

  length-framed :
      (z : List ℕ)
      → length (body id bytes) ≤ i32_max
      → varint_size (varint (length (body id bytes))) + length z ≡ length (framed z)
  length-framed z small = omega (
    arith,
    length-varint_bytes (length (body id bytes)) (omega arith),
    length-append (varint_bytes (length (body id bytes))) z,
  )

  -- What the writer ends with, once the ZLib stream `z` is known.
  write_deflated_fits :
      (w w1 : st.Base) (d z : List ℕ) (p : st.Payload)
      → pre_compress t size st level id packet w ≡ done (length z, p) w1
      → length (body id bytes) ≤ i32_max
      → length (framed z) ≤ max_packet_size
      → is.Deflates (body id bytes) z
      → is.Deflated p (body id bytes) z
      → is.Fed w1 d
      → (w' : st.Base) × (write_deflated t size st level id packet w ≡ done tt w')
        × is.Fed w' (d ++ compressed_frame (length (body id bytes)) z)
  unfolding write_deflated
  write_deflated_fits w w1 d z p e0 small room deflates deflated h =
      let n = length (body id bytes) in
      let (w2, e2, h2) =
        Writes-write_varint st.base is.Fed (length (framed z)) is.base_sink (omega arith) w1 d h in
      let (w3, e3, h3) =
        Writes-write_varint st.base is.Fed n is.base_sink (omega arith) w2
          (d ++ varint_bytes (length (framed z))) h2 in
      let (w4, e4, h4) = write_compressed_lem p w3 _ z deflates deflated h3 in
      (
        w4,
        rw (
          e0,
          total_size_lem t size packet bytes packet_lem id fits,
          le→ltb _ _ small,
          length-framed z small,
          le→ltb _ _ room,
          e2,
          e3,
          e4,
        ),
        subst (is.Fed w4)
            (append_assoc (d ++ varint_bytes (length (framed z))) (varint_bytes n) z
              ∙ append_assoc d (varint_bytes (length (framed z))) (framed z))
            h4,
      )

  -- With compression, for a packet whose id and payload are at least as long as the threshold and
  -- no longer than `i32::MAX`: there is a ZLib stream of them, and if it is, with the data length
  -- before it, at most 2 ^ 21 - 1 bytes, it is written and flushed: the writer has taken, and has
  -- actually written, the length, the data length and the stream, after what it had taken before.
  -- If not, the write fails with the error `OverSized` of that length and the writer has taken
  -- nothing more.
  pub write_packet_compressed :
      (threshold : ℕ) (w : st.Base) (d : List ℕ)
      → threshold ≤ length (body id bytes)
      → length (body id bytes) ≤ i32_max
      → is.Fed w d
      → (z : List ℕ) × (w' : st.Base) × is.Deflates (body id bytes) z
        × (((length (framed z) ≤ max_packet_size)
              × (write_packet_internal t size st (some threshold) level id packet w ≡ done tt w')
              × is.Fed w' (d ++ compressed_frame (length (body id bytes)) z)
              × is.Sent w' (d ++ compressed_frame (length (body id bytes)) z))
            ⊎ ((max_packet_size < length (framed z))
                × (write_packet_internal t size st (some threshold) level id packet w
                    ≡ fail
                        (WriteError.over_sized "no_compression_size" max_packet_size
                          (length (framed z)))
                        w')
                × is.Fed w' d))
  unfolding write_form
  write_packet_compressed threshold w d above small h =
      let (z, p, w1, e1, deflates, deflated, h1) = pre_compress_lem w d h in
      let total = total_size_lem t size packet bytes packet_lem id fits in
      elim (dec_lt max_packet_size (length (framed z))) [
        | yes large ↦ (
          z,
          w1,
          deflates,
          inr (
            large,
            (unfold write_packet_internal write_deflated in
                rw (
                  total,
                  le→ltb _ _ above,
                  e1,
                  le→ltb _ _ small,
                  length-framed z small,
                  lt→ltb _ _ large,
                )),
            h1,
          ),
        )
        | no room ↦
            let (w2, e2, h2) =
              write_deflated_fits w w1 d z p e1 small (omega arith) deflates deflated h1 in
            let (w3, e3, h3, sent) =
              flush_after t size packet bytes packet_lem id fits st is level w w2
                (d ++ compressed_frame (length (body id bytes)) z) (some threshold)
                (rw (total, le→ltb _ _ above, e2)) h2 in
            (z, w3, deflates, inl (omega arith, e3, h3, sent))
      ]
