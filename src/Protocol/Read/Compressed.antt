-- ===== src/Protocol/Read/Compressed.antt =====
-- `read_packet` on a compressed packet.
use protocraft_framework.Prelude.{
  ℕ, ◌+◌, ◌^◌, ◌<◌, ◌≡◌, ◌≢◌, refl, sym, List, [], ◌++◌, length, append-nil, subst, some, leb, ◌==◌,
  false, ne→==, arith, length-append,
}
use protocraft_framework.Error.{Result, ReadError}
use protocraft_framework.Traits.{ProtocolState, ProtocolStateHandler}
use protocraft_framework.Primatives.VarInt.Spec.{varint_bytes, length-base128}
use protocraft_framework.Primatives.VarInt.Read.{Reads-read_varint}
use protocraft_framework.Protocol.Streams.{ReadStream}
use protocraft_framework.Protocol.Streams.Contract.{
  IsReadStream, IsBounded-IsSource, Window, Window-remaining,
}
use protocraft_framework.Protocol.Read.{handle_helper, read_body, read_packet}
use protocraft_framework.Protocol.Read.Frame.{Handles, handle_helper_known}
use protocraft_framework.Protocol.Read.Packet.{body, compressed_frame, read_packet-body}

-- The data of the ZLib stream `z` that a decompressing reader of `st` has left, in a stream that goes
-- on with `after`.
abbrev pub InnerWindow :
    (st : ReadStream) → IsReadStream st → List ℕ → List ℕ → st.Inner → List ℕ → Type 0
InnerWindow st is z after = Window (λ r n bs. is.InnerHolds r z after n bs) 0 []

length-body_pos : (id : ℕ) (payload : List ℕ) → length (body id payload) ≢ 0
length-body_pos id payload =
    omega (arith, length-append (varint_bytes id) payload, length-base128 4 id)

module _ (st : ReadStream) (is : IsReadStream st) (s : ProtocolState) {A : Type 0}
    (h : ProtocolStateHandler s.PacketDesignator A) (id : ℕ) (payload rest : List ℕ)
    (d : s.PacketDesignator) (res : Result (ReadError st.Error) A) (fits : id < 2 ^ 32)
    (known : s.designator_from_id id ≡ some d) where
  -- The handler inside the bound of the data, over a fresh decompressing reader.
  inner_helper :
      (z : List ℕ)
      → Handles (InnerWindow st is z rest) (h.handle_packet st.inner d) payload res
      → (r : st.Decompress) → is.DecompressHolds r z (body id payload) rest
      → (r' : st.Inner) × (handle_helper st.inner s.state_name h s.designator_from_id
            (st.with_inner_bound (length (body id payload)) r)
          ≡ record { result = res; state = r' })
        × is.DecompressHolds (st.end_inner_bound r') z [] rest
  inner_helper z handles r holds =
      let content = body id payload in
      let start = st.with_inner_bound (length content) r in
      let exact : length content ≡ length content + 0 = omega arith in
      let h0 = is.with_inner_bound_lem (length content) r z content rest holds in
      let h1 : is.InnerHolds start z rest (length content) (content ++ []) =
        subst (is.InnerHolds start z rest (length content)) (sym (append-nil content)) h0 in
      let h2 : InnerWindow st is z rest start content =
        subst (λ n. is.InnerHolds start z rest n (content ++ [])) exact h1 in
      let (r', e, h') =
        handle_helper_known st.inner (InnerWindow st is z rest)
          (IsBounded-IsSource st.inner _ (is.inner_lem z rest) 0 [])
          (Window-remaining st.inner _ (is.inner_lem z rest) []) s.state_name h s.designator_from_id
          id fits payload d res known handles start h2 in
      (r', e, is.end_inner_bound_lem r' (0 + 0) z [] rest h')

  -- With compression, on a stream that holds the frame of a packet of a known id, as a ZLib stream
  -- of an id and payload shorter than 2 ^ 31 bytes, the frame's content shorter than 2 ^ 21 bytes,
  -- and then `rest`: if the handler of the id ends with a result or an error on the payload,
  -- whatever it leaves unread, `read_packet` ends with the same, and the stream holds an end `left`
  -- of the ZLib stream, which the decompressing reader has not taken, and then `rest`.
  pub read_packet_compressed :
      (threshold : ℕ) (z : List ℕ) (r : st.Base)
      → length (body id payload) < 2 ^ 31
      → length (varint_bytes (length (body id payload)) ++ z) < 2 ^ 21
      → is.Inflates z (body id payload)
      → Handles (InnerWindow st is z rest) (h.handle_packet st.inner d) payload res
      → is.Holds r (compressed_frame (length (body id payload)) z ++ rest)
      → (part : List ℕ) × (left : List ℕ) × (r' : st.Base) × (part ++ left ≡ z)
        × (read_packet st s h (some threshold) r ≡ record { result = res; state = r' })
        × is.Holds r' (left ++ rest)
  unfolding read_body
  read_packet_compressed threshold z r positive small inflates handles holds =
      let (r', after, e, h', (part, left, split, same)) =
        read_packet-body st is s h (some threshold) (varint_bytes (length (body id payload)) ++ z)
          rest (λ l. (part : List ℕ) × (left : List ℕ) × (part ++ left ≡ z) × (l ≡ left ++ rest))
          res r small holds inside in
      (part, left, r', split, e, subst (is.Holds r') same h')
    where
      inside :
          (b : st.Bounded)
          → Window is.BoundedHolds 0 rest b (varint_bytes (length (body id payload)) ++ z)
          → (b' : st.Bounded) × (n : ℕ) × (after : List ℕ) × (read_body st s h (some threshold) b
              ≡ record { result = res; state = b' })
            × is.BoundedHolds b' n after
            × ((part : List ℕ) × (left : List ℕ) × (part ++ left ≡ z) × (after ≡ left ++ rest))
      inside b window =
          let size = length (body id payload) in
          let (b1, e1, h1) =
            Reads-read_varint st.bounded.reader (Window is.BoundedHolds 0 rest)
              (IsBounded-IsSource st.bounded is.BoundedHolds is.bounded_lem 0 rest) size
              (omega arith) b z window in
          let exact : length z + 0 ≡ length z = omega arith in
          let h2 = subst (λ n. is.BoundedHolds b1 n (z ++ rest)) exact h1 in
          let h3 = is.with_decompression_lem b1 z (body id payload) rest inflates h2 in
          let (i, e2, h4) = inner_helper z handles (st.with_decompression b1) h3 in
          let (part, left, split, h5) = is.end_decompression_lem (st.end_inner_bound i) z rest h4 in
          let nonneg : leb (2 ^ 31) size ≡ false = ground arith in
          let nonzero : (size == 0) ≡ false = ne→== size 0 (length-body_pos id payload) in
          (
            st.end_decompression (st.end_inner_bound i),
            length left,
            left ++ rest,
            rw (e1, nonneg, nonzero, e2),
            h5,
            (part, left, split, refl),
          )
