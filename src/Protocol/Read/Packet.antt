-- ===== src/Protocol/Read/Packet.antt =====
-- `read_packet`: what it makes of each form of a packet, and where it leaves the stream.
use protocraft_framework.Prelude.{
  ℕ, ◌+◌, ◌-◌, ◌^◌, ◌<◌, ◌≤◌, ◌≡◌, refl, sym, List, [], ◌++◌, length, append-nil, append_assoc,
  subst, Option, some, none, leb, false, arith,
}
use protocraft_framework.Error.{Result, done, fail, ReadError}
use protocraft_framework.Traits.{ProtocolState, ProtocolStateHandler}
use protocraft_framework.Primatives.VarInt.{varint}
use protocraft_framework.Primatives.VarInt.Spec.{varint_bytes, length-base128_le}
use protocraft_framework.Primatives.VarInt.Read.{Reads-read_varint}
use protocraft_framework.Protocol.Streams.{ReadStream}
use protocraft_framework.Protocol.Streams.Contract.{
  IsReadStream, IsBounded-IsSource, Window, Window-remaining,
}
use protocraft_framework.Protocol.Read.{handle_helper, read_body, read_packet, read_packet_length}
use protocraft_framework.Protocol.Read.Frame.{Handles, handle_helper_known, handle_helper_unknown}

-- The wire format of a packet: its length, then its id and its payload.
abbrev pub body : ℕ → List ℕ → List ℕ
body id payload = varint_bytes id ++ payload

abbrev pub with_length : List ℕ → List ℕ
with_length bs = varint_bytes (length bs) ++ bs

-- With no compression.
abbrev pub plain_frame : ℕ → List ℕ → List ℕ
plain_frame id payload = with_length (body id payload)

-- With compression, below the threshold: a data length of 0.
abbrev pub stored_frame : ℕ → List ℕ → List ℕ
stored_frame id payload = with_length (varint_bytes 0 ++ body id payload)

-- With compression: the length of the data, and a ZLib stream `z` of it.
abbrev pub compressed_frame : ℕ → List ℕ → List ℕ
compressed_frame size z = with_length (varint_bytes size ++ z)

module _ (st : ReadStream) (is : IsReadStream st) (s : ProtocolState) {A : Type 0}
    (h : ProtocolStateHandler s.PacketDesignator A) where
  -- The length is read through a bound of three bytes, however many it takes.
  read_packet_length_lem :
      (n : ℕ) (rest : List ℕ) (r : st.Base)
      → n < 2 ^ 21
      → is.Holds r (varint_bytes n ++ rest)
      → (r' : st.Base) × (read_packet_length st s h r ≡ done (varint n) r') × is.Holds r' rest
  unfolding read_packet_length
  read_packet_length_lem n rest r small holds =
      let bs = varint_bytes n in
      let room : length bs ≤ 3 = length-base128_le 4 2 n small in
      let exact : 3 ≡ length bs + (3 - length bs) = omega arith in
      let b0 = is.with_bound_lem 3 r (bs ++ rest) holds in
      let b1 : is.BoundedHolds (st.with_bound 3 r) (length bs + (3 - length bs)) (bs ++ rest) =
        subst (λ k. is.BoundedHolds (st.with_bound 3 r) k (bs ++ rest)) exact b0 in
      let b2 : Window is.BoundedHolds (3 - length bs) rest (st.with_bound 3 r) (bs ++ []) =
        subst (λ xs. Window is.BoundedHolds (3 - length bs) rest (st.with_bound 3 r) xs)
          (sym (append-nil bs)) b1 in
      let source =
        IsBounded-IsSource st.bounded is.BoundedHolds is.bounded_lem (3 - length bs) rest in
      let (r1, e1, h1) =
        Reads-read_varint st.bounded.reader _ source n (omega arith) (st.with_bound 3 r) [] b2 in
      (st.end_bound r1, rw e1, is.end_bound_lem r1 (0 + (3 - length bs)) rest h1)

  -- The body is read through a bound of the length, and what its bound leaves is on the stream.
  module _ (threshold : Option ℕ) (bs rest : List ℕ) (After : List ℕ → Type 0)
      (res : Result (ReadError st.Error) A) where
    pub read_packet-body :
        (r : st.Base)
        → length bs < 2 ^ 21
        → is.Holds r (with_length bs ++ rest)
        → ((b : st.Bounded)
            → Window is.BoundedHolds 0 rest b bs
            → (b' : st.Bounded) × (n : ℕ) × (left : List ℕ) × (read_body st s h threshold b
                ≡ record { result = res; state = b' })
              × is.BoundedHolds b' n left
              × After left)
        → (r' : st.Base) × (left : List ℕ) × (read_packet st s h threshold r
            ≡ record { result = res; state = r' })
          × is.Holds r' left
          × After left
    unfolding read_packet
    read_packet-body r small holds inside =
        let (r1, e1, h1) =
          read_packet_length_lem (length bs) (bs ++ rest) r small
            (subst (is.Holds r) (append_assoc (varint_bytes (length bs)) bs rest) holds) in
        let same : length bs ≡ length bs + 0 = omega arith in
        let window : Window is.BoundedHolds 0 rest (st.with_bound (length bs) r1) bs =
          subst (λ n. is.BoundedHolds (st.with_bound (length bs) r1) n (bs ++ rest)) same
            (is.with_bound_lem (length bs) r1 (bs ++ rest) h1) in
        let (b', n, left, e2, h2, after) = inside (st.with_bound (length bs) r1) window in
        let positive : leb (2 ^ 31) (length bs) ≡ false = ground arith in
        (st.end_bound b', left, rw (e1, positive, e2), is.end_bound_lem b' n left h2, after)

module _ (st : ReadStream) (is : IsReadStream st) (s : ProtocolState) {A : Type 0}
    (h : ProtocolStateHandler s.PacketDesignator A) (id : ℕ) (payload rest : List ℕ)
    (d : s.PacketDesignator) (res : Result (ReadError st.Error) A) (fits : id < 2 ^ 32)
    (known : s.designator_from_id id ≡ some d) where
  -- The handler inside the bound of the packet.
  bounded_helper :
      Handles (Window is.BoundedHolds 0 rest) (h.handle_packet st.bounded d) payload res
      → (b : st.Bounded) → Window is.BoundedHolds 0 rest b (body id payload)
      → (b' : st.Bounded) × (handle_helper st.bounded s.state_name h s.designator_from_id b
          ≡ record { result = res; state = b' })
        × Window is.BoundedHolds 0 rest b' []
  bounded_helper handles b holds =
      handle_helper_known st.bounded (Window is.BoundedHolds 0 rest)
        (IsBounded-IsSource st.bounded is.BoundedHolds is.bounded_lem 0 rest)
        (Window-remaining st.bounded is.BoundedHolds is.bounded_lem rest) s.state_name h
        s.designator_from_id id fits payload d res known handles b holds

  -- With no compression, on a stream that holds the frame of a packet of a known id, its id and
  -- payload shorter than 2 ^ 21 bytes, and then `rest`: if the handler of the id ends with a result
  -- or an error on the payload, whatever it leaves unread, `read_packet` ends with the same and the
  -- stream holds `rest`.
  pub read_packet_plain :
      (r : st.Base)
      → length (body id payload) < 2 ^ 21
      → Handles (Window is.BoundedHolds 0 rest) (h.handle_packet st.bounded d) payload res
      → is.Holds r (plain_frame id payload ++ rest)
      → (r' : st.Base) × (read_packet st s h none r ≡ record { result = res; state = r' })
        × is.Holds r' rest
  unfolding read_body
  read_packet_plain r small handles holds =
      let (r', left, e, h', same) =
        read_packet-body st is s h none (body id payload) rest (λ l. l ≡ rest) res r small holds
          (λ b window.
            let (b', e, h') = bounded_helper handles b window in (b', 0 + 0, rest, e, h', refl)) in
      (r', e, subst (is.Holds r') same h')

  -- With compression, on a stream that holds the frame of a packet of a known id that is stored
  -- with a data length of 0, in all shorter than 2 ^ 21 bytes, and then `rest`: if the handler of
  -- the id ends with a result or an error on the payload, whatever it leaves unread, `read_packet`
  -- ends with the same and the stream holds `rest`, whatever the threshold.
  pub read_packet_stored :
      (threshold : ℕ) (r : st.Base)
      → length (varint_bytes 0 ++ body id payload) < 2 ^ 21
      → Handles (Window is.BoundedHolds 0 rest) (h.handle_packet st.bounded d) payload res
      → is.Holds r (stored_frame id payload ++ rest)
      → (r' : st.Base) × (read_packet st s h (some threshold) r
          ≡ record { result = res; state = r' })
        × is.Holds r' rest
  unfolding read_body
  read_packet_stored threshold r small handles holds =
      let (r', left, e, h', same) =
        read_packet-body st is s h (some threshold) (varint_bytes 0 ++ body id payload) rest
          (λ l. l ≡ rest) res r small holds (stored_body handles) in
      (r', e, subst (is.Holds r') same h')
    where
      stored_body :
          Handles (Window is.BoundedHolds 0 rest) (h.handle_packet st.bounded d) payload res
          → (b : st.Bounded) → Window is.BoundedHolds 0 rest b (varint_bytes 0 ++ body id payload)
          → (b' : st.Bounded) × (n : ℕ) × (left : List ℕ) × (read_body st s h (some threshold) b
              ≡ record { result = res; state = b' })
            × is.BoundedHolds b' n left
            × (left ≡ rest)
      stored_body handles b window =
          let (b1, e1, h1) =
            Reads-read_varint st.bounded.reader (Window is.BoundedHolds 0 rest)
              (IsBounded-IsSource st.bounded is.BoundedHolds is.bounded_lem 0 rest) 0 (omega arith)
              b (body id payload) window in
          let (b2, e2, h2) = bounded_helper handles b1 h1 in
          (b2, 0 + 0, rest, rw (e1, e2), h2, refl)

module _ (st : ReadStream) (is : IsReadStream st) (s : ProtocolState) {A : Type 0}
    (h : ProtocolStateHandler s.PacketDesignator A) where
  -- A packet of an id that the state does not know, with no compression: the read fails with the
  -- error `UnknownPacket` of the state and the id, and the packet's payload is still on the stream.
  pub read_packet_unknown :
      (id : ℕ) (payload rest : List ℕ) (r : st.Base)
      → id < 2 ^ 32
      → s.designator_from_id id ≡ none
      → length (body id payload) < 2 ^ 21
      → is.Holds r (plain_frame id payload ++ rest)
      → (r' : st.Base) × (read_packet st s h none r
          ≡ fail (ReadError.unknown_packet s.state_name id) r')
        × is.Holds r' (payload ++ rest)
  unfolding read_body
  read_packet_unknown id payload rest r fits unknown small holds =
      let (r', left, e, h', same) =
        read_packet-body st is s h none (body id payload) rest (λ l. l ≡ payload ++ rest) _ r small
          holds
          (λ b window.
            let (b', e, h') =
              handle_helper_unknown st.bounded (Window is.BoundedHolds 0 rest)
                (IsBounded-IsSource st.bounded is.BoundedHolds is.bounded_lem 0 rest)
                (Window-remaining st.bounded is.BoundedHolds is.bounded_lem rest) s.state_name h
                s.designator_from_id id fits payload unknown b window in
            (b', length payload + 0, payload ++ rest, e, h', refl)) in
      (r', e, subst (is.Holds r') same h')
