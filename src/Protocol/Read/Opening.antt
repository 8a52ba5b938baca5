-- ===== src/Protocol/Read/Opening.antt =====
-- `read_handshake`: which handler runs on which bytes, for each kind of client.
use protocraft_framework.Prelude.{
  ℕ, ◌+◌, ◌*◌, ◌/◌, ◌%◌, ◌^◌, ◌<◌, ◌≤◌, ◌≡◌, ◌≢◌, List, [], ◌∷◌, ◌++◌, length, subst, Option, some,
  arith, String, ◌⊎◌, inl, inr, ltb, lt→ltb, true,
}
use protocraft_framework.Error.{Result, ReadError, done}
use protocraft_framework.Traits.{ProtocolStateHandler}
use protocraft_framework.Traits.Contract.{HasArrived}
use protocraft_framework.Primatives.VarInt.Spec.{base128}
use protocraft_framework.Primatives.HandshakeVersion.{HandshakeVersion, read_handshake_version}
use protocraft_framework.Primatives.HandshakeVersion.Standard.{
  Reads-read_handshake_version_short, Reads-read_handshake_version_long,
}
use protocraft_framework.Primatives.HandshakeVersion.Legacy.{
  ping_host_message, Reads-read_handshake_version_1_6, read_handshake_version_alone,
  read_handshake_version_pair,
}
use protocraft_framework.Protocol.Streams.{ReadStream}
use protocraft_framework.Protocol.Streams.Contract.{
  IsReadStream, IsBounded-IsSource, Window, Window-remaining,
}
use protocraft_framework.Protocol.Read.{Handshake, read_handshake, read_handshake_as, then_discard}
use protocraft_framework.Protocol.Read.Frame.{Handles, handle_helper_known, then_discard_lem}
use protocraft_framework.Protocol.Read.Packet.{body}

module _ (st : ReadStream) (is : IsReadStream st) (name : String)
    (designator_from_id : ℕ → Option Handshake) {A : Type 0} (h : ProtocolStateHandler Handshake A)
    (res : Result (ReadError st.Error) A) where
  open-Window :
      (bs rest : List ℕ) (n : ℕ) (r : st.Base)
      → n ≡ length bs
      → is.Holds r (bs ++ rest)
      → Window is.BoundedHolds 0 rest (st.with_bound n r) bs
  open-Window bs rest n r e holds =
      let exact : n ≡ length bs + 0 = omega arith in
      subst (λ k. is.BoundedHolds (st.with_bound n r) k (bs ++ rest)) exact
        (is.with_bound_lem n r (bs ++ rest) holds)

  -- A bound of the packet's own length: the handler of its id runs.
  read_handshake_as_standard :
      (id : ℕ) (payload rest : List ℕ) (d : Handshake) (r : st.Base)
      → id < 2 ^ 32
      → designator_from_id id ≡ some d
      → Handles (Window is.BoundedHolds 0 rest) (h.handle_packet st.bounded d) payload res
      → is.Holds r (body id payload ++ rest)
      → (r' : st.Base) × (read_handshake_as st name designator_from_id h
            (HandshakeVersion.standard (length (body id payload)))
            r
          ≡ record { result = res; state = r' })
        × is.Holds r' rest
  unfolding read_handshake_as
  read_handshake_as_standard id payload rest d r fits known handles holds =
      let n = length (body id payload) in
      let (b, e, h') =
        handle_helper_known st.bounded (Window is.BoundedHolds 0 rest)
          (IsBounded-IsSource st.bounded is.BoundedHolds is.bounded_lem 0 rest)
          (Window-remaining st.bounded is.BoundedHolds is.bounded_lem rest) name h
          designator_from_id id fits payload d res known handles (st.with_bound n r)
          (open-Window (body id payload) rest n r (λ i. n) holds) in
      (st.end_bound b, rw e, is.end_bound_lem b (0 + 0) rest h')

  -- A bound of `n` bytes for the handler of a legacy ping.
  legacy_scope :
      (kind : Handshake) (bs rest : List ℕ) (n : ℕ) (r : st.Base)
      → n ≡ length bs
      → Handles (Window is.BoundedHolds 0 rest) (h.handle_packet st.bounded kind) bs res
      → is.Holds r (bs ++ rest)
      → (b : st.Bounded) × (then_discard st.bounded
            (h.handle_packet st.bounded kind)
            (st.with_bound n r)
          ≡ record { result = res; state = b })
        × is.Holds (st.end_bound b) rest
  legacy_scope kind bs rest n r e handles holds =
      let (b, e', h') =
        then_discard_lem st.bounded (Window is.BoundedHolds 0 rest)
          (IsBounded-IsSource st.bounded is.BoundedHolds is.bounded_lem 0 rest)
          (Window-remaining st.bounded is.BoundedHolds is.bounded_lem rest)
          (h.handle_packet st.bounded kind) bs res handles (st.with_bound n r)
          (open-Window bs rest n r e holds) in
      (b, e', is.end_bound_lem b (0 + 0) rest h')

  -- On a stream that holds a modern handshake packet of an id that the state knows, and then
  -- `rest`, the packet shorter than 128 bytes, or shorter than 2 ^ 21 bytes with bit 7 of its
  -- length set and the lowest seven bits of its length other than 126: if the handler of the id
  -- ends with a result or an error on the payload, `read_handshake` ends with the same and the
  -- stream holds `rest`.
  pub read_handshake-standard :
      (id : ℕ) (payload rest : List ℕ) (d : Handshake) (r : st.Base)
      → id < 2 ^ 32
      → designator_from_id id ≡ some d
      → (length (body id payload) < 128)
        ⊎ ((128 ≤ length (body id payload))
            × (length (body id payload) < 2 ^ 21)
            × (length (body id payload) / 128 % 2 ≡ 1)
            × (length (body id payload) % 128 ≢ 126))
      → Handles (Window is.BoundedHolds 0 rest) (h.handle_packet st.bounded d) payload res
      → is.Holds r (base128 3 (length (body id payload)) ++ (body id payload ++ rest))
      → (r' : st.Base) × (read_handshake st name designator_from_id h r
          ≡ record { result = res; state = r' })
        × is.Holds r' rest
  unfolding read_handshake
  read_handshake-standard id payload rest d r fits known form handles holds =
      let n = length (body id payload) in
      let (r1, e1, h1) = version form in
      let (r2, e2, h2) = read_handshake_as_standard id payload rest d r1 fits known handles h1 in
      (r2, rw (e1, e2), h2)
    where
      version :
          (length (body id payload) < 128)
            ⊎ ((128 ≤ length (body id payload))
                × (length (body id payload) < 2 ^ 21)
                × (length (body id payload) / 128 % 2 ≡ 1)
                × (length (body id payload) % 128 ≢ 126))
          → (r1 : st.Base) × (read_handshake_version st.base r
              ≡ done (HandshakeVersion.standard (length (body id payload))) r1)
            × is.Holds r1 (body id payload ++ rest)
      version (inl short) =
          Reads-read_handshake_version_short st.base is.Holds is.base_source
            (length (body id payload)) short r (body id payload ++ rest)
            (let small : ltb (length (body id payload)) 128 ≡ true = lt→ltb _ _ short in
              rw small at holds)
      version (inr (lo, hi, odd, ne)) =
          let n = length (body id payload) in
          let same : n % 128 + (n / 128 / 2 * 2 + 1) * 128 ≡ n = omega arith in
          rw same at (
            Reads-read_handshake_version_long st.base is.Holds is.base_source n lo (omega arith) ne
              r (body id payload ++ rest) holds)

  module _ (arrived : HasArrived st.base is.Holds) where
    -- On a stream whose bytes have arrived and that holds FE 01 FA, the channel `MC|PingHost`, a
    -- length below 2 ^ 15, as many bytes, and then `rest`: if the handler of the 1.6 handshake ends
    -- with a result or an error on these bytes, `read_handshake` ends with the same and the stream
    -- holds `rest`.
    pub read_handshake-legacy_1_6 :
        (bs rest : List ℕ) (r : st.Base)
        → length bs < 2 ^ 15
        → Handles
            (Window is.BoundedHolds 0 rest)
            (h.handle_packet st.bounded Handshake.legacy1_6)
            bs
            res
        → is.Holds r ((0xFE ∷ 0x01 ∷ 0xFA ∷ ping_host_message (length bs)) ++ (bs ++ rest))
        → (r' : st.Base) × (read_handshake st name designator_from_id h r
            ≡ record { result = res; state = r' })
          × is.Holds r' rest
    unfolding read_handshake read_handshake_as
    read_handshake-legacy_1_6 bs rest r small handles holds =
        let (r1, e1, h1) =
          Reads-read_handshake_version_1_6 st.base is.Holds is.base_source arrived (length bs) small
            r (bs ++ rest) holds in
        let (b, e2, h2) =
          legacy_scope Handshake.legacy1_6 bs rest (length bs) r1 (λ i. length bs) handles h1 in
        (st.end_bound b, rw (e1, e2), h2)

    -- On a stream whose bytes have arrived and that holds FE alone, or FE 01 alone: if the handler
    -- of the 1.3 handshake, or of the 1.5 handshake, ends with a result or an error on no bytes,
    -- `read_handshake` ends with the same and the stream is empty.
    pub read_handshake-legacy_short :
        (r : st.Base)
        → (is.Holds r (0xFE ∷ [])
            × Handles
                (Window is.BoundedHolds 0 [])
                (h.handle_packet st.bounded Handshake.legacy1_3)
                []
                res)
          ⊎ (is.Holds r (0xFE ∷ 0x01 ∷ [])
              × Handles
                  (Window is.BoundedHolds 0 [])
                  (h.handle_packet st.bounded Handshake.legacy1_5)
                  []
                  res)
        → (r' : st.Base) × (read_handshake st name designator_from_id h r
            ≡ record { result = res; state = r' })
          × is.Holds r' []
    unfolding read_handshake read_handshake_as
    read_handshake-legacy_short r (inl (holds, handles)) =
        let (r1, e1, h1) =
          read_handshake_version_alone st.base is.Holds is.base_source arrived r holds in
        let (b, e2, h2) = legacy_scope Handshake.legacy1_3 [] [] 0 r1 (omega arith) handles h1 in
        (st.end_bound b, rw (e1, e2), h2)
    read_handshake-legacy_short r (inr (holds, handles)) =
        let (r1, e1, h1) =
          read_handshake_version_pair st.base is.Holds is.base_source arrived r holds in
        let (b, e2, h2) = legacy_scope Handshake.legacy1_5 [] [] 0 r1 (omega arith) handles h1 in
        (st.end_bound b, rw (e1, e2), h2)
