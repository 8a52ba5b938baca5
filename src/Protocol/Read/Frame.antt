-- ===== src/Protocol/Read/Frame.antt =====
-- The inside of a packet: the id, the handler, and what the handler leaves unread.
use protocraft_framework.Prelude.{
  ℕ, ◌^◌, ◌<◌, ◌≡◌, List, [], ◌++◌, length, append-nil, subst, sym, Option, some, none, String,
}
use protocraft_framework.Error.{Result, ok, err, ReadError, Action}
use protocraft_framework.Traits.{BoundedReader, ProtocolStateHandler}
use protocraft_framework.Traits.Contract.{IsSource}
use protocraft_framework.Primatives.VarInt.Spec.{varint_bytes}
use protocraft_framework.Primatives.VarInt.Read.{Reads-read_varint}
use protocraft_framework.Protocol.Read.{discard_remaining, then_discard, dispatch, handle_helper}

-- The handler `m` ends with `res` on a reader that holds `payload`, and leaves an end of it unread.
abbrev pub Handles :
    {E R A : Type 0}
    → (R → List ℕ → Type 0)
    → Action R (ReadError E) A
    → List ℕ
    → Result (ReadError E) A
    → Type 0
Handles {R} Holds m payload res =
    (r : R)
    → Holds r payload
    → (r' : R) × (left : List ℕ) × (m r ≡ record { result = res; state = r' }) × Holds r' left

module _ {E R : Type 0} (br : BoundedReader E R) (Holds : R → List ℕ → Type 0)
    (s : IsSource br.reader Holds)
    (rem : (r : R) (bs : List ℕ) → Holds r bs → br.remaining r ≡ length bs) where
  discard_remaining_lem :
      (r : R) (bs : List ℕ)
      → Holds r bs
      → (r' : R) × (discard_remaining br r ≡ record { result = ok tt; state = r' }) × Holds r' []
  unfolding discard_remaining
  discard_remaining_lem r bs h =
      let (r', e, h') = s.discard_all r bs [] (subst (Holds r) (sym (append-nil bs)) h) in
      (r', rw (rem r bs h, e), h')

  pub then_discard_lem :
      {A : Type 0} (m : Action R (ReadError E) A) (payload : List ℕ) (res : Result (ReadError E) A)
      → Handles Holds m payload res
      → (r : R) → Holds r payload
      → (r' : R) × (then_discard br m r ≡ record { result = res; state = r' }) × Holds r' []
  unfolding then_discard
  then_discard_lem m payload res handles r h =
      let (r1, left, e1, h1) = handles r h in
      let (r2, e2, h2) = discard_remaining_lem r1 left h1 in (r2, rw (e1, e2), h2)

  module _ {D A : Type 0} (name : String) (h : ProtocolStateHandler D A)
      (designator_from_id : ℕ → Option D) (id : ℕ) (fits : id < 2 ^ 32) (payload : List ℕ) where
    -- A known id: the handler's result, and nothing of the packet is left.
    pub handle_helper_known :
        (d : D) (res : Result (ReadError E) A)
        → designator_from_id id ≡ some d
        → Handles Holds (h.handle_packet br d) payload res
        → (r : R) → Holds r (varint_bytes id ++ payload)
        → (r' : R) × (handle_helper br name h designator_from_id r
            ≡ record { result = res; state = r' })
          × Holds r' []
    unfolding handle_helper dispatch
    handle_helper_known d res known handles r holds =
        let (r1, e1, h1) = Reads-read_varint br.reader Holds s id fits r payload holds in
        let (r2, e2, h2) = then_discard_lem (h.handle_packet br d) payload res handles r1 h1 in
        (r2, rw (e1, known) e2, h2)

    -- An unknown id: the error, and the rest of the packet is left on the stream.
    pub handle_helper_unknown :
        designator_from_id id ≡ none
        → (r : R) → Holds r (varint_bytes id ++ payload)
        → (r' : R) × (handle_helper br name h designator_from_id r
            ≡ record { result = err (ReadError.unknown_packet name id); state = r' })
          × Holds r' payload
    unfolding handle_helper dispatch
    handle_helper_unknown unknown r holds =
        let (r1, e1, h1) = Reads-read_varint br.reader Holds s id fits r payload holds in
        (r1, rw (e1, unknown), h1)
