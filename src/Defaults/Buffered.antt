-- ===== src/Defaults/Buffered.antt =====
-- `BufferedWriter`: what it was fed is what it has sent and then what it holds.
use protocraft_framework.Prelude.{
  ℕ, ◌-◌, ◌<◌, ◌≤◌, ◌≡◌, refl, ap, ◌∙◌, sym, List, [], ◌∷◌, ◌++◌, length, take, min, ne→==, ==_iff,
  true, false, ◌⊎◌, inl, inr, append-nil, append_assoc, length-take, length-append, subst, arith,
}
use protocraft_framework.Error.{done, ◌>>◌}
use protocraft_framework.Traits.{Writer}
use protocraft_framework.Traits.Contract.{IsSink, IsFlushing}
use protocraft_framework.WithStd.{write_all, std_writer}
use protocraft_framework.WithStd.Writes.{IsProgressing, write_all_lem}
use protocraft_framework.Defaults.{
  BufferedWriter, is_empty, extend, drain, flush_inner, buffered_write, buffered_flush, buffered,
}
use native.Mathlib.Decide.{ℕ_discrete}

pub is_empty-cases :
    {A : Type 0} (xs : List A) → ((is_empty xs ≡ true) × (xs ≡ [])) ⊎ (is_empty xs ≡ false)
is_empty-cases [] = inl (refl, refl)
is_empty-cases (x ∷ xs) = inr refl

-- The bytes `sent` have reached the inner writer, and `d` is all that was taken.
pub record BufferFed {W : Type 0} (Fed : W → List ℕ → Type 0) (b : BufferedWriter W) (d : List ℕ)
    : Type 0 where
  pub sent : List ℕ
  pub fed : Fed b.writer sent
  pub all : sent ++ b.buffer ≡ d
  pub room : length b.buffer ≤ b.capacity
  pub holds_some : 0 < b.capacity

module _ {E W : Type 0} (wr : Writer E W) (Fed : W → List ℕ → Type 0) (s : IsSink wr Fed)
    (Sent : W → List ℕ → Type 0) (flushing : IsFlushing wr Fed Sent) where
  drain_lem :
      (b : BufferedWriter W) (d : List ℕ)
      → BufferFed Fed b d
      → (b' : BufferedWriter W) × (drain wr b ≡ done tt b')
        × Fed b'.writer d
        × (b'.buffer ≡ [])
        × (b'.capacity ≡ b.capacity)
  unfolding drain
  drain_lem b d h =
      let (w', e, fed') = s.write_all b.writer h.sent b.buffer h.fed in
      (
        record { writer = w'; buffer = []; capacity = b.capacity },
        rw e,
        subst (Fed w') h.all fed',
        refl,
        refl,
      )

  extend-BufferFed :
      (b : BufferedWriter W) (d bs : List ℕ) (room : ℕ)
      → room ≡ b.capacity - length b.buffer
      → BufferFed Fed b d
      → BufferFed Fed (extend room bs b) (d ++ take (min room (length bs)) bs)
  extend-BufferFed b d bs room e h =
      let some_bytes = take (min room (length bs)) bs in
      record {
        sent = h.sent;
        fed = h.fed;
        all = sym (append_assoc h.sent b.buffer some_bytes) ∙ ap (λ l. l ++ some_bytes) h.all;
        room = omega (
          arith,
          h.room,
          length-append b.buffer some_bytes,
          length-take (min room (length bs)) bs,
        );
        holds_some = h.holds_some;
      }

  pub buffered-IsProgressing : IsProgressing (buffered wr) (BufferFed Fed)
  unfolding buffered_write
  buffered-IsProgressing = record {
    takes = λ b d x xs h. elim (ℕ_discrete (b.capacity - length b.buffer) 0) [
      | yes full ↦
          let (b1, e1, fed1, empty, same) = drain_lem b d h in
          let zero_room = (==_iff (b.capacity - length b.buffer) 0).1 full in
          let h1 : BufferFed Fed b1 d = record {
            sent = d;
            fed = fed1;
            all = rw (empty, append-nil d);
            room = rw empty (omega arith);
            holds_some = rw same h.holds_some;
          } in
          (
            min b1.capacity (length (x ∷ xs)),
            extend b1.capacity (x ∷ xs) b1,
            rw (zero_room, e1),
            omega (arith, h1.holds_some),
            extend-BufferFed b1 d (x ∷ xs) b1.capacity (rw empty (omega arith)) h1,
          )
      | no space ↦
          let room = b.capacity - length b.buffer in
          (
            min room (length (x ∷ xs)),
            extend room (x ∷ xs) b,
            rw (ne→== room 0 space),
            omega arith,
            extend-BufferFed b d (x ∷ xs) room refl h,
          )
    ];
  }

  flush_inner_lem :
      (b : BufferedWriter W) (d : List ℕ)
      → Fed b.writer d
      → (b' : BufferedWriter W) × (flush_inner wr b ≡ done tt b')
        × Fed b'.writer d
        × Sent b'.writer d
        × (b'.buffer ≡ b.buffer)
        × (b'.capacity ≡ b.capacity)
  unfolding flush_inner
  flush_inner_lem b d fed =
      let (w', e, fed', sent) = flushing.flush_sends b.writer d fed in
      (record b { writer = w' }, rw e, fed', sent, refl, refl)

  -- A flush sends everything that was taken.
  pub buffered_flush_lem :
      (b : BufferedWriter W) (d : List ℕ)
      → BufferFed Fed b d
      → (b' : BufferedWriter W) × (buffered_flush wr b ≡ done tt b')
        × Fed b'.writer d
        × Sent b'.writer d
        × (b'.buffer ≡ [])
        × (b'.capacity ≡ b.capacity)
  unfolding buffered_flush
  buffered_flush_lem b d h = elim (is_empty-cases b.buffer) [
    | inl (e, empty) ↦
        let (b1, e1, fed1, sent1, kept, same) = flush_inner_lem b d (
          subst (Fed b.writer) (sym (append-nil h.sent) ∙ sym (ap (λ l. h.sent ++ l) empty) ∙ h.all)
            h.fed) in
        (b1, rw (e, e1), fed1, sent1, kept ∙ empty, same)
    | inr e ↦
        let (b1, e1, fed1, empty, same1) = drain_lem b d h in
        let (b2, e2, fed2, sent2, kept, same2) = flush_inner_lem b1 d fed1 in
        (b2, rw (e, e1, e2), fed2, sent2, kept ∙ empty, same2 ∙ same1)
  ]

  -- A buffered writer of a capacity that is not 0, over an inner writer that was fed `sent`, with the
  -- bytes of `d` after `sent` in its buffer: a write of `bs`, however long, and a flush succeed, and
  -- then the inner writer was fed `d` and `bs` and has actually written them, and the buffer is empty.
  pub buffered_flush-write_all :
      (write_zero : E) (b : BufferedWriter W) (d bs : List ℕ)
      → BufferFed Fed b d
      → (b' : BufferedWriter W) × ((write_all write_zero (buffered wr) bs >> buffered_flush wr) b
          ≡ done tt b')
        × Fed b'.writer (d ++ bs)
        × Sent b'.writer (d ++ bs)
        × (b'.buffer ≡ [])
  buffered_flush-write_all write_zero b d bs h =
      let (b1, e1, h1) =
        write_all_lem write_zero (buffered wr) (BufferFed Fed) buffered-IsProgressing bs b d h in
      let (b2, e2, fed2, sent2, empty, same) = buffered_flush_lem b1 (d ++ bs) h1 in
      (b2, rw (e1, e2), fed2, sent2, empty)

  -- A buffered writer keeps the contract of a writer.
  pub buffered-IsSink :
      (write_zero : E) → IsSink (std_writer write_zero (buffered wr)) (BufferFed Fed)
  buffered-IsSink write_zero = record {
    write_all = λ b d bs h.
        write_all_lem write_zero (buffered wr) (BufferFed Fed) buffered-IsProgressing bs b d h;
    flush_all = λ b d h.
        let (b1, e1, fed1, sent1, empty, same) = buffered_flush_lem b d h in
        (
          b1,
          e1,
          record {
            sent = d;
            fed = fed1;
            all = rw (empty, append-nil d);
            room = rw empty (omega arith);
            holds_some = rw same h.holds_some;
          },
        );
  }
