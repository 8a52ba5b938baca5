-- ===== src/Defaults/Encrypted.antt =====
-- `EncryptionWriter`: the inner writer is fed one encrypted stream, however it is buffered.
use protocraft_framework.Prelude.{
  ℕ, ◌-◌, ◌<◌, ◌≤◌, ◌≡◌, refl, ap, ◌∙◌, sym, List, [], ◌∷◌, ◌++◌, length, take, min, ne→==, ==_iff,
  inl, inr, append-nil, append_assoc, length-take, length-append, subst, arith,
}
use protocraft_framework.Error.{done, ◌>>◌}
use protocraft_framework.Traits.{Writer}
use protocraft_framework.Traits.Contract.{IsSink, IsFlushing}
use protocraft_framework.WithStd.{write_all}
use protocraft_framework.WithStd.Writes.{IsProgressing, write_all_lem}
use protocraft_framework.Defaults.{
  BufferedWriter, EncryptionWriter, extend, drain, flush_inner, encrypt_buffer, on_plain,
  encrypted_write, encrypted_flush, encrypted,
}
use protocraft_framework.Defaults.Buffered.{is_empty-cases}
use native.Mathlib.Decide.{ℕ_discrete}

-- A cipher of one-byte blocks that keeps its state from run to run: two runs in a row are one run
-- over both inputs.
pub record IsBlockMode {K : Type 0} (run : K → List ℕ → K × List ℕ) : Type 0 where
  pub none : (k : K) → run k [] ≡ (k, [])
  pub split :
      (k : K) (xs ys : List ℕ)
      → run k (xs ++ ys) ≡ ((run (run k xs).0 ys).0, (run k xs).1 ++ (run (run k xs).0 ys).1)

-- Of the bytes `d` that were taken since the encryptor was `k`, those of `sent` have reached the
-- inner writer, encrypted; before them it was fed `before`.
pub record EncryptFed {K W : Type 0} (Fed : W → List ℕ → Type 0)
    (encrypt_blocks : K → List ℕ → K × List ℕ) (k : K) (before : List ℕ) (e : EncryptionWriter K W)
    (d : List ℕ) : Type 0 where
  pub sent : List ℕ
  pub fed : Fed e.plain.writer (before ++ (encrypt_blocks k sent).1)
  pub key : e.encryptor ≡ (encrypt_blocks k sent).0
  pub all : sent ++ e.plain.buffer ≡ d
  pub room : length e.plain.buffer ≤ e.plain.capacity
  pub holds_some : 0 < e.plain.capacity

module _ {E W K : Type 0} (wr : Writer E W) (Fed : W → List ℕ → Type 0) (s : IsSink wr Fed)
    (Sent : W → List ℕ → Type 0) (flushing : IsFlushing wr Fed Sent)
    (encrypt_blocks : K → List ℕ → K × List ℕ) (mode : IsBlockMode encrypt_blocks) (k : K)
    (before : List ℕ) where
  abbrev Inv : EncryptionWriter K W → List ℕ → Type 0
  Inv = EncryptFed Fed encrypt_blocks k before

  drain_encrypted :
      (e : EncryptionWriter K W) (d : List ℕ)
      → Inv e d
      → (e' : EncryptionWriter K W) × (on_plain wr encrypt_blocks
            (drain wr)
            (encrypt_buffer wr encrypt_blocks e)
          ≡ done tt e')
        × Inv e' d
        × (e'.plain.buffer ≡ [])
        × (e'.plain.capacity ≡ e.plain.capacity)
  unfolding on_plain drain encrypt_buffer
  drain_encrypted e d h =
      let run = encrypt_blocks e.encryptor e.plain.buffer in
      let (w', e1, fed') =
        s.write_all e.plain.writer (before ++ (encrypt_blocks k h.sent).1) run.1 h.fed in
      let whole : encrypt_blocks k d ≡ (run.0, (encrypt_blocks k h.sent).1 ++ run.1) =
        rw (← h.all, mode.split k h.sent e.plain.buffer, h.key) in
      let output = ap (λ (p : K × List ℕ). p.1) whole in
      let plain' : BufferedWriter W = record {
        writer = w';
        buffer = [];
        capacity = e.plain.capacity;
      } in
      (
        record { encryptor = run.0; plain = plain' },
        rw e1,
        record {
          sent = d;
          fed =
              subst (Fed w')
                (append_assoc before (encrypt_blocks k h.sent).1 run.1
                  ∙ ap (λ l. before ++ l) (sym output))
                fed';
          key = sym (ap (λ (p : K × List ℕ). p.0) whole);
          all = append-nil d;
          room = omega arith;
          holds_some = h.holds_some;
        },
        refl,
        refl,
      )

  extend-EncryptFed :
      (e : EncryptionWriter K W) (d bs : List ℕ) (room : ℕ)
      → room ≡ e.plain.capacity - length e.plain.buffer
      → Inv e d
      → Inv (record e { plain = extend room bs e.plain }) (d ++ take (min room (length bs)) bs)
  extend-EncryptFed e d bs room same h =
      let some_bytes = take (min room (length bs)) bs in
      record {
        sent = h.sent;
        fed = h.fed;
        key = h.key;
        all = sym (append_assoc h.sent e.plain.buffer some_bytes) ∙ ap (λ l. l ++ some_bytes) h.all;
        room = omega (
          arith,
          h.room,
          length-append e.plain.buffer some_bytes,
          length-take (min room (length bs)) bs,
        );
        holds_some = h.holds_some;
      }

  pub encrypted-IsProgressing : IsProgressing (encrypted wr encrypt_blocks) Inv
  unfolding encrypted_write
  encrypted-IsProgressing = record {
    takes = λ e d x xs h. elim (ℕ_discrete (e.plain.capacity - length e.plain.buffer) 0) [
      | yes full ↦
          let (e1, run1, h1, empty, same) = drain_encrypted e d h in
          let zero_room = (==_iff (e.plain.capacity - length e.plain.buffer) 0).1 full in
          (
            min e1.plain.capacity (length (x ∷ xs)),
            record e1 { plain = extend e1.plain.capacity (x ∷ xs) e1.plain },
            rw (zero_room, run1),
            omega (arith, h1.holds_some),
            extend-EncryptFed e1 d (x ∷ xs) e1.plain.capacity (rw empty (omega arith)) h1,
          )
      | no space ↦
          let room = e.plain.capacity - length e.plain.buffer in
          (
            min room (length (x ∷ xs)),
            record e { plain = extend room (x ∷ xs) e.plain },
            rw (ne→== room 0 space),
            omega arith,
            extend-EncryptFed e d (x ∷ xs) room refl h,
          )
    ];
  }

  -- The inner writer has actually written all that was taken, encrypted.
  abbrev AllSent : EncryptionWriter K W → List ℕ → Type 0
  AllSent e d = Sent e.plain.writer (before ++ (encrypt_blocks k d).1)

  flush_inner_encrypted :
      (e : EncryptionWriter K W) (d : List ℕ)
      → Inv e d
      → e.plain.buffer ≡ []
      → (e' : EncryptionWriter K W) × (on_plain wr encrypt_blocks (flush_inner wr) e ≡ done tt e')
        × Inv e' d
        × AllSent e' d
        × (e'.plain.buffer ≡ [])
  unfolding on_plain flush_inner
  flush_inner_encrypted e d h empty =
      let (w', e1, fed', sent) =
        flushing.flush_sends e.plain.writer (before ++ (encrypt_blocks k h.sent).1) h.fed in
      let all_sent : h.sent ≡ d =
        sym (append-nil h.sent) ∙ sym (ap (λ l. h.sent ++ l) empty) ∙ h.all in
      (
        record e { plain = record e.plain { writer = w' } },
        rw e1,
        record {
          sent = h.sent;
          fed = fed';
          key = h.key;
          all = h.all;
          room = h.room;
          holds_some = h.holds_some;
        },
        subst (λ l. Sent w' (before ++ (encrypt_blocks k l).1)) all_sent sent,
        empty,
      )

  encrypted_flush_lem :
      (e : EncryptionWriter K W) (d : List ℕ)
      → Inv e d
      → (e' : EncryptionWriter K W) × (encrypted_flush wr encrypt_blocks e ≡ done tt e')
        × Inv e' d
        × AllSent e' d
        × (e'.plain.buffer ≡ [])
  unfolding encrypted_flush
  encrypted_flush_lem e d h = elim (is_empty-cases e.plain.buffer) [
    | inl (test, empty) ↦
        let (e1, run1, h1, sent1, empty1) = flush_inner_encrypted e d h empty in
        (e1, rw (test, run1), h1, sent1, empty1)
    | inr test ↦
        let (e1, run1, h1, empty1, same1) = drain_encrypted e d h in
        let (e2, run2, h2, sent2, empty2) = flush_inner_encrypted e1 d h1 empty1 in
        (e2, rw (test, run1, run2), h2, sent2, empty2)
  ]

  -- An encrypting writer of a capacity that is not 0, of which `d` was taken since its encryptor was
  -- `k` and its inner writer was fed `before`: for a cipher of one-byte blocks, a write of `bs`,
  -- however long, and a flush succeed, and then the inner writer was fed `before` and the encryption
  -- of `d` and `bs` by `k`, in one run, and has actually written them; the buffer is empty.
  pub encrypted_flush-write_all :
      (write_zero : E) (e : EncryptionWriter K W) (d bs : List ℕ)
      → EncryptFed Fed encrypt_blocks k before e d
      → (e' : EncryptionWriter K W) × ((write_all write_zero (encrypted wr encrypt_blocks) bs
              >> encrypted_flush wr encrypt_blocks)
            e
          ≡ done tt e')
        × Fed e'.plain.writer (before ++ (encrypt_blocks k (d ++ bs)).1)
        × Sent e'.plain.writer (before ++ (encrypt_blocks k (d ++ bs)).1)
        × (e'.plain.buffer ≡ [])
  encrypted_flush-write_all write_zero e d bs h =
      let (e1, run1, h1) =
        write_all_lem write_zero (encrypted wr encrypt_blocks) Inv encrypted-IsProgressing bs e d
          h in
      let (e2, run2, h2, sent2, empty) = encrypted_flush_lem e1 (d ++ bs) h1 in
      let all_sent : h2.sent ≡ d ++ bs =
        sym (append-nil h2.sent) ∙ sym (ap (λ l. h2.sent ++ l) empty) ∙ h2.all in
      (
        e2,
        rw (run1, run2),
        subst (λ l. Fed e2.plain.writer (before ++ (encrypt_blocks k l).1)) all_sent h2.fed,
        sent2,
        empty,
      )
