-- ===== src/Traits/Contract.antt =====
-- What src/traits.rs documents of a `Reader` and a `Writer`, and what it means for an operation to
-- read or to write given bytes on every stream that keeps this contract.
use protocraft_framework.Prelude.{ℕ, List, [], ◌∷◌, ◌++◌, ◌≡◌, refl, sym, ◌<◌, length}
use protocraft_framework.Prelude.{append_assoc, append-nil, Option, some, none, subst}
use protocraft_framework.Error.{
  Result, ok, err, throw, Action, done, fail, pure, ◌>>=◌, ◌>>◌, map_err,
}
use protocraft_framework.Error.{Result, ok, err, throw, ReadError, WriteError}
use protocraft_framework.Traits.{Reader, Writer}

-- `Holds r bs`: the reader `r` is about to yield `bs`. It fills a buffer that these bytes fill.
pub record IsSource {E R : Type 0} (io : Reader E R) (Holds : R → List ℕ → Type 0) : Type 0 where
  pub read_all :
      (r : R) (bs rest : List ℕ)
      → Holds r (bs ++ rest)
      → (r' : R) × (io.read_exact (length bs) r ≡ done bs r') × Holds r' rest
  pub discard_all :
      (r : R) (bs rest : List ℕ)
      → Holds r (bs ++ rest)
      → (r' : R) × (io.discard (length bs) r ≡ done tt r') × Holds r' rest

-- A reader that has no more than `bs` refuses to fill a longer buffer.
pub record IsFinite {E R : Type 0} (io : Reader E R) (Holds : R → List ℕ → Type 0) : Type 0 where
  pub read_short :
      (r : R) (n : ℕ) (bs : List ℕ)
      → Holds r bs
      → length bs < n
      → (e : E) × (r' : R) × (io.read_exact n r ≡ fail e r')

-- All that the peer has sent has arrived: a read that does not block gives the next byte, or
-- `None` where nothing is left.
pub record HasArrived {E R : Type 0} (io : Reader E R) (Holds : R → List ℕ → Type 0) : Type 0 where
  pub try_some :
      (r : R) (b : ℕ) (rest : List ℕ)
      → Holds r (b ∷ rest)
      → (r' : R) × (io.try_read_byte r ≡ done (some b) r') × Holds r' rest
  pub try_none : (r : R) → Holds r [] → (r' : R) × (io.try_read_byte r ≡ done none r') × Holds r' []

-- `Fed w d`: the writer `w` has taken the bytes `d`.
pub record IsSink {E W : Type 0} (wr : Writer E W) (Fed : W → List ℕ → Type 0) : Type 0 where
  pub write_all :
      (w : W) (d bs : List ℕ) → Fed w d → (w' : W) × (wr.write bs w ≡ done tt w') × Fed w' (d ++ bs)
  pub flush_all : (w : W) (d : List ℕ) → Fed w d → (w' : W) × (wr.flush w ≡ done tt w') × Fed w' d

-- `Sent w d`: the bytes `d` are "actually written", and none is held back. A flush sends all that the
-- writer has taken.
pub record IsFlushing {E W : Type 0} (wr : Writer E W) (Fed Sent : W → List ℕ → Type 0)
    : Type 0 where
  pub flush_sends :
      (w : W) (d : List ℕ) → Fed w d → (w' : W) × (wr.flush w ≡ done tt w') × Fed w' d × Sent w' d

-- `m` reads exactly `bs`, whatever follows, and ends with the result `res`.
abbrev pub Yields :
    {R E A : Type 0} → (R → List ℕ → Type 0) → Action R E A → List ℕ → Result E A → Type 0
Yields {R} Holds m bs res =
    (r : R) (rest : List ℕ)
    → Holds r (bs ++ rest)
    → (r' : R) × (m r ≡ record { result = res; state = r' }) × Holds r' rest

-- `m` reads exactly `bs` and returns `a`.
abbrev pub Reads : {R E A : Type 0} → (R → List ℕ → Type 0) → Action R E A → List ℕ → A → Type 0
Reads Holds m bs a = Yields Holds m bs (ok a)

-- `m` writes exactly `bs`.
abbrev pub Writes : {W E : Type 0} → (W → List ℕ → Type 0) → Action W E (Unit {0}) → List ℕ → Type 0
Writes {W} Fed m bs =
    (w : W) (d : List ℕ) → Fed w d → (w' : W) × (m w ≡ done tt w') × Fed w' (d ++ bs)

module _ {R E : Type 0} (Holds : R → List ℕ → Type 0) where
  pub Reads-pure : {A : Type 0} (a : A) → Reads {E = E} Holds (pure a) [] a
  Reads-pure a r rest h = (r, refl, h)

  pub Reads->>= :
      {A B : Type 0} (m : Action R E A) (k : A → Action R E B) (xs ys : List ℕ) (a : A)
      (res : Result E B)
      → Reads Holds m xs a
      → Yields Holds (k a) ys res
      → Yields Holds (m >>= k) (xs ++ ys) res
  Reads->>= m k xs ys a res hm hk r rest h =
      let (r1, e1, h1) = hm r (ys ++ rest) (subst (Holds r) (append_assoc xs ys rest) h) in
      let (r2, e2, h2) = hk r1 rest h1 in (r2, rw e1 e2, h2)

  pub Yields-throw : {A : Type 0} (e : E) → Yields {A = A} Holds (throw e) [] (err e)
  Yields-throw e r rest h = (r, refl, h)

  -- The same where what follows reads nothing.
  pub Reads-then :
      {A B : Type 0} (m : Action R E A) (k : A → Action R E B) (xs : List ℕ) (a : A)
      (res : Result E B)
      → Reads Holds m xs a
      → Yields Holds (k a) [] res
      → Yields Holds (m >>= k) xs res
  Reads-then m k xs a res hm hk r rest h =
      let (r1, e1, h1) = hm r rest h in let (r2, e2, h2) = hk r1 rest h1 in (r2, rw e1 e2, h2)

  pub Reads-then_pure :
      {A B : Type 0} (m : Action R E A) (f : A → B) (xs : List ℕ) (a : A) (b : B)
      → Reads Holds m xs a
      → f a ≡ b
      → Reads Holds (m >>= λ x. pure (f x)) xs b
  Reads-then_pure m f xs a b hm e r rest h = let (r1, e1, h1) = hm r rest h in (r1, rw (e1, e), h1)

module _ {W E : Type 0} (Fed : W → List ℕ → Type 0) where
  pub Writes-pure : Writes {E = E} Fed (pure tt) []
  Writes-pure w d h = (w, refl, subst (Fed w) (sym (append-nil d)) h)

  pub Writes->> :
      (m k : Action W E (Unit {0})) (xs ys : List ℕ)
      → Writes Fed m xs
      → Writes Fed k ys
      → Writes Fed (m >> k) (xs ++ ys)
  Writes->> m k xs ys hm hk w d h =
      let (w1, e1, h1) = hm w d h in
      let (w2, e2, h2) = hk w1 (d ++ xs) h1 in
      (w2, rw e1 e2, subst (Fed w2) (append_assoc d xs ys) h2)

-- `reader.read_exact(&mut buf).map_err(ReadError::StreamError)?`
module _ {E R : Type 0} (io : Reader E R) where
  abbrev pub read_bytes : ℕ → Action R (ReadError E) (List ℕ)
  read_bytes n r = map_err ReadError.stream_error (io.read_exact n r)

  abbrev pub try_read_byte : Action R (ReadError E) (Option ℕ)
  try_read_byte r = map_err ReadError.stream_error (io.try_read_byte r)

  pub Reads-read_bytes :
      (Holds : R → List ℕ → Type 0) (n : ℕ) (bs : List ℕ)
      → IsSource io Holds
      → length bs ≡ n
      → Reads Holds (read_bytes n) bs bs
  Reads-read_bytes Holds n bs s len r rest h =
      let (r', e, h') = s.read_all r bs rest h in (r', rw (← len, e), h')

-- `writer.write(bytes).map_err(WriteError::StreamError)?`
module _ {E W : Type 0} (wr : Writer E W) where
  abbrev pub write_bytes : List ℕ → Action W (WriteError E) (Unit {0})
  write_bytes bs w = map_err WriteError.stream_error (wr.write bs w)

  pub Writes-write_bytes :
      (Fed : W → List ℕ → Type 0) (bs : List ℕ) → IsSink wr Fed → Writes Fed (write_bytes bs) bs
  Writes-write_bytes Fed bs s w d h = let (w', e, h') = s.write_all w d bs h in (w', rw e, h')
