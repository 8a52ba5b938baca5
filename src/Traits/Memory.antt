-- ===== src/Traits/Memory.antt =====
-- Streams in memory that keep the contracts: a slice of bytes as a reader, as src/with_std.rs makes
-- one of any `std::io::Read`, and a growing vector as a writer.
use protocraft_framework.Prelude.{
  ℕ, ◌-◌, ◌≡◌, refl, sym, ap, ◌∙◌, append_assoc, append-nil, List, [], ◌∷◌, ◌++◌, length, take,
  drop, take-append, drop-append, leb, if◌then◌else◌, Option, none, some, true, false, arith,
  length-append,
}
use protocraft_framework.Error.{Action, done, fail}
use protocraft_framework.Traits.{Reader, Writer, BoundedReader}
use protocraft_framework.Traits.Contract.{IsSource, IsFinite, HasArrived, IsSink, IsFlushing}

pub data IoError : Type 0 where
  unexpected_eof : IoError

abbrev pub slice_read_exact : ℕ → Action (List ℕ) IoError (List ℕ)
slice_read_exact n bs =
    if leb n (length bs) then done (take n bs) (drop n bs) else fail unexpected_eof []

abbrev pub slice_discard : ℕ → Action (List ℕ) IoError (Unit {0})
slice_discard n bs = if leb n (length bs) then done tt (drop n bs) else fail unexpected_eof []

-- A read that does not block, on a connection that stays open.
abbrev pub slice_try_read_byte : Action (List ℕ) IoError (Option ℕ)
slice_try_read_byte [] = done none []
slice_try_read_byte (b ∷ bs) = done (some b) bs

abbrev pub slice : Reader IoError (List ℕ)
slice = record {
  read_exact = slice_read_exact;
  try_read_byte = slice_try_read_byte;
  discard = slice_discard;
}

abbrev pub Spells : List ℕ → List ℕ → Type 0
Spells r bs = r ≡ bs

pub within : (bs rest : List ℕ) → leb (length bs) (length (bs ++ rest)) ≡ true
within bs rest = ground (arith, length-append bs rest)

pub slice-IsSource : IsSource slice Spells
slice-IsSource = record {
  read_all =
      λ r bs rest h. (rest, rw (h, within bs rest, take-append bs rest, drop-append bs rest), refl);
  discard_all = λ r bs rest h. (rest, rw (h, within bs rest, drop-append bs rest), refl);
}

pub slice-IsFinite : IsFinite slice Spells
slice-IsFinite = record {
  read_short = λ r n bs h short.
      (unexpected_eof, [], let beyond : leb n (length bs) ≡ false = ground arith in rw (h, beyond));
}

pub slice-HasArrived : HasArrived slice Spells
slice-HasArrived = record {
  try_some = λ r b rest h. (rest, rw h, refl);
  try_none = λ r h. ([], rw h, refl);
}

-- `std::io::Take` over a slice.
pub record Take : Type 0 where
  pub limit : ℕ
  pub inner : List ℕ

abbrev pub take_read_exact : ℕ → Action Take IoError (List ℕ)
take_read_exact n r =
    if leb n r.limit
    then (let o = slice_read_exact n r.inner in
        record { result = o.result; state = record { limit = r.limit - n; inner = o.state } })
    else fail unexpected_eof (record { limit = 0; inner = drop r.limit r.inner })

abbrev pub take_discard : ℕ → Action Take IoError (Unit {0})
take_discard n r =
    if leb n r.limit
    then (let o = slice_discard n r.inner in
        record { result = o.result; state = record { limit = r.limit - n; inner = o.state } })
    else fail unexpected_eof (record { limit = 0; inner = drop r.limit r.inner })

abbrev pub take_try_read_byte : Action Take IoError (Option ℕ)
take_try_read_byte r =
    if leb 1 r.limit
    then (let o = slice_try_read_byte r.inner in
        record { result = o.result; state = record { limit = r.limit - 1; inner = o.state } })
    else fail unexpected_eof r

abbrev pub bounded_slice : BoundedReader IoError Take
bounded_slice = record {
  reader = record {
    read_exact = take_read_exact;
    try_read_byte = take_try_read_byte;
    discard = take_discard;
  };
  remaining = λ r. r.limit;
}

-- `Vec<u8>` as a writer.
abbrev pub vec : Writer IoError (List ℕ)
vec = record { write = λ bs w. done tt (w ++ bs); flush = λ w. done tt w }

pub vec-IsSink : IsSink vec Spells
vec-IsSink = record {
  write_all = λ w d bs h. (w ++ bs, refl, rw h);
  flush_all = λ w d h. (w, refl, h);
}

-- A writer that holds back what it takes until it is flushed.
pub record Outbox : Type 0 where
  pub sent : List ℕ
  pub pending : List ℕ

abbrev pub outbox : Writer IoError Outbox
outbox = record {
  write = λ bs w. done tt (record w { pending = w.pending ++ bs });
  flush = λ w. done tt (record { sent = w.sent ++ w.pending; pending = [] });
}

abbrev pub HasTaken : Outbox → List ℕ → Type 0
HasTaken w d = w.sent ++ w.pending ≡ d

abbrev pub HasSent : Outbox → List ℕ → Type 0
HasSent w d = w ≡ record { sent = d; pending = [] }

pub taken-append :
    (w : Outbox) (d bs : List ℕ) → HasTaken w d → w.sent ++ (w.pending ++ bs) ≡ d ++ bs
taken-append w d bs h = sym (append_assoc w.sent w.pending bs) ∙ ap (λ l. l ++ bs) h

pub outbox-IsSink : IsSink outbox HasTaken
outbox-IsSink = record {
  write_all = λ w d bs h. (record w { pending = w.pending ++ bs }, refl, taken-append w d bs h);
  flush_all = λ w d h. (
    record { sent = w.sent ++ w.pending; pending = [] },
    refl,
    append-nil (w.sent ++ w.pending) ∙ h,
  );
}

pub outbox-IsFlushing : IsFlushing outbox HasTaken HasSent
outbox-IsFlushing = record {
  flush_sends = λ w d h. (
    record { sent = w.sent ++ w.pending; pending = [] },
    refl,
    append-nil (w.sent ++ w.pending) ∙ h,
    ap (λ (x : List ℕ). record { sent = x; pending = [] }) h,
  );
}
