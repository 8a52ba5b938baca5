-- ===== src/Primatives/Compound/RoundTrip.antt =====
-- What a compound value is written as is read back, and takes as many bytes as its `size`.
use protocraft_framework.Prelude.{
  zero, suc, [], ◌∷◌, ◌↔◌, ◌<◌, Bool, none, some, true, false, refl, ℕ, ◌+◌, ◌≡◌, List, ◌++◌,
  length, All, Option, length-append, arith,
}
use protocraft_framework.Error.{done, fail, Out, Result, ok, err, ReadError}
use protocraft_framework.Traits.{Reader, Writer, FromReader, ToWriter, Serializable}
use protocraft_framework.Traits.Contract.{IsSource, IsSink, Reads->>=, Reads-then_pure, Writes->>}
use protocraft_framework.Primatives.Compound.{
  read_option, write_option, option_size, read_array, read_slots, assign_item, drop_uninit,
  drop_slots, write_slice, slice_size, read_pair, write_pair, pair_size,
}
use protocraft_framework.Primatives.Compound.Codec.{
  IsCodec, ValidOption, option_bytes, option-IsCodec, slice_bytes, read_slots_lem,
  Writes-write_slice, slice_size_lem,
}

module _ {E F R W : Type 0} (io : Reader E R) (Holds : R → List ℕ → Type 0)
    (source : IsSource io Holds) (wr : Writer F W) (Fed : W → List ℕ → Type 0)
    (sink : IsSink wr Fed) where
  module _ {A : Type 0} (r : FromReader A) (t : ToWriter A) (size : Serializable A)
      (Valid : A → Type 0) (spell : A → List ℕ) (c : IsCodec r t size Valid spell) where
    -- For a type that reads what it writes and knows its size: an `Option` of it is written as a byte
    -- 0, or as a byte 1 and the bytes of its value, as many as its `size`; a reader that yields these
    -- bytes and then `rest` returns the `Option` and is left at `rest`.
    pub read_option-write_option :
        (o : Option A) (q : R) (rest : List ℕ) (w : W) (d : List ℕ)
        → ValidOption r t size Valid spell c o
        → Holds q (option_bytes r t size Valid spell c o ++ rest)
        → Fed w d
        → (q' : R) × (w' : W) × (write_option r t size wr o w ≡ done tt w')
          × Fed w' (d ++ option_bytes r t size Valid spell c o)
          × (option_size r t size o ≡ length (option_bytes r t size Valid spell c o))
          × (read_option r t size io q ≡ done o q')
          × Holds q' rest
    read_option-write_option o q rest w d valid holds fed =
        let codec = option-IsCodec r t size Valid spell c in
        let (w', e, fed') = codec.writes wr Fed sink o valid w d fed in
        let (q', e', holds') = codec.reads io Holds source o valid q rest holds in
        (q', w', e, fed', codec.size_lem o valid, e', holds')

    -- For a type that reads what it writes, knows its size and needs no drop: an array of its values
    -- is written as the bytes of one after the other, as many as its `size`; a reader that yields
    -- these bytes and then `rest` returns the array of the same length, with no drop that is
    -- undefined behaviour, and is left at `rest`.
    pub read_array-write_slice :
        (items : List A) (q : R) (rest : List ℕ) (w : W) (d : List ℕ)
        → All Valid items
        → Holds q (slice_bytes r t size Valid spell c items ++ rest)
        → Fed w d
        → (q' : R) × (w' : W) × (write_slice r t size wr items w ≡ done tt w')
          × Fed w' (d ++ slice_bytes r t size Valid spell c items)
          × (slice_size r t size 0 items ≡ length (slice_bytes r t size Valid spell c items))
          × (read_array r t size false (length items) io q ≡ some (done items q'))
          × Holds q' rest
    unfolding read_array
    read_array-write_slice items q rest w d valid holds fed =
        let (w', e, fed') =
          Writes-write_slice r t size Valid spell c wr Fed sink items valid w d fed in
        let (q', e', holds') =
          read_slots_lem r t size Valid spell c io Holds source items [] q rest valid holds in
        (q', w', e, fed', total, e', holds')
      where
        total : slice_size r t size 0 items ≡ length (slice_bytes r t size Valid spell c items)
        total = omega (arith, slice_size_lem r t size Valid spell c 0 items valid)

  module _ {A B : Type 0} (r1 : FromReader A) (t1 : ToWriter A) (s1 : Serializable A)
      (r2 : FromReader B) (t2 : ToWriter B) (s2 : Serializable B) (Valid1 : A → Type 0)
      (Valid2 : B → Type 0) (spell1 : A → List ℕ) (spell2 : B → List ℕ)
      (c1 : IsCodec r1 t1 s1 Valid1 spell1) (c2 : IsCodec r2 t2 s2 Valid2 spell2) where
    -- For two types that read what they write and know their size: a pair is written as the bytes
    -- of its first and of its second part, as many as its `size`; a reader that yields these bytes
    -- and then `rest` returns the pair and is left at `rest`.
    pub read_pair-write_pair :
        (a : A) (b : B) (q : R) (rest : List ℕ) (w : W) (d : List ℕ)
        → Valid1 a
        → Valid2 b
        → Holds q ((spell1 a ++ spell2 b) ++ rest)
        → Fed w d
        → (q' : R) × (w' : W) × (write_pair r1 t1 s1 r2 t2 s2 wr (a, b) w ≡ done tt w')
          × Fed w' (d ++ (spell1 a ++ spell2 b))
          × (pair_size r1 t1 s1 r2 t2 s2 (a, b) ≡ length (spell1 a ++ spell2 b))
          × (read_pair r1 t1 s1 r2 t2 s2 io q ≡ done (a, b) q')
          × Holds q' rest
    unfolding read_pair write_pair pair_size
    read_pair-write_pair a b q rest w d va vb holds fed =
        let (w', e, fed') =
          Writes->> Fed (t1.to_writer wr a) (t2.to_writer wr b) (spell1 a) (spell2 b)
            (c1.writes wr Fed sink a va) (c2.writes wr Fed sink b vb) w d fed in
        let (q', e', holds') =
          Reads->>= Holds (r1.from_reader io) _ (spell1 a) (spell2 b) a _
            (c1.reads io Holds source a va)
            (Reads-then_pure Holds (r2.from_reader io) (λ y. (a, y)) (spell2 b) b (a, b)
              (c2.reads io Holds source b vb) refl)
            q rest holds in
        (q', w', e, fed', total, e', holds')
      where
        total : s1.size a + s2.size b ≡ length (spell1 a ++ spell2 b)
        total =
            omega (arith, c1.size_lem a va, c2.size_lem b vb, length-append (spell1 a) (spell2 b))

assign_item-needs_drop :
    {A E R : Type 0} (r : FromReader A) (t : ToWriter A) (size : Serializable A) (n : ℕ)
    (item : Result (ReadError E) A) (q : R) (next : A → R → Option (Out R (ReadError E) (List A)))
    → assign_item r t size true n item q next ≡ none
unfolding assign_item drop_uninit
assign_item-needs_drop r t size n (ok a) q next = refl
assign_item-needs_drop r t size n (err e) q next = refl

drop_slots-no_drop :
    {X : Type 0} (left : ℕ) (after : Option X) → drop_slots false left after ≡ after
unfolding drop_slots drop_uninit
drop_slots-no_drop zero after = refl
drop_slots-no_drop (suc left) after = drop_slots-no_drop left after

module _ {A E R : Type 0} (r : FromReader A) (t : ToWriter A) (size : Serializable A) where
  assign_item-no_drop :
      (left : ℕ) (item : Result (ReadError E) A) (q : R)
      (next : A → R → Option (Out R (ReadError E) (List A)))
      → ((a : A) (q' : R) → (o : Out R (ReadError E) (List A)) × (next a q' ≡ some o))
      → (o : Out R (ReadError E) (List A)) × (assign_item r t size false left item q next ≡ some o)
  unfolding assign_item drop_uninit
  assign_item-no_drop left (ok a) q next h = h a q
  assign_item-no_drop left (err e) q next h = (fail e q, drop_slots-no_drop left (some (fail e q)))

  read_slots-no_drop :
      (io : Reader E R) (n : ℕ) (before : List A) (q : R)
      → (o : Out R (ReadError E) (List A)) × (read_slots r t size false n before io q ≡ some o)
  unfolding read_slots
  read_slots-no_drop io zero before q = (done before q, refl)
  read_slots-no_drop io (suc left) before q =
      let o = r.from_reader io q in
      assign_item-no_drop left o.result o.state _
        (λ a q'. read_slots-no_drop io left (before ++ (a ∷ [])) q')

  -- Reading an array drops a slot that was never initialised, which is undefined behaviour, just when
  -- its type needs a drop and it has an item, for every reader, whether the items are read or one
  -- fails to be.
  pub read_array-none_iff :
      (io : Reader E R) (needs_drop : Bool) (n : ℕ) (q : R)
      → (read_array r t size needs_drop n io q ≡ none) ↔ ((needs_drop ≡ true) × (0 < n))
  unfolding read_array read_slots
  read_array-none_iff io true zero q = (λ e. cc, λ h. ground (arith, h.1))
  read_array-none_iff io true (suc n) q =
      let o = r.from_reader io q in
      (λ e. (refl, omega arith), λ h. assign_item-needs_drop r t size n o.result o.state _)
  read_array-none_iff io false n q =
      let (o, e) = read_slots-no_drop io n [] q in (λ e'. cc, λ h. cc)
