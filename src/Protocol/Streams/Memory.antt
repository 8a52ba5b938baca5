-- ===== src/Protocol/Streams/Memory.antt =====
-- A provider in memory that keeps the contracts of src/traits.rs: it shows that they can be met.
-- Its "ZLib stream" of some data is the data and a trailer, which the decompressing reader leaves in
-- the bounded reader.
use protocraft_framework.Prelude.{
  ℕ, ◌-◌, ◌≤◌, ◌≡◌, refl, sym, ap, ◌∙◌, List, ◌++◌, length, take, drop, take-append, drop-append,
  append_assoc, leb, true, arith, length-append,
}
use protocraft_framework.Error.{Action, done}
use protocraft_framework.Traits.Memory.{
  IoError, slice, bounded_slice, Take, Spells, slice-IsSource, take_read_exact, take_discard,
  within,
}
use protocraft_framework.Protocol.Streams.{ReadStream}
use protocraft_framework.Protocol.Streams.Contract.{IsReadStream, IsBounded}

-- A reader of decoded data, over a bounded reader.
pub record Decoder : Type 0 where
  pub decoded : List ℕ
  pub outer : Take

pub record BoundedDecoder : Type 0 where
  pub data_take : Take
  pub outer_take : Take

abbrev on_decoded : {A : Type 0} → Action (List ℕ) IoError A → Action Decoder IoError A
on_decoded m r =
    let o = m r.decoded in record { result = o.result; state = record r { decoded = o.state } }

abbrev on_data : {A : Type 0} → Action Take IoError A → Action BoundedDecoder IoError A
on_data m r =
    let o = m r.data_take in record { result = o.result; state = record r { data_take = o.state } }

-- `n` bytes of data, of the bounded reader `b`: the rest of its bound is the trailer.
abbrev decode : List ℕ → Take → Decoder
decode trailer b =
    let n = b.limit - length trailer in
    record {
      decoded = take n b.inner;
      outer = record { limit = length trailer; inner = drop n b.inner };
    }

abbrev pub memory_read_stream : List ℕ → ReadStream
memory_read_stream trailer = record {
  Error = IoError;
  Base = List ℕ;
  Bounded = Take;
  Decompress = Decoder;
  Inner = BoundedDecoder;
  base = slice;
  bounded = bounded_slice;
  decompress = record {
    read_exact = λ n. on_decoded (slice.read_exact n);
    try_read_byte = on_decoded slice.try_read_byte;
    discard = λ n. on_decoded (slice.discard n);
  };
  inner = record {
    reader = record {
      read_exact = λ n. on_data (bounded_slice.reader.read_exact n);
      try_read_byte = on_data bounded_slice.reader.try_read_byte;
      discard = λ n. on_data (bounded_slice.reader.discard n);
    };
    remaining = λ r. r.data_take.limit;
  };
  with_bound = λ n r. record { limit = n; inner = r };
  end_bound = λ r. r.inner;
  with_decompression = decode trailer;
  end_decompression = λ r. r.outer;
  with_inner_bound =
      λ n r. record { data_take = record { limit = n; inner = r.decoded }; outer_take = r.outer };
  end_inner_bound = λ r. record { decoded = r.data_take.inner; outer = r.outer_take };
}

abbrev pub TakeSpells : Take → ℕ → List ℕ → Type 0
TakeSpells r n bs = r ≡ record { limit = n; inner = bs }

take_read_within :
    (n : ℕ) (bs rest : List ℕ)
    → length bs ≤ n
    → take_read_exact (length bs) (record { limit = n; inner = bs ++ rest })
      ≡ done bs (record { limit = n - length bs; inner = rest })
take_read_within n bs rest h =
    let in_bound : leb (length bs) n ≡ true = ground arith in
    rw (in_bound, within bs rest, take-append bs rest, drop-append bs rest)

take_discard_within :
    (n : ℕ) (bs rest : List ℕ)
    → length bs ≤ n
    → take_discard (length bs) (record { limit = n; inner = bs ++ rest })
      ≡ done tt (record { limit = n - length bs; inner = rest })
take_discard_within n bs rest h =
    let in_bound : leb (length bs) n ≡ true = ground arith in
    rw (in_bound, within bs rest, drop-append bs rest)

pub bounded_slice-IsBounded : IsBounded bounded_slice TakeSpells
bounded_slice-IsBounded = record {
  read_within = λ r n bs rest h room. (
    record { limit = n - length bs; inner = rest },
    ap (take_read_exact (length bs)) h ∙ take_read_within n bs rest room,
    refl,
  );
  discard_within = λ r n bs rest h room. (
    record { limit = n - length bs; inner = rest },
    ap (take_discard (length bs)) h ∙ take_discard_within n bs rest room,
    refl,
  );
  remaining_lem = λ r n bs h. ap (λ (x : Take). x.limit) h;
}

module _ (trailer : List ℕ) where
  abbrev outer_after : List ℕ → Take
  outer_after after = record { limit = length trailer; inner = trailer ++ after }

  abbrev ZLib : List ℕ → List ℕ → Type 0
  ZLib z d = z ≡ d ++ trailer

  abbrev DecoderSpells : Decoder → List ℕ → List ℕ → List ℕ → Type 0
  DecoderSpells r z d after =
      (r ≡ record { decoded = d; outer = outer_after after }) × ((whole : List ℕ) × ZLib z whole)

  abbrev inner_at : List ℕ → ℕ → List ℕ → BoundedDecoder
  inner_at after n d = record {
    data_take = record { limit = n; inner = d };
    outer_take = outer_after after;
  }

  abbrev InnerSpells : BoundedDecoder → List ℕ → List ℕ → ℕ → List ℕ → Type 0
  InnerSpells r z after n d = (r ≡ inner_at after n d) × ((whole : List ℕ) × ZLib z whole)

  pub inner-IsBounded :
      (z after : List ℕ)
      → IsBounded (memory_read_stream trailer).inner (λ r n bs. InnerSpells r z after n bs)
  inner-IsBounded z after = record {
    read_within = λ r n bs rest h room. (
      inner_at after (n - length bs) rest,
      ap (on_data (take_read_exact (length bs))) h.0 ∙ rw (take_read_within n bs rest room),
      (refl, h.1),
    );
    discard_within = λ r n bs rest h room. (
      inner_at after (n - length bs) rest,
      ap (on_data (take_discard (length bs))) h.0 ∙ rw (take_discard_within n bs rest room),
      (refl, h.1),
    );
    remaining_lem = λ r n bs h. ap (λ (x : BoundedDecoder). x.data_take.limit) h.0;
  }

  pub decode_lem :
      (d after : List ℕ)
      → decode trailer (record { limit = length (d ++ trailer); inner = (d ++ trailer) ++ after })
        ≡ record { decoded = d; outer = outer_after after }
  decode_lem d after =
      let data_only : length (d ++ trailer) - length trailer ≡ length d =
        omega (arith, length-append d trailer) in
      rw (data_only, append_assoc, take-append, drop-append)

  abbrev pub memory-IsReadStream : IsReadStream (memory_read_stream trailer)
  memory-IsReadStream = record {
    Holds = Spells;
    BoundedHolds = TakeSpells;
    DecompressHolds = DecoderSpells;
    InnerHolds = InnerSpells;
    Inflates = ZLib;
    base_source = slice-IsSource;
    bounded_lem = bounded_slice-IsBounded;
    inner_lem = inner-IsBounded;
    with_bound_lem = λ n r bs h. ap (λ (x : List ℕ). record { limit = n; inner = x }) h;
    end_bound_lem = λ r n bs h. ap (λ (x : Take). x.inner) h;
    with_decompression_lem = λ r z d after e h. (
      ap (decode trailer)
            (h ∙ ap (λ (x : List ℕ). record { limit = length x; inner = x ++ after }) e)
          ∙ decode_lem d after,
      (d, e),
    );
    end_decompression_lem =
        λ r z after h. (h.1.0, trailer, sym h.1.1, ap (λ (x : Decoder). x.outer) h.0);
    with_inner_bound_lem =
        λ n r z d after h. (ap ((memory_read_stream trailer).with_inner_bound n) h.0, h.1);
    end_inner_bound_lem =
        λ r n z d after h. (ap (memory_read_stream trailer).end_inner_bound h.0, h.1);
  }
