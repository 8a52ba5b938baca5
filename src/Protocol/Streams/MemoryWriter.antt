-- ===== src/Protocol/Streams/MemoryWriter.antt =====
-- The writers of the provider in memory, over a writer that holds bytes back until it is flushed.
-- What they make of some data is the data and a trailer.
use protocraft_framework.Prelude.{ℕ, ◌≡◌, refl, sym, ap, ◌∙◌, List, [], ◌++◌, length}
use protocraft_framework.Error.{Out, done}
use protocraft_framework.Traits.Memory.{
  IoError, Outbox, outbox, HasTaken, HasSent, outbox-IsSink, outbox-IsFlushing, taken-append,
}
use protocraft_framework.Protocol.Streams.{WriteStream}
use protocraft_framework.Protocol.Streams.Contract.{IsWriteStream}

-- A pre-compression writer keeps what it is fed beside its parent; the payload is the stream.
pub record PreWriter : Type 0 where
  pub parent : Outbox
  pub fed : List ℕ

abbrev pub memory_write_stream : List ℕ → WriteStream
memory_write_stream trailer = record {
  Error = IoError;
  Base = Outbox;
  Pre = PreWriter;
  Compress = Outbox;
  Payload = List ℕ;
  Level = ℕ;
  base = outbox;
  pre = record { write = λ bs w. done tt (record w { fed = w.fed ++ bs }); flush = λ w. done tt w };
  compress = record { write = λ bs w. done tt w; flush = λ w. outbox.flush w };
  pre_compression_writer = λ level w. record { parent = w; fed = [] };
  finish = λ p. done (length (p.fed ++ trailer), p.fed ++ trailer) p.parent;
  drop_pre = λ p. p.parent;
  with_compression = λ level w. w;
  initialize = λ z w. outbox.write z w;
  end_compression = λ w. w;
}

module _ (trailer : List ℕ) where
  abbrev PreTaken : PreWriter → List ℕ → List ℕ → Type 0
  PreTaken w d bs = HasTaken w.parent d × (w.fed ≡ bs)

  pub flushed_pre :
      (w w' : PreWriter) → (memory_write_stream trailer).pre.flush w ≡ done tt w' → w ≡ w'
  flushed_pre w w' e = ap (λ (o : Out PreWriter IoError (Unit {0})). o.state) e

  pub finish_lem :
      (w w' : PreWriter) (d bs : List ℕ)
      → PreTaken w d bs
      → (memory_write_stream trailer).pre.flush w ≡ done tt w'
      → PreTaken w' d bs
  finish_lem w w' d bs h e =
      let same = flushed_pre w w' e in
      (
        sym (ap (λ (x : PreWriter). x.parent.sent ++ x.parent.pending) same) ∙ h.0,
        sym (ap (λ (x : PreWriter). x.fed) same) ∙ h.1,
      )

  abbrev pub memory-IsWriteStream : IsWriteStream (memory_write_stream trailer)
  memory-IsWriteStream = record {
    Fed = HasTaken;
    Sent = HasSent;
    PreFed = PreTaken;
    CompressFed = λ w d z bs. HasTaken w (d ++ z);
    Deflated = λ p d z. p ≡ z;
    Deflates = λ d z. z ≡ d ++ trailer;
    base_sink = outbox-IsSink;
    base_flushing = outbox-IsFlushing;
    pre_sink = λ d. record {
      write_all = λ w x bs h. (record w { fed = w.fed ++ bs }, refl, (h.0, ap (λ l. l ++ bs) h.1));
      flush_all = λ w x h. (w, refl, h);
    };
    compress_sink = λ d z. record {
      write_all = λ w x bs h. (w, refl, h);
      flush_all = λ w x h. outbox-IsSink.flush_all w (d ++ z) h;
    };
    pre_compression_writer_lem = λ level w d h. (h, refl);
    finish_lem = λ w w' d bs h e.
        let taken = finish_lem w w' d bs h e in
        (bs ++ trailer, bs ++ trailer, w'.parent, rw taken.1, refl, refl, taken.0);
    initialize_lem =
        λ level w p d bs z h e. (record w { pending = w.pending ++ z }, rw e, taken-append w d z h);
    end_compression_lem = λ w d bs z e h. h;
  }
