-- ===== src/WithStd.antt =====
-- src/with_std.rs: a `Writer` from any `std::io::Write`.
pub mod Writes
use protocraft_framework.Prelude.{ℕ, zero, suc, List, [], ◌∷◌, length, drop, ◌==◌, if◌then◌else◌}
use protocraft_framework.Error.{Out, Action, done, fail, follow}
use protocraft_framework.Traits.{Writer}

-- `std::io::Write`, without its provided methods: `write` says how many bytes it took.
pub record IoWrite (E S : Type 0) : Type 0 where
  pub write : List ℕ → Action S E ℕ
  pub flush : Action S E (Unit {0})

module _ {E S : Type 0} (write_zero : E) (io : IoWrite E S) where
  -- `std::io::Write::write_all`: calls `write` until it has taken all bytes; where it takes none, the
  -- error is `WriteZero`. Each call takes a byte, so that fuel for each byte is enough.
  pub write_all_loop : ℕ → List ℕ → Action S E (Unit {0})
  write_all_loop fuel [] s = done tt s
  write_all_loop zero (b ∷ bs) s = fail write_zero s
  write_all_loop (suc fuel) (b ∷ bs) s =
      let o = io.write (b ∷ bs) s in
      follow o.result o.state (λ n s'.
        let rest = write_all_loop fuel (drop n (b ∷ bs)) s' in
        if n == 0 then fail write_zero s' else rest)

  pub write_all : List ℕ → Action S E (Unit {0})
  write_all bs = write_all_loop (length bs) bs

  -- `impl<W> Writer for W`.
  abbrev pub std_writer : Writer E S
  std_writer = record { write = write_all; flush = io.flush }
