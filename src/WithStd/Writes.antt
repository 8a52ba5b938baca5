-- ===== src/WithStd/Writes.antt =====
-- `write_all` over a writer that takes at least one byte of each buffer.
use protocraft_framework.Prelude.{
  ℕ, zero, suc, ◌<◌, ◌≤◌, ◌≡◌, refl, ap, ◌∙◌, sym, List, [], ◌∷◌, ◌++◌, length, take, drop, ◌==◌,
  ne→==, false, append-nil, append_assoc, take-append-drop, length-drop, subst, arith,
}
use protocraft_framework.Error.{done}
use protocraft_framework.WithStd.{IoWrite, write_all, write_all_loop}

-- `Inv s d`: all that the writer `s` has taken is `d`.
pub record IsProgressing {E S : Type 0} (io : IoWrite E S) (Inv : S → List ℕ → Type 0)
    : Type 0 where
  pub takes :
      (s : S) (d : List ℕ) (b : ℕ) (bs : List ℕ)
      → Inv s d
      → (n : ℕ) × (s' : S) × (io.write (b ∷ bs) s ≡ done n s')
        × (0 < n)
        × Inv s' (d ++ take n (b ∷ bs))

module _ {E S : Type 0} (write_zero : E) (io : IoWrite E S) (Inv : S → List ℕ → Type 0)
    (p : IsProgressing io Inv) where
  write_all_loop_lem :
      (fuel : ℕ) (bs : List ℕ) (s : S) (d : List ℕ)
      → length bs ≤ fuel
      → Inv s d
      → (s' : S) × (write_all_loop write_zero io fuel bs s ≡ done tt s') × Inv s' (d ++ bs)
  unfolding write_all_loop
  write_all_loop_lem fuel [] s d enough inv = (s, refl, subst (Inv s) (sym (append-nil d)) inv)
  write_all_loop_lem zero (b ∷ bs) s d enough inv = absurd (omega arith)
  write_all_loop_lem (suc fuel) (b ∷ bs) s d enough inv =
      let (n, s1, e1, pos, inv1) = p.takes s d b bs inv in
      let left : length (drop n (b ∷ bs)) ≤ fuel = omega (arith, length-drop n (b ∷ bs)) in
      let (s2, e2, inv2) =
        write_all_loop_lem fuel (drop n (b ∷ bs)) s1 (d ++ take n (b ∷ bs)) left inv1 in
      let some_taken : (n == 0) ≡ false = ne→== n 0 (omega arith) in
      (
        s2,
        rw (e1, some_taken, e2),
        subst (Inv s2)
            (append_assoc d (take n (b ∷ bs)) (drop n (b ∷ bs))
              ∙ ap (λ l. d ++ l) (take-append-drop n (b ∷ bs)))
            inv2,
      )

  pub write_all_lem :
      (bs : List ℕ) (s : S) (d : List ℕ)
      → Inv s d
      → (s' : S) × (write_all write_zero io bs s ≡ done tt s') × Inv s' (d ++ bs)
  unfolding write_all
  write_all_lem bs s d inv = write_all_loop_lem (length bs) bs s d (omega arith) inv
