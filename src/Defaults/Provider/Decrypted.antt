-- ===== src/Defaults/Provider/Decrypted.antt =====
-- `DecryptionReader`: what it yields does not depend on how the stream is cut into reads.
use protocraft_framework.Prelude.{ℕ, ◌≡◌, refl, ap, ◌∙◌, sym, List, [], ◌∷◌, ◌++◌, append_assoc}
use protocraft_framework.Error.{Action, done, pure, ◌>>=◌}
use protocraft_framework.Defaults.Encrypted.{IsBlockMode}
use protocraft_framework.Defaults.Provider.{DecryptionReader, decryption_read}

-- `read n` of a stream that is about to yield `bs` takes a part of them from the front.
pub record IsRead {E R : Type 0} (read : ℕ → Action R E (List ℕ)) (Holds : R → List ℕ → Type 0)
    : Type 0 where
  pub reads :
      (n : ℕ) (r : R) (bs : List ℕ)
      → Holds r bs
      → (part : List ℕ) × (rest : List ℕ) × (r' : R) × (read n r ≡ done part r')
        × (part ++ rest ≡ bs)
        × Holds r' rest

module _ {E R K : Type 0} (read : ℕ → Action R E (List ℕ))
    (decrypt_blocks : K → List ℕ → K × List ℕ) where
  -- Reads of the given sizes, one after the other.
  abbrev pub read_each : List ℕ → Action (DecryptionReader K R) E (List ℕ)
  read_each [] = pure []
  read_each (n ∷ ns) = do
    part ← decryption_read read decrypt_blocks n
    later ← read_each ns
    pure (part ++ later)

module _ {E R K : Type 0} (read : ℕ → Action R E (List ℕ)) (Holds : R → List ℕ → Type 0)
    (io : IsRead read Holds) (decrypt_blocks : K → List ℕ → K × List ℕ)
    (mode : IsBlockMode decrypt_blocks) where
  decryption_read_lem :
      (n : ℕ) (r : DecryptionReader K R) (bs : List ℕ)
      → Holds r.reader bs
      → (out : List ℕ) × (rest : List ℕ) × (r' : DecryptionReader K R) × (decryption_read read
            decrypt_blocks n r
          ≡ done out r')
        × Holds r'.reader rest
        × (out ++ (decrypt_blocks r'.decryptor rest).1 ≡ (decrypt_blocks r.decryptor bs).1)
  unfolding decryption_read
  decryption_read_lem n r bs holds = of_part (io.reads n r.reader bs holds)
    where
      of_part :
          (part : List ℕ) × (rest : List ℕ) × (s : R) × (read n r.reader ≡ done part s)
            × (part ++ rest ≡ bs)
            × Holds s rest
          → (out : List ℕ) × (rest : List ℕ) × (r' : DecryptionReader K R) × (decryption_read read
                decrypt_blocks n r
              ≡ done out r')
            × Holds r'.reader rest
            × (out ++ (decrypt_blocks r'.decryptor rest).1 ≡ (decrypt_blocks r.decryptor bs).1)
      of_part ([], rest, s, e, same, holds') =
          ([], rest, record { decryptor = r.decryptor; reader = s }, rw e, holds', rw same)
      of_part (b ∷ part, rest, s, e, same, holds') = (
        (decrypt_blocks r.decryptor (b ∷ part)).1,
        rest,
        record { decryptor = (decrypt_blocks r.decryptor (b ∷ part)).0; reader = s },
        rw e,
        holds',
        sym (ap (λ (p : K × List ℕ). p.1) (mode.split r.decryptor (b ∷ part) rest))
            ∙ ap (λ l. (decrypt_blocks r.decryptor l).1) same,
      )

  -- For a cipher of one-byte blocks, over a stream that is about to yield `bs`: reads of any sizes
  -- succeed, and what they yield, with the decryption of what is left on the stream by the decryptor
  -- they leave, is the decryption of `bs` by the first decryptor, in one run.
  pub read_each_lem :
      (ns : List ℕ) (r : DecryptionReader K R) (bs : List ℕ)
      → Holds r.reader bs
      → (out : List ℕ) × (rest : List ℕ) × (r' : DecryptionReader K R) × (read_each read
            decrypt_blocks ns r
          ≡ done out r')
        × Holds r'.reader rest
        × (out ++ (decrypt_blocks r'.decryptor rest).1 ≡ (decrypt_blocks r.decryptor bs).1)
  read_each_lem [] r bs holds = ([], bs, r, refl, holds, refl)
  read_each_lem (n ∷ ns) r bs holds =
      let (part, rest1, r1, e1, holds1, same1) = decryption_read_lem n r bs holds in
      let (later, rest2, r2, e2, holds2, same2) = read_each_lem ns r1 rest1 holds1 in
      (
        part ++ later,
        rest2,
        r2,
        rw (e1, e2),
        holds2,
        append_assoc part later (decrypt_blocks r2.decryptor rest2).1
            ∙ ap (λ l. part ++ l) same2
            ∙ same1,
      )
