-- ===== src/Tests/Writers.antt =====
-- The default provider's writers and reader, over streams in memory and with a small cipher.
use protocraft_framework.Prelude.{
  ℕ, ◌+◌, ◌-◌, ◌%◌, ◌<◌, ◌≡◌, refl, ap, ap₂, List, [], ◌∷◌, ◌++◌, take, drop, take-append-drop, All,
  some, arith,
}
use protocraft_framework.Error.{Action, done, ◌>>◌}
use protocraft_framework.Traits.Memory.{
  IoError, unexpected_eof, Spells, Outbox, outbox, HasTaken, outbox-IsSink, HasSent,
  outbox-IsFlushing,
}
use protocraft_framework.Tests.Fixtures.{after}
use protocraft_framework.WithStd.{write_all}
use protocraft_framework.Defaults.{
  BufferedWriter, EncryptionWriter, buffered, buffered_flush, encrypted, encrypted_flush,
}
use protocraft_framework.Defaults.{compression_level, variable}
use protocraft_framework.Defaults.Levels.{compression_level-variable}
use protocraft_framework.Defaults.Buffered.{BufferFed, buffered_flush-write_all}
use protocraft_framework.Defaults.Encrypted.{IsBlockMode, EncryptFed, encrypted_flush-write_all}
use protocraft_framework.Defaults.Provider.{
  DefaultReader, DefaultWriterState, DecryptionReader, writer_with_encryption,
  reader_with_encryption,
}
use protocraft_framework.Defaults.Provider.Decrypted.{IsRead, read_each, read_each_lem}
use protocraft_framework.Defaults.Provider.Switch.{read_each-write_all}

-- Each byte is added to the encrypted byte before it.
abbrev encrypt_sum : ℕ → List ℕ → ℕ × List ℕ
encrypt_sum k [] = (k, [])
encrypt_sum k (b ∷ bs) =
    let rest = encrypt_sum ((b + k) % 256) bs in (rest.0, ((b + k) % 256) ∷ rest.1)

abbrev decrypt_sum : ℕ → List ℕ → ℕ × List ℕ
decrypt_sum k [] = (k, [])
decrypt_sum k (c ∷ cs) = let rest = decrypt_sum c cs in (rest.0, ((c + 256 - k) % 256) ∷ rest.1)

encrypt_sum-IsBlockMode : IsBlockMode encrypt_sum
encrypt_sum-IsBlockMode = record { none = λ k. refl; split = split }
  where
    split :
        (k : ℕ) (xs ys : List ℕ)
        → encrypt_sum k (xs ++ ys) ≡ (
          (encrypt_sum (encrypt_sum k xs).0 ys).0,
          (encrypt_sum k xs).1 ++ (encrypt_sum (encrypt_sum k xs).0 ys).1,
        )
    split k [] ys = refl
    split k (b ∷ xs) ys =
        ap (λ (p : ℕ × List ℕ). (p.0, ((b + k) % 256) ∷ p.1)) (split ((b + k) % 256) xs ys)

decrypt_sum-IsBlockMode : IsBlockMode decrypt_sum
decrypt_sum-IsBlockMode = record { none = λ k. refl; split = split }
  where
    split :
        (k : ℕ) (xs ys : List ℕ)
        → decrypt_sum k (xs ++ ys) ≡ (
          (decrypt_sum (decrypt_sum k xs).0 ys).0,
          (decrypt_sum k xs).1 ++ (decrypt_sum (decrypt_sum k xs).0 ys).1,
        )
    split k [] ys = refl
    split k (c ∷ xs) ys =
        ap (λ (p : ℕ × List ℕ). (p.0, ((c + 256 - k) % 256) ∷ p.1)) (split c xs ys)

sum_inverse :
    (k : ℕ) (xs : List ℕ)
    → k < 256
    → All (λ b. b < 256) xs
    → (decrypt_sum k (encrypt_sum k xs).1).1 ≡ xs
sum_inverse k [] hk h = refl
sum_inverse k (b ∷ xs) hk h =
    let back : ((b + k) % 256 + 256 - k) % 256 ≡ b = omega (arith, h.0) in
    ap₂ (λ (x : ℕ) (l : List ℕ). x ∷ l) back (sum_inverse ((b + k) % 256) xs (omega arith) h.1)

abbrev slice_read : ℕ → Action (List ℕ) IoError (List ℕ)
slice_read n bs = done (take n bs) (drop n bs)

slice_read-IsRead : IsRead slice_read Spells
slice_read-IsRead = record {
  reads = λ n r bs h.
      (take n bs, drop n bs, drop n bs, ap (slice_read n) h, take-append-drop n bs, refl);
}

-- A buffer of two bytes with one byte in it.
abbrev half_full : BufferedWriter Outbox
half_full = record { writer = after (1 ∷ []); buffer = 2 ∷ []; capacity = 2 }

half_full-BufferFed : BufferFed HasTaken half_full (1 ∷ 2 ∷ [])
half_full-BufferFed = record {
  sent = 1 ∷ [];
  fed = refl;
  all = refl;
  room = omega arith;
  holds_some = omega arith;
}

buffered_flush-write_all_example :
    (b' : BufferedWriter Outbox) × ((write_all unexpected_eof (buffered outbox) (3 ∷ 4 ∷ 5 ∷ 6 ∷ [])
          >> buffered_flush outbox)
        half_full
      ≡ done tt b')
    × (b'.writer.sent ++ b'.writer.pending ≡ 1 ∷ 2 ∷ 3 ∷ 4 ∷ 5 ∷ 6 ∷ [])
    × (b'.writer ≡ after (1 ∷ 2 ∷ 3 ∷ 4 ∷ 5 ∷ 6 ∷ []))
    × (b'.buffer ≡ [])
buffered_flush-write_all_example =
    buffered_flush-write_all outbox HasTaken outbox-IsSink HasSent outbox-IsFlushing unexpected_eof
      half_full (1 ∷ 2 ∷ []) (3 ∷ 4 ∷ 5 ∷ 6 ∷ []) half_full-BufferFed

-- The byte 200 is in the buffer, and the encryptor is new.
abbrev encrypting : EncryptionWriter ℕ Outbox
encrypting = record {
  encryptor = 100;
  plain = record { writer = after (1 ∷ []); buffer = 200 ∷ []; capacity = 2 };
}

encrypting-EncryptFed : EncryptFed HasTaken encrypt_sum 100 (1 ∷ []) encrypting (200 ∷ [])
encrypting-EncryptFed = record {
  sent = [];
  fed = refl;
  key = refl;
  all = refl;
  room = omega arith;
  holds_some = omega arith;
}

encrypted_flush-write_all_example :
    (e' : EncryptionWriter ℕ Outbox) × ((write_all unexpected_eof
            (encrypted outbox encrypt_sum)
            (7 ∷ 8 ∷ 9 ∷ [])
          >> encrypted_flush outbox encrypt_sum)
        encrypting
      ≡ done tt e')
    × (e'.plain.writer.sent ++ e'.plain.writer.pending ≡ 1 ∷ 44 ∷ 51 ∷ 59 ∷ 68 ∷ [])
    × (e'.plain.writer ≡ after (1 ∷ 44 ∷ 51 ∷ 59 ∷ 68 ∷ []))
    × (e'.plain.buffer ≡ [])
encrypted_flush-write_all_example =
    encrypted_flush-write_all outbox HasTaken outbox-IsSink HasSent outbox-IsFlushing encrypt_sum
      encrypt_sum-IsBlockMode 100 (1 ∷ []) unexpected_eof encrypting (200 ∷ []) (7 ∷ 8 ∷ 9 ∷ [])
      encrypting-EncryptFed

read_each_lem_example :
    (out : List ℕ) × (rest : List ℕ) × (r' : DecryptionReader ℕ (List ℕ)) × (read_each slice_read
        decrypt_sum
        (2 ∷ 0 ∷ 1 ∷ [])
        (record { decryptor = 100; reader = 44 ∷ 51 ∷ 59 ∷ 68 ∷ [] })
      ≡ done out r')
    × (r'.reader ≡ rest)
    × (out ++ (decrypt_sum r'.decryptor rest).1 ≡ 200 ∷ 7 ∷ 8 ∷ 9 ∷ [])
read_each_lem_example =
    read_each_lem slice_read Spells slice_read-IsRead decrypt_sum decrypt_sum-IsBlockMode
      (2 ∷ 0 ∷ 1 ∷ []) (record { decryptor = 100; reader = 44 ∷ 51 ∷ 59 ∷ 68 ∷ [] })
      (44 ∷ 51 ∷ 59 ∷ 68 ∷ []) refl

-- The key is one byte, and the state of the cipher.
abbrev new_cipher : List ℕ → ℕ
new_cipher [] = 0
new_cipher (k ∷ ks) = k % 256

abbrev empty_writer : BufferedWriter Outbox
empty_writer = record { writer = after []; buffer = []; capacity = 2 }

read_each-write_all_example :
    (e : EncryptionWriter ℕ Outbox) × (e' : EncryptionWriter ℕ Outbox) × (r : DecryptionReader ℕ
      (List ℕ))
    × (r' : DecryptionReader ℕ (List ℕ)) × (out : List ℕ) × (rest : List ℕ)
    × (writer_with_encryption new_cipher (100 ∷ []) (DefaultWriterState.standard empty_writer)
        ≡ some (DefaultWriterState.encrypt e))
    × ((write_all unexpected_eof (encrypted outbox encrypt_sum) (200 ∷ 7 ∷ 8 ∷ [])
            >> encrypted_flush outbox encrypt_sum)
          e
        ≡ done tt e')
    × (reader_with_encryption new_cipher (100 ∷ []) (DefaultReader.standard e'.plain.writer.sent)
        ≡ some (DefaultReader.decrypt r))
    × (read_each slice_read decrypt_sum (1 ∷ 2 ∷ []) r ≡ done out r')
    × (r'.reader ≡ rest)
    × (out ++ (decrypt_sum r'.decryptor rest).1 ≡ 200 ∷ 7 ∷ 8 ∷ [])
read_each-write_all_example =
    read_each-write_all outbox HasTaken outbox-IsSink HasSent outbox-IsFlushing encrypt_sum
      encrypt_sum-IsBlockMode new_cipher slice_read Spells decrypt_sum new_cipher (λ w. w.sent)
      unexpected_eof (100 ∷ []) empty_writer [] (200 ∷ 7 ∷ 8 ∷ []) (1 ∷ 2 ∷ []) slice_read-IsRead
      decrypt_sum-IsBlockMode (λ xs h. sum_inverse 100 xs (omega arith) h)
      (λ w z h. ap (λ (x : Outbox). x.sent) h) (omega arith) refl (omega arith)

compression_level-variable_example : compression_level (variable 8) ≡ 10
compression_level-variable_example = compression_level-variable 8 (omega arith)
