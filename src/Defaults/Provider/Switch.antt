-- ===== src/Defaults/Provider/Switch.antt =====
-- The switch to encryption at both ends of a connection.
use protocraft_framework.Prelude.{
  ℕ, ◌<◌, ◌≡◌, refl, ◌∙◌, sym, List, [], ◌++◌, some, append-nil, subst, All, arith,
}
use protocraft_framework.Error.{Action, done, ◌>>◌}
use protocraft_framework.Traits.{Writer}
use protocraft_framework.Traits.Contract.{IsSink, IsFlushing}
use protocraft_framework.WithStd.{write_all}
use protocraft_framework.Defaults.{BufferedWriter, EncryptionWriter, encrypted, encrypted_flush}
use protocraft_framework.Defaults.Encrypted.{IsBlockMode, EncryptFed, encrypted_flush-write_all}
use protocraft_framework.Defaults.Provider.{
  DefaultReader, DefaultWriterState, DecryptionReader, writer_with_encryption,
  reader_with_encryption,
}
use protocraft_framework.Defaults.Provider.Decrypted.{IsRead, read_each, read_each_lem}

module _ {E W K : Type 0} (wr : Writer E W) (Fed : W → List ℕ → Type 0) (s : IsSink wr Fed)
    (Sent : W → List ℕ → Type 0) (flushing : IsFlushing wr Fed Sent)
    (encrypt_blocks : K → List ℕ → K × List ℕ) (mode : IsBlockMode encrypt_blocks)
    (new_encryptor : List ℕ → K) where
  -- From a writer of a capacity that is not 0 whose inner writer was fed `before`: the switch to
  -- encryption drops what was not flushed and succeeds, and a write of `bs` after it, with a flush,
  -- has the inner writer actually write the encryption of `bs` by the encryptor of the key, after
  -- `before`.
  pub writer_with_encryption-write_all :
      (write_zero : E) (key : List ℕ) (b : BufferedWriter W) (before bs : List ℕ)
      → 0 < b.capacity
      → Fed b.writer before
      → (e : EncryptionWriter K W) × (e' : EncryptionWriter K W) × (writer_with_encryption
            new_encryptor key
            (DefaultWriterState.standard b)
          ≡ some (DefaultWriterState.encrypt e))
        × ((write_all write_zero (encrypted wr encrypt_blocks) bs
                >> encrypted_flush wr encrypt_blocks)
              e
            ≡ done tt e')
        × Fed e'.plain.writer (before ++ (encrypt_blocks (new_encryptor key) bs).1)
        × Sent e'.plain.writer (before ++ (encrypt_blocks (new_encryptor key) bs).1)
        × (e'.plain.buffer ≡ [])
  unfolding writer_with_encryption
  writer_with_encryption-write_all write_zero key b before bs room fed =
      let k = new_encryptor key in
      let start : EncryptionWriter K W = record {
        encryptor = k;
        plain = record b { buffer = [] };
      } in
      let nothing : encrypt_blocks k [] ≡ (k, []) = mode.none k in
      let fresh : EncryptFed Fed encrypt_blocks k before start [] = record {
        sent = [];
        fed = rw nothing (subst (Fed b.writer) (sym (append-nil before)) fed);
        key = rw nothing;
        all = refl;
        room = omega arith;
        holds_some = room;
      } in
      let (e', run, fed', sent, empty) =
        encrypted_flush-write_all wr Fed s Sent flushing encrypt_blocks mode k before write_zero
          start [] bs fresh in
      (start, e', refl, run, fed', sent, empty)

  -- Both ends of a connection that has carried `before`, with the decryption of the key the inverse of
  -- its encryption: after the switch at both, a write of `bs` and a flush succeed at the one end, and
  -- reads of any sizes at the other yield `bs` but for what is the decryption of the bytes that they
  -- leave on the connection.
  pub read_each-write_all :
      {F R K' : Type 0} (read : ℕ → Action R F (List ℕ)) (Holds : R → List ℕ → Type 0)
      (decrypt_blocks : K' → List ℕ → K' × List ℕ) (new_decryptor : List ℕ → K') (pipe : W → R)
      (write_zero : E) (key : List ℕ) (b : BufferedWriter W) (before bs ns : List ℕ)
      → IsRead read Holds
      → IsBlockMode decrypt_blocks
      → ((xs : List ℕ)
          → All (λ x. x < 256) xs
          → (decrypt_blocks (new_decryptor key) (encrypt_blocks (new_encryptor key) xs).1).1 ≡ xs)
      → ((w : W) (z : List ℕ) → Sent w (before ++ z) → Holds (pipe w) z)
      → 0 < b.capacity
      → Fed b.writer before
      → All (λ x. x < 256) bs
      → (e : EncryptionWriter K W) × (e' : EncryptionWriter K W) × (r : DecryptionReader K' R)
        × (r' : DecryptionReader K' R) × (out : List ℕ) × (rest : List ℕ) × (writer_with_encryption
              new_encryptor key
              (DefaultWriterState.standard b)
            ≡ some (DefaultWriterState.encrypt e))
        × ((write_all write_zero (encrypted wr encrypt_blocks) bs
                >> encrypted_flush wr encrypt_blocks)
              e
            ≡ done tt e')
        × (reader_with_encryption new_decryptor key (DefaultReader.standard (pipe e'.plain.writer))
            ≡ some (DefaultReader.decrypt r))
        × (read_each read decrypt_blocks ns r ≡ done out r')
        × Holds r'.reader rest
        × (out ++ (decrypt_blocks r'.decryptor rest).1 ≡ bs)
  unfolding reader_with_encryption
  read_each-write_all read Holds decrypt_blocks new_decryptor pipe write_zero key b before bs ns io
        mode' inverse link room fed bytes =
      let (e, e', switched, run, fed', sent, empty) =
        writer_with_encryption-write_all write_zero key b before bs room fed in
      let z = (encrypt_blocks (new_encryptor key) bs).1 in
      let r : DecryptionReader _ _ = record {
        decryptor = new_decryptor key;
        reader = pipe e'.plain.writer;
      } in
      let (out, rest, r', reads, holds, same) =
        read_each_lem read Holds io decrypt_blocks mode' ns r z (link e'.plain.writer z sent) in
      (e, e', r, r', out, rest, switched, run, refl, reads, holds, same ∙ inverse bs bytes)
