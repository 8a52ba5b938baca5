-- ===== src/Defaults/Provider.antt =====
-- The states of the default provider's writer and reader, and the switch to encryption.
pub mod Decrypted
pub mod Switch
use protocraft_framework.Prelude.{ℕ, List, [], ◌∷◌, Option, none, some}
use protocraft_framework.Error.{Out, Action, Result, ok, err}
use protocraft_framework.Traits.{Writer}
use protocraft_framework.Defaults.{
  BufferedWriter, EncryptionWriter, Compression, buffered_write, buffered_flush, encrypted_write,
  encrypted_flush,
}
use mathlib.Core.Option

-- `DecryptionReader`, with a decryptor of type `K`.
pub record DecryptionReader (K R : Type 0) : Type 0 where
  pub decryptor : K
  pub reader : R

-- `DefaultReader`.
pub data DefaultReader (K R : Type 0) : Type 0 where
  standard : R → DefaultReader K R
  decrypt : DecryptionReader K R → DefaultReader K R
  poisoned : DefaultReader K R

-- `DefaultWriterState`.
pub data DefaultWriterState (K W : Type 0) : Type 0 where
  standard : BufferedWriter W → DefaultWriterState K W
  encrypt : EncryptionWriter K W → DefaultWriterState K W
  poisoned : DefaultWriterState K W

-- `std::io::Read::read` of the inner reader: at most so many bytes of what there is.
module _ {E R K : Type 0} (read : ℕ → Action R E (List ℕ))
    (decrypt_blocks : K → List ℕ → K × List ℕ) where
  pub decryption_read : ℕ → Action (DecryptionReader K R) E (List ℕ)
  decryption_read n r = let o = read n r.reader in decrypted r.decryptor o.result o.state
    where
      decrypted : K → Result E (List ℕ) → R → Out (DecryptionReader K R) E (List ℕ)
      decrypted k (err e) s = record {
        result = err e;
        state = record { decryptor = k; reader = s };
      }
      decrypted k (ok []) s = record {
        result = ok [];
        state = record { decryptor = k; reader = s };
      }
      decrypted k (ok (b ∷ bs)) s =
          let out = decrypt_blocks k (b ∷ bs) in
          record { result = ok out.1; state = record { decryptor = out.0; reader = s } }

-- `none` where the code panics.
module _ {K W : Type 0} (new_encryptor : List ℕ → K) where
  pub writer_with_encryption : List ℕ → DefaultWriterState K W → Option (DefaultWriterState K W)
  writer_with_encryption key (standard b) = some (
      DefaultWriterState.encrypt
        (record { encryptor = new_encryptor key; plain = record b { buffer = [] } }))
  writer_with_encryption key (encrypt e) = none
  writer_with_encryption key poisoned = none

module _ {K R : Type 0} (new_decryptor : List ℕ → K) where
  pub reader_with_encryption : List ℕ → DefaultReader K R → Option (DefaultReader K R)
  reader_with_encryption key (standard r) =
      some (DefaultReader.decrypt (record { decryptor = new_decryptor key; reader = r }))
  reader_with_encryption key (decrypt r) = none
  reader_with_encryption key poisoned = none

module _ {E W K : Type 0} (wr : Writer E W) (encrypt_blocks : K → List ℕ → K × List ℕ) where
  -- A method of either state: the state that it is called on is put back.
  abbrev on_standard : {A : Type 0} → Out (BufferedWriter W) E A → Out (DefaultWriterState K W) E A
  on_standard o = record { result = o.result; state = standard o.state }

  abbrev on_encrypt :
      {A : Type 0} → Out (EncryptionWriter K W) E A → Out (DefaultWriterState K W) E A
  on_encrypt o = record { result = o.result; state = encrypt o.state }

  pub default_write : List ℕ → DefaultWriterState K W → Option (Out (DefaultWriterState K W) E ℕ)
  default_write buf (standard b) = some (on_standard (buffered_write wr buf b))
  default_write buf (encrypt e) = some (on_encrypt (encrypted_write wr encrypt_blocks buf e))
  default_write buf poisoned = none

  pub default_flush : DefaultWriterState K W → Option (Out (DefaultWriterState K W) E (Unit {0}))
  default_flush (standard b) = some (on_standard (buffered_flush wr b))
  default_flush (encrypt e) = some (on_encrypt (encrypted_flush wr encrypt_blocks e))
  default_flush poisoned = none
