-- ===== src/Defaults.antt =====
-- src/defaults/mod.rs and src/defaults/sync.rs: the writers of the default provider.
pub mod Levels
pub mod Buffered
pub mod Encrypted
pub mod Provider
use protocraft_framework.Prelude.{
  ℕ, ◌+◌, ◌-◌, ◌%◌, Bool, true, false, List, [], ◌∷◌, ◌++◌, length, take, min, max, ◌==◌,
  if◌then◌else◌,
}
use protocraft_framework.Error.{Out, Action, done, fail, follow, pure, ◌>>=◌, ◌>>◌}
use protocraft_framework.Traits.{Writer}
use protocraft_framework.WithStd.{IoWrite}

-- `Compression`.
pub data Compression : Type 0 where
  none speed_optimized : Compression
  variable : ℕ → Compression

-- `Into<u8>`, with the wrap-around of `2 + x` in a release build.
pub compression_level : Compression → ℕ
compression_level Compression.none = 0
compression_level speed_optimized = 1
compression_level (variable x) = max 10 ((2 + x) % 256)

-- `BufferedWriter`. A `Vec` keeps its capacity when it is cleared.
pub record BufferedWriter (W : Type 0) : Type 0 where
  pub writer : W
  pub buffer : List ℕ
  pub capacity : ℕ

-- `EncryptionWriter`, with an encryptor of type `K`.
pub record EncryptionWriter (K W : Type 0) : Type 0 where
  pub encryptor : K
  pub plain : BufferedWriter W

-- `self.buffer.extend_from_slice(&buf[..capacity.min(buf.len())])`
abbrev pub extend : {W : Type 0} → ℕ → List ℕ → BufferedWriter W → BufferedWriter W
extend capacity buf b = record b { buffer = b.buffer ++ take (min capacity (length buf)) buf }

abbrev pub is_empty : {A : Type 0} → List A → Bool
is_empty [] = true
is_empty (x ∷ xs) = false

-- `W: std::io::Write`, of which the code calls `write_all` and `flush`.
module _ {E W : Type 0} (wr : Writer E W) where
  -- `self.writer.write_all(&self.buffer)?; self.buffer.clear();`
  pub drain : Action (BufferedWriter W) E (Unit {0})
  drain b =
      let o = wr.write b.buffer b.writer in
      follow o.result (record b { writer = o.state }) (λ _ s. done tt (record s { buffer = [] }))

  flush_inner : Action (BufferedWriter W) E (Unit {0})
  flush_inner b =
      let o = wr.flush b.writer in
      record { result = o.result; state = record b { writer = o.state } }

  pub buffered_write : List ℕ → Action (BufferedWriter W) E ℕ
  buffered_write buf b =
      let capacity = b.capacity - length b.buffer in
      let after_drain =
        (drain >>= λ _ s. done (min s.capacity (length buf)) (extend s.capacity buf s)) b in
      if capacity == 0
      then after_drain
      else done (min capacity (length buf)) (extend capacity buf b)

  pub buffered_flush : Action (BufferedWriter W) E (Unit {0})
  buffered_flush b =
      let drained = (drain >> flush_inner) b in if is_empty b.buffer then flush_inner b else drained

  abbrev pub buffered : IoWrite E (BufferedWriter W)
  buffered = record { write = buffered_write; flush = buffered_flush }

  -- `encrypt_blocks_inout_mut` of the cipher, over the chunks of a slice.
  module _ {K : Type 0} (encrypt_blocks : K → List ℕ → K × List ℕ) where
    on_plain : {A : Type 0} → Action (BufferedWriter W) E A → Action (EncryptionWriter K W) E A
    on_plain m e =
        let o = m e.plain in record { result = o.result; state = record e { plain = o.state } }

    -- The buffer is encrypted in place, and is the encrypted one where `write_all` fails.
    pub encrypt_buffer : EncryptionWriter K W → EncryptionWriter K W
    encrypt_buffer e =
        let encrypted = encrypt_blocks e.encryptor e.plain.buffer in
        record { encryptor = encrypted.0; plain = record e.plain { buffer = encrypted.1 } }

    pub encrypted_write : List ℕ → Action (EncryptionWriter K W) E ℕ
    encrypted_write buf e =
        let capacity = e.plain.capacity - length e.plain.buffer in
        let after_drain =
          (on_plain drain >>= λ _ s.
          done (min s.plain.capacity (length buf))
            (record s { plain = extend s.plain.capacity buf s.plain }))
            (encrypt_buffer e) in
        if capacity == 0
        then after_drain
        else done (min capacity (length buf)) (record e { plain = extend capacity buf e.plain })

    pub encrypted_flush : Action (EncryptionWriter K W) E (Unit {0})
    encrypted_flush e =
        let drained = (on_plain drain >> on_plain flush_inner) (encrypt_buffer e) in
        if is_empty e.plain.buffer then on_plain flush_inner e else drained

    abbrev pub encrypted : IoWrite E (EncryptionWriter K W)
    encrypted = record { write = encrypted_write; flush = encrypted_flush }
