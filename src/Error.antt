-- ===== src/Error.antt =====
-- src/error.rs: the errors of the readers and the writers, and the result of a stateful operation.
-- An `i32` that an error carries is its bit pattern, a number below 2 ^ 32.
use protocraft_framework.Prelude.{ℕ, String, Bool, true, false}

pub data ReadError (E : Type 0) : Type 0 where
  stream_error : E → ReadError E
  over_sized : String → ℕ → ℕ → ReadError E
  negative_length : String → ReadError E
  unknown_packet : String → ℕ → ReadError E
  bad_enum : String → ℕ → ReadError E
  string_decode : String → ReadError E
  malformed_legacy_ping : ReadError E
  custom : String → ReadError E

pub data WriteError (E : Type 0) : Type 0 where
  stream_error : E → WriteError E
  over_sized : String → ℕ → ℕ → WriteError E
  malformed_var_int : WriteError E
  unknown_packet : String → ℕ → WriteError E
  custom : String → WriteError E

-- `Result<A, E>`.
pub data Result (E A : Type 0) : Type 0 where
  ok : A → Result E A
  err : E → Result E A

-- What a method with `&mut self` leaves behind: its result, and the object, after an error too.
pub record Out (S E A : Type 0) : Type 0 where
  pub result : Result E A
  pub state : S

abbrev pub done : {S E A : Type 0} → A → S → Out S E A
done a s = record { result = ok a; state = s }

abbrev pub fail : {S E A : Type 0} → E → S → Out S E A
fail e s = record { result = err e; state = s }

-- `.map_err(f)`.
abbrev pub map_err_result : {E F A : Type 0} → (E → F) → Result E A → Result F A
map_err_result f (ok a) = ok a
map_err_result f (err e) = err (f e)

abbrev pub map_err : {S E F A : Type 0} → (E → F) → Out S E A → Out S F A
map_err f o = record { result = map_err_result f o.result; state = o.state }

-- `?` on a result, and what follows it.
abbrev pub follow : {S E A B : Type 0} → Result E A → S → (A → S → Out S E B) → Out S E B
follow (ok a) s k = k a s
follow (err e) s k = fail e s

-- An operation on an object of type `S`.
abbrev pub Action : Type 0 → Type 0 → Type 0 → Type 0
Action S E A = S → Out S E A

abbrev pub pure : {S E A : Type 0} → A → Action S E A
pure a s = done a s

abbrev pub throw : {S E A : Type 0} → E → Action S E A
throw e s = fail e s

infixl 5 ◌>>=◌ ◌>>◌
abbrev pub ◌>>=◌ : {S E A B : Type 0} → Action S E A → (A → Action S E B) → Action S E B
◌>>=◌ m k s = let o = m s in follow o.result o.state k

abbrev pub ◌>>◌ : {S E B : Type 0} → Action S E (Unit {0}) → Action S E B → Action S E B
m >> k = m >>= λ _. k

-- An early return with an error.
abbrev pub guard : {S E : Type 0} → Bool → E → Action S E (Unit {0})
guard true e = pure tt
guard false e = throw e
