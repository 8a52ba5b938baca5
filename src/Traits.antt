-- ===== src/Traits.antt =====
-- src/traits.rs: the interfaces between streams, codecs and protocol handlers, as records of
-- operations. `SetBlocking` is part of `try_read_byte`, its one caller.
pub mod Contract
pub mod Memory
use protocraft_framework.Prelude.{ℕ, String, List, Option}
use protocraft_framework.Error.{ReadError, WriteError, Action}

-- `Reader`. A byte is a number; `read_exact n` fills a buffer of `n` bytes.
pub record Reader (E R : Type 0) : Type 0 where
  pub read_exact : ℕ → Action R E (List ℕ)
  pub try_read_byte : Action R E (Option ℕ)
  pub discard : ℕ → Action R E (Unit {0})

-- `BoundedReader`.
pub record BoundedReader (E R : Type 0) : Type 0 where
  pub reader : Reader E R
  pub remaining : R → ℕ

-- `Writer`.
pub record Writer (E W : Type 0) : Type 0 where
  pub write : List ℕ → Action W E (Unit {0})
  pub flush : Action W E (Unit {0})

-- `FromReader`, for every reader.
pub record FromReader (A : Type 0) : Type 1 where
  pub from_reader : {E R : Type 0} → Reader E R → Action R (ReadError E) A

-- `ToWriter`, for every writer.
pub record ToWriter (A : Type 0) : Type 1 where
  pub to_writer : {E W : Type 0} → Writer E W → A → Action W (WriteError E) (Unit {0})

-- `Serializable`.
pub record Serializable (A : Type 0) : Type 0 where
  pub size : A → ℕ

-- `ProtocolState`: a state's name, its packets, and the packet that an id stands for.
pub record ProtocolState : Type 1 where
  pub state_name : String
  pub PacketDesignator : Type 0
  pub designator_from_id : ℕ → Option PacketDesignator

-- `ProtocolStateHandler`, for every bounded reader.
pub record ProtocolStateHandler (D Result : Type 0) : Type 1 where
  pub handle_packet : {E R : Type 0} → BoundedReader E R → D → Action R (ReadError E) Result
