-- ===== src/Lib.antt =====
-- A verification library for protocraft-framework, the wire protocol of Minecraft without its packet
-- contents: reading and writing length-prefixed packets, with compression or without, over streams
-- that a provider gives, and the states of a connection in each protocol version.
--
-- The parts, and the files that model them:
-- * src/error.rs is Error. A method with `&mut self` is an `Action`: a function from the object to
--   its result and the object afterwards, after an error too; `?` is `follow`, and `do` blocks bind
--   with it.
-- * src/traits.rs is Traits and Protocol/Streams: a trait is a record of operations on the type that
--   implements it. A reader or a writer that borrows another one is a pair of functions, one that
--   opens it and one that gives the outer object back. Traits/Contract and
--   Protocol/Streams/Contract state what the traits' documentation promises, for streams of every
--   kind: a source that holds bytes, a bounded reader like `std::io::Take`, a sink, a compressing
--   writer that writes the payload of its pre-compression writer, a decompressing reader. ZLib itself
--   is code of another crate: a stream has its own relations of deflation and inflation.
--   A writer's contract tells the bytes that it was fed (`Fed`) from those that it has actually
--   written (`Sent`), as after a flush; a connection carries only the second. Traits/Memory,
--   Protocol/Streams/Memory and Protocol/Streams/MemoryWriter are streams in memory that meet these
--   contracts; the writers hold back what they take until a flush.
-- * src/primatives/mod.rs (`build_primative!`) is Primatives/Int, src/primatives/varint.rs is
--   Primatives/VarInt (`from_reader` is `read_varint`, `to_writer` is `write_varint`, `size` is
--   `varint_size`), and src/primatives/handshake_version.rs is Primatives/HandshakeVersion.
--   Primatives/VarInt/Spec says what the format of a VarInt is, without the code's bit operations.
-- * src/protocol/mod.rs is Protocol: `read_packet` and `read_handshake` are in Protocol/Read,
--   `write_packet_internal` is in Protocol/Write. The provider's threshold and level of compression
--   are arguments. Protocol/Read/Packet says what the frames of a packet are on the wire, and
--   Protocol/RoundTrip joins the two ends. The answers to legacy pings are in Protocol/Ping, on the
--   code units of `encode_utf16`, a parameter.
-- * src/protocol/versions/mod.rs is Versions: the enum of packets that a macro builds is the table of
--   its arms. The type parameter of `ProtocolHandler` is the index of a record in Versions/Stages,
--   and its transitions are a step relation. Versions/V4 to Versions/V774 are the tables of
--   src/protocol/versions, Versions/Supported lists them, and Versions/Connection is a packet from
--   end to end.
-- * src/primatives/bool.rs, option.rs, array.rs, tuple.rs and str.rs are Primatives/Compound: codecs
--   made of codecs. The tuples are the pair. `[T; N]::from_reader` starts from uninitialised memory,
--   and its assignments drop what was there: `read_array` takes whether `T` needs a drop
--   (`core::mem::needs_drop`), and gives `none` where an uninitialised item is dropped, which is
--   undefined behaviour. That `assume_init` itself is undefined on uninitialised memory of most types
--   is not modelled.
-- * src/with_std.rs is WithStd: the `Writer` of any `std::io::Write`, whose `write_all` calls `write`
--   until everything is taken.
-- * src/defaults/mod.rs and src/defaults/sync.rs are Defaults: `BufferedWriter` and
--   `EncryptionWriter` over a `Vec` of a capacity that it keeps, `DecryptionReader`, and the switch of
--   `DefaultWriter` and `DefaultReader` to encryption. The cipher is a parameter that maps its state
--   and some bytes to its next state and as many bytes; a panic is `none`.
-- * Tests are the properties at concrete inputs.
--
-- Numbers: a byte is a natural number, an `i32` or a `u32` its bit pattern, a number below 2 ^ 32;
-- shifts to the left are taken modulo 2 ^ 32. A `usize` is a natural number: the code's lengths are
-- below 2 ^ 21 or those of data in memory. Loops run over the list of their offsets (`read_loop`,
-- `read_length`), or over the bytes of a buffer of five (`write_loop`); `ilog2` takes a step for each
-- of 32 bits; `write_all` has fuel for each byte, and each call of `write` takes one at least.
--
-- Not modelled: the asynchronous versions of the same functions (their bodies are the same macros),
-- the compression and decompression of src/defaults/sync.rs and the provider that holds its streams,
-- the readers of src/with_std.rs, and the examples. A read
-- from a connection that ends early fails with the error of its stream, whatever that is.
pub mod Prelude
pub mod Error
pub mod Traits
pub mod Primatives
pub mod Protocol
pub mod Versions
pub mod WithStd
pub mod Defaults
pub mod Tests
