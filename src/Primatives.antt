-- ===== src/Primatives.antt =====
-- src/primatives: the codecs of the basic types.
pub mod Int
pub mod VarInt
pub mod HandshakeVersion
pub mod Compound
