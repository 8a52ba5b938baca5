-- ===== src/Tests.antt =====
-- The properties at concrete inputs, over the streams in memory: their hypotheses can be met.
mod Fixtures
mod Codecs
mod Handshakes
mod Packets
mod Connections
mod Refusals
mod Writers
mod Compounds
mod Pings
