-- ===== src/Bitstream.antt =====
-- v2/bitstream, and the bit stream interfaces of v2/Definitions.go.
pub mod Api
pub mod Reference
pub mod Sink
pub mod Source
pub mod Output
pub mod Input
pub mod File
