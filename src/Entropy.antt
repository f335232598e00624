-- ===== src/Entropy.antt =====
-- v2/entropy: the entropy codecs and their utilities.
pub mod Factory
pub mod VarInt
pub mod Predictor
pub mod Cm
pub mod Binary
pub mod NullCodec
pub mod ExpGolomb
mod Tests
