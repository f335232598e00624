-- ===== src/Transform.antt =====
-- v2/transform: the byte transforms.
pub mod Api
pub mod Interface
pub mod Sequence
pub mod NullTransform
pub mod Factory
pub mod Zrlt
pub mod Sbrt
