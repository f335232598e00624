-- ===== src/Internal.antt =====
-- v2/internal: integer helpers that the codecs share.
pub mod Log2
pub mod Jobs
pub mod Magic
mod Tests
