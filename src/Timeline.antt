-- ===== src/Timeline.antt =====
-- The abstract view of a versioned object, which jmvcc/versioned.h and jmvcc/versioned2.h
-- implement, with its laws. This module models no code.
mod Defs
mod Reads
pub use Defs.*
pub use Reads.*
