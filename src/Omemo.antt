-- ===== src/Omemo.antt =====
-- The OMEMO component (src/omemo): text helpers and padding, the stored form of a bundle, and
-- the trust of identities over a key-value store.
pub mod Text
pub mod Padding
pub mod Bundle
pub mod Store
pub mod Trust
pub mod Prekeys
pub mod Publish
pub mod Sessions
mod Tests
