-- ===== src/Source.antt =====
-- The shared objects of the streams in src/openhound_okta/source.py.
pub mod Breaker
pub mod Claims
pub mod Listings
pub mod Families
pub mod Assignments
mod Tests
