-- ===== src/Saml.antt =====
-- models/saml.py: the SAML evidence of applications and identity providers.
pub mod Values
pub mod Explicit
pub mod Routes
pub mod AcsRows
pub mod Accounts
pub mod Inbound
pub mod Claims
pub mod Profiles
pub mod Assertions
mod Tests
