-- ===== src/Oin.antt =====
-- oin_routes/: from the settings of an integration to the SAML routes that they prove.
pub mod Contract
pub mod Validators
pub mod Declarative
pub mod Registry
pub mod Resolvers
mod Tests
