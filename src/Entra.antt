-- ===== src/Entra.antt =====
-- utils/entra_tenant.py: the Entra tenant ids of Office 365 applications.
pub mod Urls
pub mod Resolver
pub mod Enrich
mod Tests
