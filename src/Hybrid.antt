-- ===== src/Hybrid.antt =====
-- models/hybrid_auth.py: the nodes of other collectors that Okta's applications, users and groups correspond to.
pub mod Targets
pub mod Complete
mod Tests
