-- ===== src/Auth.antt =====
-- utils/auth.py: the bearer token that requests share, and the token requests.
pub mod Unauthorized
pub mod Bearer
pub mod BaseUrl
pub mod Refreshable
mod Tests
