-- ===== src/Http.antt =====
-- utils/http.py: the throttles that pace requests, and the client that retries them.
pub mod Time
pub mod Semaphore
pub mod Org
pub mod Throttle
pub mod Admission
pub mod Delay
pub mod Retry
pub mod Waits
pub mod Outage
mod Tests
