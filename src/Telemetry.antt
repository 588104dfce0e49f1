-- ===== src/Telemetry.antt =====
-- The measurements of src/openhound_okta/telemetry.py.
pub mod Latency
pub mod Measurements
pub mod Templates
pub mod Export
pub mod Recorder
mod Tests
