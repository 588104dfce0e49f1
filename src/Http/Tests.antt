-- ===== src/Http/Tests.antt =====
-- The throttles and the retry loop at concrete inputs.
mod Pacing
mod Sharing
mod Retrying
mod Waiting
