-- ===== src/Retry.antt =====
-- src/notification/retry.service.ts: the circuit breaker and the retry service.
pub mod Breaker
pub mod Service
