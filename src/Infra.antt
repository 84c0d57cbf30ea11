-- ===== src/Infra.antt =====
-- The infrastructure of pkg/infra: the rate limiter.
pub mod RateLimit
pub mod Examples
pub mod Cache
pub mod EventBus
