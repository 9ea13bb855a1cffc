-- ===== src/Resilience.antt =====
-- internal/resilience: the limits on the rate of deliveries to a destination.
pub mod RedisRateLimiter
pub mod RateLimiterManager
