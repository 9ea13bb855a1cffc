-- ===== src/Domain.antt =====
-- internal/domain: the entities that the other packages share.
pub mod Event
pub mod Subscription
pub mod Delivery
pub mod Projection
