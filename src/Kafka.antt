-- ===== src/Kafka.antt =====
-- internal/kafka: the consumer of the event topic and the handler that delivers webhooks.
pub mod Message
pub mod Signature
pub mod Webhook
pub mod Delivery
pub mod Handler
pub mod Producer
pub mod Consumer
