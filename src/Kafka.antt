-- ===== src/Kafka.antt =====
-- src/kafka: the message schema, the producer and the consumer.
pub mod Schema
pub mod Serializer
pub mod Producer
pub mod Consumer
