-- ===== src/Tests.antt =====
-- A world for the examples, and the examples of each component.
pub mod World
pub mod Messages
pub mod Fractions
mod BreakerTests
mod WorkerTests
mod ProcessorTests
mod RoutingTests
mod TransactionTests
mod RateLimitTests
mod SequenceTests
mod CacheTests
mod NotificationTests
mod ConsumerTests
mod ConversationTests
pub mod ContextTests
mod ChunkerTests
mod RetrievalTests
mod CostTests
mod DrainTests
