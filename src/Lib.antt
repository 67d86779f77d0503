-- ===== src/Lib.antt =====
-- The verification library of the notification system: requests arrive at an HTTP API, become rows
-- and Kafka messages, and a worker delivers them by email, SMS, push or webhook.
--
-- How the parts interact. `NotificationService.create` (src/notification/notification.service.ts)
-- looks the idempotency key up in Redis, inserts a row, stores the key and publishes a message
-- through the Kafka producer. The worker (src/notification/notification-worker.service.ts) takes a
-- message of the topic, asks the database whether it was sent, and has the processor
-- (notification-processor.service.ts) deliver it behind the circuit breaker of its provider.
-- A message that fails goes to the retry queue or to the dead letters (retry.service.ts).
-- Beside these stand the cache (src/redis) and the rate limits of the guards. On the side of the
-- assistant, templates are split into chunks, a search looks its query up in the cache before it asks
-- Qdrant, the results are assembled into a prompt, and the turns of a conversation are remembered.
--
-- Which file models which part.
-- - Prelude: names of the libraries, tests on numbers and texts, association lists. Prelude/Action
--   is an async function: a state goes in, a result or an error and the new state come out;
--   `try_catch` and `finally` are the statements. Prelude/Int has the integers.
-- - Kafka/Schema and Kafka/Serializer: src/kafka/schemas/notification.schema.ts. A text is what it
--   parses to; JSON.parse and JSON.stringify are the runtime's.
-- - Kafka/Producer, with Transaction: src/kafka/kafka-producer.service.ts over a `Broker`.
-- - Kafka/Consumer: the map of handlers, the dispatch of a message and the lag of
--   src/kafka/kafka-consumer.service.ts over an admin client.
-- - Retry/Breaker: the class CircuitBreaker of src/notification/retry.service.ts. Invariant is
--   about overlapping calls, Phase about an abstract breaker, Recovery about opening and closing.
-- - Retry/Service: the class RetryService. Routing is about the queues, Breakers about the map.
-- - Processor: src/notification/notification-processor.service.ts. The senders only wait, as in the
--   source, whose calls of the providers are comments; Delivery, Tripping and Isolation are about
--   what is delivered and about the circuit breakers of the providers.
-- - Worker: `handleNotification` and `validateMessage` of the worker, with its counters. Handling
--   and Validation are about one call, Conservation about the topics, Redelivery about a second
--   delivery; Draining has the wait at shutdown and the health metrics.
-- - Notifications: the service and the controller (notification.controller.ts); Dto has the types.
--   Creating is about one request, Idempotency about a repeated one, Failing about one that
--   fails, and Channels about what the processor does with the message of a new one.
-- - Redis: src/redis/redis.service.ts over a `Client`; Store states what a client promises.
-- - Cache: src/redis/cache.service.ts. `RateLimit`: src/common/guards/redis-rate-limiter.guard.ts
--   and src/ai/guards/ai-rate-limiter.guard.ts, with double arithmetic as the parameter `Doubles`.
--   Throughput is about one bucket, Sequence about requests through a guard and Redis.
-- - Conversation: src/ai/services/conversation-memory.service.ts, in Redis or in the map of the
--   service. Pruning is about the limits, Storage shows both storages as one map, Reachable is about
--   any operations one after the other, Answers about the results, Context about the text of the
--   recent turns; Listing has the lists of a user.
-- - ContextAssembly: src/vector-db/services/context-assembly.service.ts, from search results to a
--   prompt; Assembly has the whole, Prompt the text, Measures the figures. Selection, Deduplication
--   and Budget are about single steps, Pipeline about the whole.
-- - Chunker: src/vector-db/services/text-processing/text-chunker.service.ts. CodeUnits has the texts
--   as lists of UTF-16 code units, Patterns the regular expressions, Chunks the data, Splitting the
--   three ways to split, Template the entry points. FixedSize and Sentences are about what the chunks
--   hold, Marking and Chunking about what they say of themselves.
-- - Retrieval: src/vector-db/services/retrieval.service.ts over the modelled cache; Ranking has the
--   searches that rank and merge. Counting is about the counters, Repeated about a second search,
--   Keys about the cache keys, Similar about what is left out and merged.
-- - CostTracking: src/ai/services/cost-tracking.service.ts. Window is about the requests that are
--   remembered, Breakdown about what is counted of them.
-- - Tests: a world in which every service works, and each theorem at work in it.
--
-- Records of code that is not in the repository (Broker, Transactions, Admin, Client, Database,
-- Table, Doubles) are parameters, and so are the runtime's clock, doubles, sort and random numbers
-- (Runtime, Defaults, Arithmetic, Figures); Log, Store, Sets, Atomic, Quiet, Rows, Apart, Reliable,
-- Live, Rounding, Backing, Working and SortKeeps name what a theorem relies on of them.
-- Loops run over lists, except four on a number of rounds. `rank_remaining` has one for each result
-- that remains, and takes out one in each. `captures` has one for each code unit of the text, and
-- goes on by one at least. `fixed_size_loop` gives none where its rounds do not suffice; where fewer
-- tokens overlap than a chunk may have, one round more than the text has code units is enough, since
-- each goes on by one at least. `wait_loop` gives none likewise; one round more than the time-out has
-- milliseconds is enough, since each round lets one pass. Counters and times are natural numbers of
-- any size, since doubles hold them exactly below 2 ^ 53.
--
-- Not modelled: logging, metrics, tracing beyond `withSpan`, response headers, the expiry of keys
-- (RateLimit/Throughput says when it makes no difference), overlapping calls of the processor
-- (one breaker's overlapping calls are modelled), of the guards, whose reading and writing of a
-- bucket are not one step, and of the searches of multiQuerySearch, and the module hooks, which
-- are input and output; and, so far, the other AI services, ingestion, the data pipeline, jobs,
-- integrations, authentication and administration.
pub mod Prelude
pub mod Kafka
pub mod Retry
pub mod Processor
pub mod Worker
pub mod Redis
pub mod Cache
pub mod RateLimit
pub mod Notifications
pub mod Conversation
pub mod ContextAssembly
pub mod Chunker
pub mod Retrieval
pub mod CostTracking
mod Tests
