-- ===== src/Chunker.antt =====
-- src/vector-db/services/text-processing/text-chunker.service.ts
pub mod CodeUnits
pub mod Patterns
pub mod Chunks
pub mod Splitting
pub mod FixedSize
pub mod Sentences
pub mod Template
pub mod Marking
pub mod Chunking
