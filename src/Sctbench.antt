-- ===== src/Sctbench.antt =====
-- sctbench: threaded programs of concurrent-software-benchmarks and inspect_examples, as step
-- relations.
pub mod Stack
pub mod Queue
pub mod Indexer
pub mod Bbuf
pub mod BoundedBuffer
pub mod CircularBuffer
pub mod Philosopher
pub mod Progression
pub mod ThreadPool
mod Tests
