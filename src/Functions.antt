-- ===== src/Functions.antt =====
-- src/functions.cpp, src/result_stream.cpp and src/streaming_result_collector.cpp.
pub mod Stream
pub mod Worker
pub mod System
pub mod Log
pub mod Invariant
pub mod Safety
pub mod Progress
pub mod Termination
pub mod Channel
pub mod Refinement
mod Examples
pub mod Request
pub mod Emitter
pub mod Launch
