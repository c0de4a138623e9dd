-- ===== src/Region.antt =====
-- src/region.cpp, src/region.hpp and src/gemfire_worker.cpp.
pub mod Geode
pub mod Work
pub mod Call
pub mod Methods
pub mod Results
pub mod Sync
pub mod Laws
pub mod Examples
pub mod Callbacks
pub mod Pool
pub mod Accessors
