-- ===== src/Region/Laws.antt =====
-- Properties of src/region.cpp and src/gemfire_worker.cpp.
pub mod Calls
pub mod Signatures
pub mod Store
pub mod Bulk
