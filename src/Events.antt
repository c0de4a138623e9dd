-- ===== src/Events.antt =====
-- src/event_stream.cpp, src/region_event_registry.cpp and src/region_event_listener.cpp.
pub mod Stream
pub mod Registry
pub mod WrapperSet
pub mod Delivery
pub mod Publication
pub mod Payload
pub mod System
pub mod Safety
pub mod Loops
pub mod Progress
pub mod Settle
mod Examples
