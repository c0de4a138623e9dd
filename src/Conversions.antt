-- ===== src/Conversions.antt =====
-- src/conversions.cpp and src/conversions.hpp.
pub mod ClassName
pub mod Strings
pub mod Data
pub mod ToGemfire
pub mod ToV8
pub mod RoundTrip
pub mod Keys
pub mod Errors
pub mod Effects
pub mod Types
pub mod Stored
pub mod Refused
pub mod Complaints
pub mod Laws
pub mod Examples
