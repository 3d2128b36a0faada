-- ===== src/Wire.antt =====
-- The wire models of python/src/libjadx/_generated/models that the SDK builds or reads, and the
-- Python values that they are made of.
pub mod Json
pub mod Codec
pub mod Enums
pub mod ApiError
pub mod Job
pub mod Refs
pub mod Pages
pub mod Requests
pub mod Bodies
pub mod Schema
