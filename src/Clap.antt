-- ===== src/Clap.antt =====
-- The CLAP objects that a bridge carries between a host and a plugin
-- (src/common/serialization/clap).
pub mod Events
pub mod Stream
pub mod Process
pub mod Descriptors
