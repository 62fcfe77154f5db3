-- ===== src/Vst3.antt =====
-- The objects that stand in for a host's objects in a VST3 bridge (src/common/serialization/vst3), and
-- the identifiers and results that cross it.
pub mod Base
pub mod Bstream
pub mod ParameterChanges
pub mod Event
pub mod EventList
pub mod ProcessData
pub mod AttributeList
