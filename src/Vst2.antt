-- ===== src/Vst2.antt =====
-- What the plugin's side and the host's side of a VST2 plugin send each other: src/common/serialization/vst2.
-- {h,cpp} and src/common/communication/vst2.{h,cpp}.
pub mod Event
pub mod Converter
pub mod Events
pub mod Passthrough
pub mod Speakers
