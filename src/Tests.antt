-- ===== src/Tests.antt =====
-- Tests of the models by evaluation, and the theorems at concrete inputs.
mod Host
mod Streams
mod Clap
mod Changes
mod Process
mod Results
mod Utils
mod Communication
mod Threads
mod Configuration
mod Memory
mod Block
mod Attributes
mod Plugins
mod Vst2
mod Spawn
