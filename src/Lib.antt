-- ===== src/Lib.antt =====
-- wasivst runs Windows audio plugins in a browser. A page (src/worklet) boots an emulated machine
-- and talks, over a serial line, to a host process in it (src/host), which loads a plugin and runs
-- it. Around this, src/common holds the code of a bridge: objects that stand in for a host's or a
-- plugin's in another process. The files and what they model:
--
-- - Serial: `SerialChannel` (src/host/ipc/serial-channel.{h,cpp}), over the bytes that are left to be
--   read and those written so far. Serial/Action is the monad of its calls, with the faults that end
--   the process as values: the end of the input, an access outside a vector, what `main` throws.
--   Serial/Frames and Serial/Consumption are lemmas on it.
-- - Vst2Host: `Vst2Host` (src/host/vst2/vst2-host.{h,cpp}); the plugin is a record of its calls on a
--   state. Vst2Host/Service is the abstract view of it, a service that answers requests one after
--   the other; Exchange joins it with the page; Gather, Loop and Faults are about the buffers, the
--   loop and the inputs that it does not check.
-- - Vst3Host: `Vst3Host` (src/host/vst3/vst3-host.{h,cpp}), which answers audio with silence.
-- - Main: `main` and the choice of the host (src/host/main.cpp); Main/Session is a whole run of it.
-- - Worklet: the page's encoders (src/worklet/wasivst.js: `#encodeLoad`, `#encodeProcess`, ...), and
--   Worklet/Dispatch its loop over received bytes (`#drainAndDispatch`). RoundTrip and Received
--   relate them to the host's functions.
-- - Vst3/Base: identifiers and results (src/common/serialization/vst3/base.{h,cpp}).
-- - Vst3/Bstream: `YaBStream` (src/common/serialization/vst3/bstream.{h,cpp}), a stream over a vector.
-- - Vst3/ParameterChanges: `YaParamValueQueue` and `YaParameterChanges` (param-value-queue.{h,cpp} and
--   parameter-changes.{h,cpp} there); a pointer to a queue is its index.
-- - Vst3/Event and Vst3/EventList: `YaEvent` and `YaEventList` (event-list.{h,cpp} there).
-- - Vst3/ProcessData: `YaProcessData` (process-data.{h,cpp} there), a block with its audio in shared
--   memory, on the parameter changes and the event list; Copies and Outputs are about the samples.
-- - Vst3/AttributeList: `YaAttributeList` (attribute-list.{h,cpp} there), maps from keys.
-- - Clap/Events: the event lists (src/common/serialization/clap/events.{h,cpp}); Clap/Stream: the
--   state of a plugin as bytes (src/common/serialization/clap/stream.{h,cpp}). Clap/Process: a block
--   (src/common/serialization/clap/process.{h,cpp}, audio-buffer.h); Inputs and Outputs are about what
--   the plugin is called with, and about its response. Clap/Descriptors: what a plugin and a host say
--   of themselves (plugin.{h,cpp}, host.{h,cpp} and version.h there).
-- - Vst2/Events, Vst2/Speakers and Vst2/Event: MIDI events, speaker arrangements, the payloads of events
--   and of their results (src/common/serialization/vst2.{h,cpp}). Vst2/Passthrough:
--   `passthrough_event`; Vst2/Converter: `DefaultDataConverter` and `Vst2EventHandler`
--   (src/common/communication/vst2.{h,cpp}), which Converter/Bridge joins.
-- - Process: the environment of a child process, the search path, the handle of a process; and
--   Process/Spawn how processes are started, over the system calls
--   (src/common/process.{h,cpp}).
-- - Utils: texts and their escapes, directories, a guard (src/common/utils.{h,cpp}).
-- - Configuration: the options of a plugin from a file (src/common/configuration.{h,cpp});
--   Configuration/Section is about the section that they come from.
-- - Communication: objects, loops and requests over sockets, and Communication/AdHoc the threads that
--   send over one handler (src/common/communication/common.h: `AdHocSocketHandler::send`);
--   Communication/Accept the threads of its other side (`receive_multi`); Communication/Endpoint the
--   directory of the sockets (`generate_endpoint_base`, `~Sockets`).
-- - Plugins: the architecture of a library and the types of plugins (src/common/plugins.{h,cpp}).
-- - InPlace: optional values read into old ones (src/common/bitsery/ext/in-place-optional.h).
-- - AudioShm: `AudioShmBuffer` (src/common/audio-shm.{h,cpp}) over the system calls;
--   AudioShm/Lifetime follows a buffer from its constructor to its destructor.
-- - MutualRecursion: `MutualRecursionHelper` (src/common/mutual-recursion.h), used by threads;
--   MutualRecursion/Order is about the order of its stack.
-- - Prelude and its children: the libraries' names, lists, bytes, signed integers, vectors,
--   regions of a memory and copies into them.
--
-- The hosts and the page meet in the channel: bytes that one writes are the input of the other. The
-- stand-in objects meet the other side through records of its calls (IbStream, InputEvents, Istream
-- and so on), which they fill themselves too.
--
-- A byte, a word and the bit pattern of a float are natural numbers; widths are written out where
-- the code computes modulo them. The conversion between double and float is a parameter of the plugin.
-- The loops of the hosts run for a number of rounds, of which one more than there are bytes of input
-- is enough, since each round reads a tag; those of Clap/Stream for one more round than there are
-- bytes to read, or as many as there are to write, since each moves a byte; that of Process over a
-- search path for as many as it has characters, since each takes one; that of Communication over a
-- socket for one more round than there are objects, since each round reads one; that of
-- Communication/Endpoint for as many as it takes until an identifier is free.
--
-- Not modelled: the serial device, the emulator, the page's promises and events; the messages of VST3
-- and CLAP interfaces and the order of fields on the wire, over a library that is not in the
-- repository; connecting and closing sockets, logging;
-- copies of other projects.
pub mod Prelude
pub mod Serial
pub mod Worklet
pub mod Vst2Host
pub mod Vst3Host
pub mod Main
pub mod Vst2
pub mod Vst3
pub mod Clap
pub mod Process
pub mod Utils
pub mod Communication
pub mod MutualRecursion
pub mod Configuration
pub mod AudioShm
pub mod Plugins
pub mod InPlace
pub mod Tests
