-- ===== src/Clap/Process.antt =====
-- `clap::process::Process` (src/common/serialization/clap/process.{h,cpp}, audio-buffer.h): the data of one
-- block, with the audio in shared memory. A pointer to samples is the bytes that it leads to. `none` is an
-- access outside of a vector, an array or a memory, or a failed assertion. The vectors of the buffers
-- and of their types, which have the same size but for a response of another length, are one list of ports.
pub mod Inputs
pub mod Outputs
use wasivst.Prelude.{ℕ, zero, suc, ◌*◌, Option, none, some, List, [], ◌∷◌, length, min}
use wasivst.Clap.Events
use wasivst.Clap.Events.{EventList, InputEvents, OutputEvents}
use wasivst.Vst3.ProcessData.{SharedAudio, copy_channels, copy_out_channels}

pub data AudioBufferType : Type 0 where
  float32 double64 : AudioBufferType

-- The size of a sample.
unfoldable pub sample_size : AudioBufferType → ℕ
sample_size float32 = 4
sample_size double64 = 8

-- The host's `clap_audio_buffer_t`, in which either pointer may be null.
pub record HostBuffer : Type 0 where
  pub host_channel_count : ℕ
  pub host_latency : ℕ
  pub host_constant_mask : ℕ
  pub data32 : Option (List (List ℕ))
  pub data64 : Option (List (List ℕ))

-- The host's `clap_process_t`, whose counts of ports are the lengths.
pub record HostProcess (C E F : Type 0) : Type 0 where
  pub host_steady_time : ℕ
  pub host_frames_count : ℕ
  pub host_transport : Option C
  pub host_audio_inputs : List HostBuffer
  pub host_audio_outputs : List HostBuffer
  pub host_in_events : Option E
  pub host_out_events : Option F

-- What of a buffer is sent.
pub record AudioBuffer : Type 0 where
  pub channel_count : ℕ
  pub latency : ℕ
  pub constant_mask : ℕ

pub record Port : Type 0 where
  pub buffer : AudioBuffer
  pub buffer_type : AudioBufferType

pub record Process (C : Type 0) : Type 0 where
  pub steady_time : ℕ
  pub frames_count : ℕ
  pub transport : Option C
  pub audio_inputs : List Port
  pub audio_outputs : List Port
  pub in_events : EventList
  pub out_events : EventList

unfoldable pub buffer_of : HostBuffer → List ℕ → AudioBuffer
buffer_of host offsets = record {
  channel_count = min (length offsets) host.host_channel_count;
  latency = host.host_latency;
  constant_mask = host.host_constant_mask;
}

-- The type of a port after `resize`: the one that it had, or that of a new one.
unfoldable pub resized_type : List Port → AudioBufferType
resized_type [] = float32
resized_type (p ∷ ps) = p.buffer_type

unfoldable pub resized_rest : List Port → List Port
resized_rest [] = []
resized_rest (p ∷ ps) = ps

-- The type of the samples, by the pointer that is set; a port without one keeps its type, and must have
-- no channels.
unfoldable pub type_of_data :
    (data32 data64 : Option (List (List ℕ)))
    → (channels : ℕ) → AudioBufferType
    → Option AudioBufferType
type_of_data (some _) _ channels old = some float32
type_of_data none (some _) channels old = some double64
type_of_data none none zero old = some old
type_of_data none none (suc k) old = none

-- The channels of a port.
unfoldable pub channels_of : (data32 data64 : Option (List (List ℕ))) → List (List ℕ)
channels_of (some channels) _ = channels
channels_of none (some channels) = channels
channels_of none none = []

infixl 10 ◌>>=◌
abbrev ◌>>=◌ : {A B : Type 0} → Option A → (A → Option B) → Option B
none >>= f = none
some a >>= f = f a

-- The loop over the inputs. All of the host's channels are copied.
unfoldable pub repopulate_input_ports :
    (frames : ℕ)
    → List HostBuffer
    → List (List ℕ)
    → (old : List Port) → List ℕ
    → Option (List Port × List ℕ)
unfolding type_of_data channels_of copy_channels buffer_of resized_type resized_rest sample_size
repopulate_input_ports frames [] offsets old memory = some ([], memory)
repopulate_input_ports frames (host ∷ hosts) [] old memory = none
repopulate_input_ports frames (host ∷ hosts) (os ∷ offsets) old memory = do
  kind ← type_of_data host.data32 host.data64 host.host_channel_count (resized_type old)
  memory' ←
      copy_channels (frames * sample_size kind) host.host_channel_count
        (channels_of host.data32 host.data64) os memory
  (ports, memory'') ← repopulate_input_ports frames hosts offsets (resized_rest old) memory'
  some (record { buffer = buffer_of host os; buffer_type = kind } ∷ ports, memory'')

-- The loop over the outputs.
unfoldable pub repopulate_output_ports :
    List HostBuffer → List (List ℕ) → (old : List Port) → Option (List Port)
unfolding type_of_data buffer_of resized_type resized_rest
repopulate_output_ports [] offsets old = some []
repopulate_output_ports (host ∷ hosts) [] old = none
repopulate_output_ports (host ∷ hosts) (os ∷ offsets) old = do
  kind ← type_of_data host.data32 host.data64 host.host_channel_count (resized_type old)
  ports ← repopulate_output_ports hosts offsets (resized_rest old)
  some (record { buffer = buffer_of host os; buffer_type = kind } ∷ ports)

module _ {C E F : Type 0} (events : InputEvents E) where
  unfoldable pub repopulate :
      HostProcess C E F → SharedAudio → Process C → Option (Process C × SharedAudio)
  unfolding repopulate_input_ports repopulate_output_ports Events.repopulate
  repopulate host shm own = do
    host_events ← host.host_in_events
    _ ← host.host_out_events
    (inputs, memory) ←
        repopulate_input_ports host.host_frames_count host.host_audio_inputs shm.input_offsets
          own.audio_inputs shm.memory
    outputs ← repopulate_output_ports host.host_audio_outputs shm.output_offsets own.audio_outputs
    sent ← Events.repopulate events host_events own.in_events
    some (
      record own {
        steady_time = host.host_steady_time;
        frames_count = host.host_frames_count;
        transport = host.host_transport;
        audio_inputs = inputs;
        audio_outputs = outputs;
        in_events = sent;
      },
      record shm { memory = memory },
    )

-- What the plugin is called with. The lists of pointers, of which there must be one for each port, are
-- the caller's; the lists of events are used in place.
pub record PluginProcess (P C : Type 0) : Type 0 where
  pub plugin_steady_time : ℕ
  pub plugin_frames_count : ℕ
  pub plugin_transport : Option C
  pub plugin_inputs : List (Port × P)
  pub plugin_outputs : List (Port × P)
  pub plugin_in_events : EventList
  pub plugin_out_events : EventList

unfoldable pub set_data : {P : Type 0} → List Port → List P → Option (List (Port × P))
set_data [] pointers = some []
set_data (port ∷ ports) [] = none
set_data (port ∷ ports) (p ∷ ps) = do rest ← set_data ports ps; some ((port, p) ∷ rest)

unfoldable pub reconstruct :
    {P C : Type 0}
    → (input_pointers output_pointers : List P) → Process C
    → Option (PluginProcess P C)
unfolding set_data Events.clear
reconstruct input_pointers output_pointers own = do
  inputs ← set_data own.audio_inputs input_pointers
  outputs ← set_data own.audio_outputs output_pointers
  some (record {
    plugin_steady_time = own.steady_time;
    plugin_frames_count = own.frames_count;
    plugin_transport = own.transport;
    plugin_inputs = inputs;
    plugin_outputs = outputs;
    plugin_in_events = own.in_events;
    plugin_out_events = Events.clear own.out_events;
  })

-- What is sent back, and read into the other side's process: the buffers of the outputs, whose types are
-- not sent again, and the events.
pub record Response : Type 0 where
  pub response_outputs : List AudioBuffer
  pub response_events : EventList

unfoldable pub create_response : {P C : Type 0} → PluginProcess P C → Response
create_response called = record {
  response_outputs = buffers called.plugin_outputs;
  response_events = called.plugin_out_events;
}
  where
    buffers : {P : Type 0} → List (Port × P) → List AudioBuffer
    buffers [] = []
    buffers ((port, p) ∷ ports) = port.buffer ∷ buffers ports

-- The buffers of a response are read in place of those that the other side has, of which there are then as
-- many as were sent. The types stay, and `none` is a buffer without one, which the assertion on the
-- number of ports keeps from being written back.
unfoldable pub with_buffers : List Port → List AudioBuffer → Option (List Port)
with_buffers ports [] = some []
with_buffers [] (b ∷ bs) = none
with_buffers (p ∷ ps) (b ∷ bs) = do rest ← with_buffers ps bs; some (record p { buffer = b } ∷ rest)

-- The response is read into the process that the other side has.
unfoldable pub receive_response : {C : Type 0} → Response → Process C → Option (Process C)
unfolding with_buffers
receive_response r own = do
  ports ← with_buffers own.audio_outputs r.response_outputs
  some (record own { audio_outputs = ports; out_events = r.response_events })

-- The channels that a port's samples are written to; there may be none if none are written.
unfoldable pub write_port_channels :
    (n count : ℕ)
    → List ℕ
    → (memory : List ℕ) → Option (List (List ℕ))
    → Option (Option (List (List ℕ)))
unfolding copy_out_channels
write_port_channels n zero offsets memory channels = some channels
write_port_channels n (suc k) offsets memory none = none
write_port_channels n (suc k) offsets memory (some channels) = do
  channels' ← copy_out_channels n (suc k) offsets memory channels
  some (some channels')

unfoldable pub write_port :
    (frames : ℕ)
    → AudioBuffer
    → AudioBufferType
    → List ℕ
    → (memory : List ℕ) → HostBuffer
    → Option HostBuffer
unfolding write_port_channels
write_port frames b float32 offsets memory host = do
  channels ← write_port_channels (frames * 4) b.channel_count offsets memory host.data32
  some (record host {
    host_constant_mask = b.constant_mask;
    host_latency = b.latency;
    data32 = channels;
  })
write_port frames b double64 offsets memory host = do
  channels ← write_port_channels (frames * 8) b.channel_count offsets memory host.data64
  some (record host {
    host_constant_mask = b.constant_mask;
    host_latency = b.latency;
    data64 = channels;
  })

-- The loop over the outputs, whose numbers are asserted to be the same.
unfoldable pub write_back_ports :
    (frames : ℕ)
    → List Port
    → List (List ℕ)
    → (memory : List ℕ) → List HostBuffer
    → Option (List HostBuffer)
unfolding write_port
write_back_ports frames [] offsets memory [] = some []
write_back_ports frames (p ∷ ports) (os ∷ offsets) memory (host ∷ hosts) = do
  host' ← write_port frames p.buffer p.buffer_type os memory host
  hosts' ← write_back_ports frames ports offsets memory hosts
  some (host' ∷ hosts')
write_back_ports frames _ _ memory _ = none

module _ {C E F : Type 0} (events : OutputEvents F) where
  unfoldable pub write_back_outputs :
      Process C → HostProcess C E F → SharedAudio → Option (HostProcess C E F)
  unfolding write_back_ports Events.write_back_outputs
  write_back_outputs own host shm = do
    host_events ← host.host_out_events
    outputs ←
        write_back_ports host.host_frames_count own.audio_outputs shm.output_offsets shm.memory
          host.host_audio_outputs
    some (record host {
      host_audio_outputs = outputs;
      host_out_events = some (Events.write_back_outputs events own.out_events host_events);
    })
