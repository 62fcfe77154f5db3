-- ===== src/Clap/Process/Inputs.antt =====
-- What a plugin is called with for a block of the host, as src/common/serialization/clap/process.cpp takes it
-- apart and puts it together.
use wasivst.Prelude.{
  ℕ, zero, suc, ◌*◌, ◌≡◌, ◌≤◌, refl, sym, Option, none, some, List, [], ◌∷◌, ◌++◌, arith, length,
  All, ap, min,
}
use wasivst.Prelude.Region.{region}
use wasivst.Prelude.Copies.{
  Job, Fits, AreAllApart, IsInside, run, All-Fits, Fits-IsInside, length-run, run-append,
  region-run,
}
use wasivst.Clap.Events.{ClapEvent, clear, EventList, InputEvents, input_events}
use wasivst.Clap.Events.Laws.{Enumerates, carried, repopulate_lem}
use wasivst.Vst3.ProcessData.{SharedAudio}
use wasivst.Vst3.ProcessData.Copies.{bus_jobs, copy_channels_lem}
use wasivst.Clap.Process.{
  AudioBufferType, float32, double64, sample_size, HostBuffer, HostProcess, Port, Process,
  buffer_of, resized_type, resized_rest, type_of_data, channels_of, repopulate_input_ports,
  repopulate_output_ports, repopulate, PluginProcess, set_data, reconstruct,
}

-- The type of a port's samples.
unfoldable pub kind_of :
    (data32 data64 : Option (List (List ℕ))) → AudioBufferType → AudioBufferType
kind_of (some _) _ old = float32
kind_of none (some _) old = double64
kind_of none none old = old

-- The type that a port had before, where there was one.
unfoldable pub type_before : List Port → AudioBufferType
type_before (port ∷ ports) = port.buffer_type
type_before [] = float32

unfoldable pub behind : List Port → List Port
behind (port ∷ ports) = ports
behind [] = []

-- The bytes of a `float` and of a `double`.
unfoldable pub width : AudioBufferType → ℕ
width double64 = 8
width float32 = 4

-- The samples that the pointer that is set leads to, the first one if both are.
unfoldable pub samples : HostBuffer → List (List ℕ)
samples host = elim host.data32 [
  | some channels ↦ channels
  | none ↦ elim host.data64 [ some channels ↦ channels | none ↦ [] ]
]

abbrev host_kind : HostBuffer → List Port → AudioBufferType
host_kind host old = kind_of host.data32 host.data64 (type_before old)

abbrev port_jobs : ℕ → HostBuffer → List ℕ → List Port → List Job
port_jobs frames host os old =
    bus_jobs (frames * width (host_kind host old)) host.host_channel_count (samples host) os

-- The copies of all channels of the inputs.
unfoldable pub input_jobs : ℕ → List HostBuffer → List (List ℕ) → List Port → List Job
unfolding kind_of bus_jobs samples width type_before behind
input_jobs frames (host ∷ hosts) (os ∷ offsets) old =
    port_jobs frames host os old ++ input_jobs frames hosts offsets (behind old)
input_jobs frames _ _ old = []

-- What is kept of ports.
unfoldable pub kept_ports : List HostBuffer → List (List ℕ) → List Port → List Port
unfolding kind_of type_before behind
kept_ports (host ∷ hosts) (os ∷ offsets) old =
    record {
      buffer = record {
        channel_count = min (length os) host.host_channel_count;
        latency = host.host_latency;
        constant_mask = host.host_constant_mask;
      };
      buffer_type = host_kind host old;
    }
    ∷ kept_ports hosts offsets (behind old)
kept_ports _ _ old = []

-- Each port of the host has offsets, not fewer than it has channels, and a buffer for each channel, which
-- holds the samples of the block and has its place within the memory.
abbrev pub AreInputs : (frames size : ℕ) → List HostBuffer → List (List ℕ) → List Port → Type 0
AreInputs frames size [] offsets old = Unit
AreInputs frames size (host ∷ hosts) [] old = ⊥
AreInputs frames size (host ∷ hosts) (os ∷ offsets) old =
    (host.host_channel_count ≤ length (samples host))
    × (host.host_channel_count ≤ length os)
    × All (Fits (frames * width (host_kind host old)) size) (port_jobs frames host os old)
    × AreInputs frames size hosts offsets (behind old)

-- Each output of the host has offsets, and a buffer or no channels.
abbrev pub AreOutputs : List HostBuffer → List (List ℕ) → Type 0
AreOutputs [] offsets = Unit
AreOutputs (host ∷ hosts) [] = ⊥
AreOutputs (host ∷ hosts) (os ∷ offsets) =
    (host.host_channel_count ≤ length (samples host)) × AreOutputs hosts offsets

width-sample_size : (kind : AudioBufferType) → sample_size kind ≡ width kind
unfolding sample_size width
width-sample_size float32 = refl
width-sample_size double64 = refl

samples-channels_of : (host : HostBuffer) → channels_of host.data32 host.data64 ≡ samples host
unfolding channels_of samples
samples-channels_of host = go host.data32 host.data64
  where
    go :
        (d32 d64 : Option (List (List ℕ)))
        → channels_of d32 d64 ≡ elim d32 [
          | some channels ↦ channels
          | none ↦ elim d64 [ some channels ↦ channels | none ↦ [] ]
        ]
    go (some channels) d64 = refl
    go none (some channels) = refl
    go none none = refl

type_before-resized_type : (old : List Port) → resized_type old ≡ type_before old
unfolding resized_type type_before
type_before-resized_type [] = refl
type_before-resized_type (p ∷ ps) = refl

behind-resized_rest : (old : List Port) → resized_rest old ≡ behind old
unfolding resized_rest behind
behind-resized_rest [] = refl
behind-resized_rest (p ∷ ps) = refl

type_of_data-kind_of :
    (d32 d64 : Option (List (List ℕ))) (channels : ℕ) (old : AudioBufferType)
    → channels ≤ length (channels_of d32 d64)
    → type_of_data d32 d64 channels old ≡ some (kind_of d32 d64 old)
unfolding type_of_data kind_of channels_of
type_of_data-kind_of (some _) d64 channels old h = refl
type_of_data-kind_of none (some _) channels old h = refl
type_of_data-kind_of none none zero old h = refl
type_of_data-kind_of none none (suc k) old h = absurd (omega (arith, h))

AreInputs-run :
    (frames : ℕ) {a b : ℕ} (hosts : List HostBuffer) (offsets : List (List ℕ)) (old : List Port)
    → a ≡ b
    → AreInputs frames a hosts offsets old
    → AreInputs frames b hosts offsets old
AreInputs-run frames [] offsets old e h = tt
AreInputs-run frames (host ∷ hosts) [] old e h = absurd h
AreInputs-run frames (host ∷ hosts) (os ∷ offsets) old e (c, o, f, hs) = (
  c,
  o,
  All-Fits (frames * width (host_kind host old)) (port_jobs frames host os old) e f,
  AreInputs-run frames hosts offsets (behind old) e hs,
)

IsInside-All :
    (js ks : List Job) (size : ℕ)
    → All (IsInside size) js
    → All (IsInside size) ks
    → All (IsInside size) (js ++ ks)
IsInside-All [] ks size h h' = h'
IsInside-All (j ∷ js) ks size (h, hs) h' = (h, IsInside-All js ks size hs h')

input_jobs-IsInside :
    (frames size : ℕ) (hosts : List HostBuffer) (offsets : List (List ℕ)) (old : List Port)
    → AreInputs frames size hosts offsets old
    → All (IsInside size) (input_jobs frames hosts offsets old)
unfolding input_jobs
input_jobs-IsInside frames size [] offsets old h = tt
input_jobs-IsInside frames size (host ∷ hosts) [] old h = tt
input_jobs-IsInside frames size (host ∷ hosts) (os ∷ offsets) old (c, o, f, hs) =
    IsInside-All (port_jobs frames host os old) (input_jobs frames hosts offsets (behind old)) size
      (Fits-IsInside (frames * width (host_kind host old)) size (port_jobs frames host os old) f)
      (input_jobs-IsInside frames size hosts offsets (behind old) hs)

repopulate_input_ports_lem :
    (frames : ℕ) (hosts : List HostBuffer) (offsets : List (List ℕ)) (old : List Port) (m : List ℕ)
    → AreInputs frames (length m) hosts offsets old
    → repopulate_input_ports frames hosts offsets old m
      ≡ some (kept_ports hosts offsets old, run (input_jobs frames hosts offsets old) m)
unfolding repopulate_input_ports kept_ports input_jobs run buffer_of
repopulate_input_ports_lem frames [] offsets old m h = refl
repopulate_input_ports_lem frames (host ∷ hosts) [] old m h = absurd h
repopulate_input_ports_lem frames (host ∷ hosts) (os ∷ offsets) old m (c, o, f, hs) =
    let n = frames * width (host_kind host old) in
    let mine = port_jobs frames host os old in
    let m' = run mine m in
    let same = length-run mine m (Fits-IsInside n (length m) mine f) in
    rw
      (
        type_before-resized_type old,
        behind-resized_rest old,
        samples-channels_of host,
        type_of_data-kind_of host.data32 host.data64 host.host_channel_count (type_before old)
            (omega (arith, c, ap length (samples-channels_of host))),
        width-sample_size (host_kind host old),
        copy_channels_lem n host.host_channel_count (samples host) os m c o f,
        repopulate_input_ports_lem frames hosts offsets (behind old) m'
            (AreInputs-run frames hosts offsets (behind old) (sym same) hs),
        run-append mine (input_jobs frames hosts offsets (behind old)) m,
      )
      refl

repopulate_output_ports_lem :
    (hosts : List HostBuffer) (offsets : List (List ℕ)) (old : List Port)
    → AreOutputs hosts offsets
    → repopulate_output_ports hosts offsets old ≡ some (kept_ports hosts offsets old)
unfolding repopulate_output_ports kept_ports buffer_of
repopulate_output_ports_lem [] offsets old h = refl
repopulate_output_ports_lem (host ∷ hosts) [] old h = absurd h
repopulate_output_ports_lem (host ∷ hosts) (os ∷ offsets) old (c, hs) =
    rw
      (
        type_before-resized_type old,
        behind-resized_rest old,
        type_of_data-kind_of host.data32 host.data64 host.host_channel_count (type_before old)
            (omega (arith, c, ap length (samples-channels_of host))),
        repopulate_output_ports_lem hosts offsets (behind old) hs,
      )
      refl

-- Ports with their pointers.
unfoldable pub paired : {P : Type 0} → List Port → List P → List (Port × P)
paired (port ∷ ports) (p ∷ ps) = (port, p) ∷ paired ports ps
paired _ _ = []

set_data-paired :
    {P : Type 0}
    → (ports : List Port) (ps : List P) → length ports ≤ length ps
    → set_data ports ps ≡ some (paired ports ps)
unfolding set_data paired
set_data-paired [] ps h = refl
set_data-paired (port ∷ ports) [] h = absurd (omega (arith, h))
set_data-paired (port ∷ ports) (p ∷ ps) h = rw (set_data-paired ports ps (omega (arith, h))) refl

length-kept_ports :
    (hosts : List HostBuffer) (offsets : List (List ℕ)) (old : List Port)
    → length (kept_ports hosts offsets old) ≤ length hosts
unfolding kept_ports
length-kept_ports [] offsets old = omega arith
length-kept_ports (host ∷ hosts) [] old = omega arith
length-kept_ports (host ∷ hosts) (os ∷ offsets) old =
    omega (arith, length-kept_ports hosts offsets (behind old))

-- The copies of a block's inputs.
abbrev pub block_jobs : {C E F : Type 0} → HostProcess C E F → SharedAudio → Process C → List Job
block_jobs host shm own =
    input_jobs host.host_frames_count host.host_audio_inputs shm.input_offsets own.audio_inputs

-- What the plugin is called with for a block, and a list of events.
unfoldable pub called_with :
    {C E F P : Type 0}
    → HostProcess C E F
    → SharedAudio
    → Process C
    → (input_pointers output_pointers : List P) → EventList
    → PluginProcess P C
unfolding paired kept_ports
called_with host shm own ins outs sent = record {
  plugin_steady_time = host.host_steady_time;
  plugin_frames_count = host.host_frames_count;
  plugin_transport = host.host_transport;
  plugin_inputs = paired (kept_ports host.host_audio_inputs shm.input_offsets own.audio_inputs) ins;
  plugin_outputs =
      paired (kept_ports host.host_audio_outputs shm.output_offsets own.audio_outputs) outs;
  plugin_in_events = sent;
  plugin_out_events = record { events = [] };
}

module _ {C E F P : Type 0} (events : InputEvents E) (host : HostProcess C E F) (shm : SharedAudio)
    (own : Process C) where
  -- A block of a host that has both lists of events, the one for input answering as some events do. Each
  -- input has offsets in the shared memory for all its channels, and buffers that hold the samples of
  -- the block, of four or of eight bytes by the pointer that is set; all their places lie within the
  -- memory and apart. Each output has offsets, and a buffer if it has channels. There are as many
  -- pointers for the plugin as ports. Then the block is taken over, whatever the process held before,
  -- and the plugin is called with the host's time, number of frames and transport, with the ports and
  -- their pointers, each port with the lesser number of channels and the host's latency and mask, with
  -- the events but for those that are not carried, in order, and with an empty list for its own; the
  -- memory has its old size and holds the samples of each channel at its place.
  pub reconstruct-repopulate :
      (e : E) (f : F) (es : List ClapEvent) (ins outs : List P)
      → host.host_in_events ≡ some e
      → host.host_out_events ≡ some f
      → Enumerates events e es
      → AreInputs host.host_frames_count
          (length shm.memory)
          host.host_audio_inputs
          shm.input_offsets
          own.audio_inputs
      → AreOutputs host.host_audio_outputs shm.output_offsets
      → AreAllApart (block_jobs host shm own)
      → length host.host_audio_inputs ≤ length ins
      → length host.host_audio_outputs ≤ length outs
      → (own' : Process C) × (m : List ℕ) × (sent : EventList) × (repopulate events host shm own
          ≡ some (own', record shm { memory = m }))
        × (reconstruct ins outs own' ≡ some (called_with host shm own ins outs sent))
        × Enumerates input_events sent (carried es)
        × (length m ≡ length shm.memory)
        × All (λ (j : Job). region j.0 (length j.1) m ≡ j.1) (block_jobs host shm own)
  unfolding repopulate reconstruct called_with clear
  reconstruct-repopulate e f es ins outs he hf source inputs outputs apart ports_in ports_out =
      let (sent, got, same) = repopulate_lem events e es own.in_events source in
      let frames = host.host_frames_count in
      let kept_in = kept_ports host.host_audio_inputs shm.input_offsets own.audio_inputs in
      let kept_out = kept_ports host.host_audio_outputs shm.output_offsets own.audio_outputs in
      let jobs = block_jobs host shm own in
      let m = run jobs shm.memory in
      let inside =
        input_jobs-IsInside frames (length shm.memory) host.host_audio_inputs shm.input_offsets
          own.audio_inputs inputs in
      (
        record own {
          steady_time = host.host_steady_time;
          frames_count = frames;
          transport = host.host_transport;
          audio_inputs = kept_in;
          audio_outputs = kept_out;
          in_events = sent;
        },
        m,
        sent,
        rw
            (
              he,
              hf,
              repopulate_input_ports_lem frames host.host_audio_inputs shm.input_offsets
                  own.audio_inputs shm.memory inputs,
              repopulate_output_ports_lem host.host_audio_outputs shm.output_offsets
                  own.audio_outputs outputs,
              got,
            )
            refl,
        rw
            (
              set_data-paired kept_in ins (
                  omega (
                    arith,
                    ports_in,
                    length-kept_ports host.host_audio_inputs shm.input_offsets own.audio_inputs,
                  )),
              set_data-paired kept_out outs (
                  omega (
                    arith,
                    ports_out,
                    length-kept_ports host.host_audio_outputs shm.output_offsets own.audio_outputs,
                  )),
            )
            refl,
        same,
        length-run jobs shm.memory inside,
        region-run jobs shm.memory inside apart,
      )
