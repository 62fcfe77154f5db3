-- ===== src/Vst3/ProcessData.antt =====
-- `YaProcessData` (src/common/serialization/vst3/process-data.{h,cpp}): the data of one block, with the
-- audio in shared memory. A pointer to samples is the bytes that it leads to. `none` is an access
-- outside of a vector, an array or a memory, or a failed assertion.
pub mod Copies
pub mod Outputs
use wasivst.Prelude.{
  ℕ, zero, suc, ◌+◌, ◌*◌, Bool, true, false, ◌&&◌, Option, none, some, List, [], ◌∷◌, length, take,
  min, leb, ◌==◌, if◌then◌else◌,
}
use wasivst.Prelude.Vector.{copy_at}
use wasivst.Prelude.Region.{region}
use wasivst.Vst3.ParameterChanges
use wasivst.Vst3.ParameterChanges.{YaParameterChanges, IparameterChanges, OutputChanges}
use wasivst.Vst3.EventList
use wasivst.Vst3.EventList.{YaEventList, IeventList, OutputEvents}

-- The host's `AudioBusBuffers`.
pub record HostBus : Type 0 where
  pub host_channels : ℕ
  pub host_silence : ℕ
  pub channel_buffers : List (List ℕ)

-- The host's `ProcessData`, whose counts of buses are the lengths; the objects in it may be missing.
pub record HostData (T O E F C : Type 0) : Type 0 where
  pub host_mode : ℕ
  pub symbolic_sample_size : ℕ
  pub num_samples : ℕ
  pub inputs : List HostBus
  pub outputs : List HostBus
  pub input_parameter_changes : Option T
  pub output_parameter_changes : Option O
  pub input_events : Option E
  pub output_events : Option F
  pub process_context : Option C

-- What of a bus is sent: the pointers are set on the other side.
pub record Bus : Type 0 where
  pub num_channels : ℕ
  pub silence_flags : ℕ

pub record YaProcessData (C : Type 0) : Type 0 where
  pub mode : ℕ
  pub sample_size : ℕ
  pub samples : ℕ
  pub in_buses : List Bus
  pub out_buses : List Bus
  pub in_changes : YaParameterChanges
  pub out_changes : Option YaParameterChanges
  pub in_events : Option YaEventList
  pub out_events : Option YaEventList
  pub context : Option C

-- The part of an `AudioShmBuffer` that is used here; an offset is one in bytes.
pub record SharedAudio : Type 0 where
  pub input_offsets : List (List ℕ)
  pub output_offsets : List (List ℕ)
  pub memory : List ℕ

-- The bytes of a channel; `kSample64` is 1, and every other value means `float`.
unfoldable pub channel_size : (symbolic_sample_size num_samples : ℕ) → ℕ
channel_size size samples = samples * (if size == 1 then 8 else 4)

-- `std::copy_n` into the shared memory.
unfoldable pub copy_in : (n : ℕ) → List ℕ → (offset : ℕ) → List ℕ → Option (List ℕ)
unfolding copy_at
copy_in n buffer offset memory =
    if leb n (length buffer) && leb (offset + n) (length memory)
    then some (copy_at offset (take n buffer) memory)
    else none

-- The loop over the channels of a bus, of which `count` are left.
unfoldable pub copy_channels : (n count : ℕ) → List (List ℕ) → List ℕ → List ℕ → Option (List ℕ)
unfolding copy_in
copy_channels n zero buffers offsets memory = some memory
copy_channels n (suc k) (b ∷ bs) (o ∷ os) memory = elim (copy_in n b o memory) [
  | none ↦ none
  | some memory' ↦ copy_channels n k bs os memory'
]
copy_channels n (suc k) _ _ memory = none

-- What is kept of a bus, whose offsets are those of the shared memory.
unfoldable pub bus_of : HostBus → List ℕ → Bus
bus_of host offsets = record {
  num_channels = min (length offsets) host.host_channels;
  silence_flags = host.host_silence;
}

-- The loop over the inputs.
unfoldable pub repopulate_inputs :
    (n : ℕ) → List HostBus → List (List ℕ) → List ℕ → Option (List Bus × List ℕ)
unfolding copy_channels bus_of
repopulate_inputs n [] offsets memory = some ([], memory)
repopulate_inputs n (host ∷ hosts) [] memory = none
repopulate_inputs n (host ∷ hosts) (os ∷ offsets) memory =
    elim (copy_channels n (bus_of host os).num_channels host.channel_buffers os memory) [
      | none ↦ none
      | some memory' ↦ elim (repopulate_inputs n hosts offsets memory') [
        | none ↦ none
        | some (buses, memory'') ↦ some (bus_of host os ∷ buses, memory'')
      ]
    ]

-- The loop over the outputs.
unfoldable pub repopulate_outputs : List HostBus → List (List ℕ) → Option (List Bus)
unfolding bus_of
repopulate_outputs [] offsets = some []
repopulate_outputs (host ∷ hosts) [] = none
repopulate_outputs (host ∷ hosts) (os ∷ offsets) = elim (repopulate_outputs hosts offsets) [
  | none ↦ none
  | some buses ↦ some (bus_of host os ∷ buses)
]

-- An output that the host wants: the one that there is, or a new one.
unfoldable pub wanted : {A B : Type 0} → (new : B) → Option A → Option B → Option B
wanted new none old = none
wanted new (some _) none = some new
wanted new (some _) (some old) = some old

unfoldable pub repopulate_input_changes :
    {T Q : Type 0}
    → IparameterChanges T Q
    → Option T
    → YaParameterChanges
    → Option YaParameterChanges
repopulate_input_changes changes none own = some (ParameterChanges.clear own)
repopulate_input_changes changes (some host) own = ParameterChanges.repopulate changes host own

unfoldable pub repopulate_input_events :
    {E : Type 0} → IeventList E → Option E → Option YaEventList → Option YaEventList
repopulate_input_events events none own = none
repopulate_input_events events (some host) none =
    some (EventList.repopulate events host (record { events = [] }))
repopulate_input_events events (some host) (some own) = some (EventList.repopulate events host own)

infixl 10 ◌>>=◌
abbrev ◌>>=◌ : {A B : Type 0} → Option A → (A → Option B) → Option B
none >>= f = none
some a >>= f = f a

module _ {T Q O E F C : Type 0} (changes : IparameterChanges T Q) (events : IeventList E) where
  unfoldable pub repopulate :
      HostData T O E F C → SharedAudio → YaProcessData C → Option (YaProcessData C × SharedAudio)
  unfolding repopulate_inputs repopulate_outputs wanted repopulate_input_changes
      repopulate_input_events channel_size
  repopulate host shm own = do
    (in_buses, memory) ←
        repopulate_inputs (channel_size host.symbolic_sample_size host.num_samples) host.inputs
          shm.input_offsets shm.memory
    out_buses ← repopulate_outputs host.outputs shm.output_offsets
    in_changes ← repopulate_input_changes changes host.input_parameter_changes own.in_changes
    some (
      record {
        mode = host.host_mode;
        sample_size = host.symbolic_sample_size;
        samples = host.num_samples;
        in_buses = in_buses;
        out_buses = out_buses;
        in_changes = in_changes;
        out_changes = wanted (record { queues = [] }) host.output_parameter_changes own.out_changes;
        in_events = repopulate_input_events events host.input_events own.in_events;
        out_events = wanted (record { events = [] }) host.output_events own.out_events;
        context = host.process_context;
      },
      record shm { memory = memory },
    )

-- `std::copy_n` out of the shared memory.
unfoldable pub copy_out : (n : ℕ) (offset : ℕ) → (memory buffer : List ℕ) → Option (List ℕ)
unfolding copy_at
copy_out n offset memory buffer =
    if leb n (length buffer) && leb (offset + n) (length memory)
    then some (copy_at 0 (region offset n memory) buffer)
    else none

-- The loop over the channels of an output, of which `count` are left.
unfoldable pub copy_out_channels :
    (n count : ℕ) → List ℕ → (memory : List ℕ) → List (List ℕ) → Option (List (List ℕ))
unfolding copy_out
copy_out_channels n zero offsets memory buffers = some buffers
copy_out_channels n (suc k) (o ∷ os) memory (b ∷ bs) = do
  b' ← copy_out n o memory b
  bs' ← copy_out_channels n k os memory bs
  some (b' ∷ bs')
copy_out_channels n (suc k) _ memory _ = none

-- The loop over the outputs, whose numbers are asserted to be the same.
unfoldable pub write_back_buses :
    (n : ℕ) → List Bus → List (List ℕ) → (memory : List ℕ) → List HostBus → Option (List HostBus)
unfolding copy_out_channels
write_back_buses n [] offsets memory [] = some []
write_back_buses n (bus ∷ buses) (os ∷ offsets) memory (host ∷ hosts) = do
  buffers ← copy_out_channels n bus.num_channels os memory host.channel_buffers
  hosts' ← write_back_buses n buses offsets memory hosts
  some (record host { host_silence = bus.silence_flags; channel_buffers = buffers } ∷ hosts')
write_back_buses n _ _ memory _ = none

-- What the host has of an output, if it wants it and there is one.
unfoldable pub written : {A B : Type 0} → (A → B → B) → Option A → Option B → Option B
written write (some own) (some host) = some (write own host)
written write _ host = host

module _ {T O E F C : Type 0} (changes : OutputChanges O) (events : OutputEvents F) where
  unfoldable pub write_back_outputs :
      YaProcessData C → HostData T O E F C → SharedAudio → Option (HostData T O E F C)
  unfolding write_back_buses written channel_size
  write_back_outputs own host shm = do
    outputs ←
        write_back_buses (channel_size host.symbolic_sample_size host.num_samples) own.out_buses
          shm.output_offsets shm.memory host.outputs
    some (record host {
      outputs = outputs;
      output_parameter_changes =
          written (λ (c : YaParameterChanges). ParameterChanges.write_back_outputs changes c.queues)
            own.out_changes host.output_parameter_changes;
      output_events =
          written (EventList.write_back_outputs events) own.out_events host.output_events;
    })

-- The plugin's side: what it is called with. The lists of pointers, of which there must be one for each
-- bus, are set by the caller; objects that are sent in are used in place.
pub record PluginData (P C : Type 0) : Type 0 where
  pub plugin_mode : ℕ
  pub plugin_sample_size : ℕ
  pub plugin_samples : ℕ
  pub plugin_inputs : List (Bus × P)
  pub plugin_outputs : List (Bus × P)
  pub plugin_context : Option C

unfoldable pub with_pointers : {P : Type 0} → List Bus → List P → Option (List (Bus × P))
with_pointers [] pointers = some []
with_pointers (b ∷ bs) [] = none
with_pointers (b ∷ bs) (p ∷ ps) = do rest ← with_pointers bs ps; some ((b, p) ∷ rest)

-- With the lists for the plugin's outputs emptied.
unfoldable pub cleared : {C : Type 0} → YaProcessData C → YaProcessData C
cleared own = record own {
  out_changes = own.out_changes >>= λ c. some (ParameterChanges.clear c);
  out_events = own.out_events >>= λ e. some (EventList.clear e);
}

unfoldable pub reconstruct :
    {P C : Type 0}
    → (input_pointers output_pointers : List P) → YaProcessData C
    → Option (PluginData P C × YaProcessData C)
unfolding with_pointers cleared
reconstruct input_pointers output_pointers own = do
  inputs ← with_pointers own.in_buses input_pointers
  outputs ← with_pointers own.out_buses output_pointers
  some (
    record {
      plugin_mode = own.mode;
      plugin_sample_size = own.sample_size;
      plugin_samples = own.samples;
      plugin_inputs = inputs;
      plugin_outputs = outputs;
      plugin_context = own.context;
    },
    cleared own,
  )

-- What is sent back, and put in the place of what the other side has.
pub record Response : Type 0 where
  pub response_outputs : List Bus
  pub response_changes : Option YaParameterChanges
  pub response_events : Option YaEventList

unfoldable pub create_response : {C : Type 0} → YaProcessData C → Response
create_response own = record {
  response_outputs = own.out_buses;
  response_changes = own.out_changes;
  response_events = own.out_events;
}
