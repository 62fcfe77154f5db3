-- ===== src/Tests/Clap.antt =====
-- The CLAP objects at concrete inputs.
use wasivst.Prelude.{
  map, ℕ, ◌≡◌, refl, true, some, List, [], ◌∷◌, ◌++◌, arith, length, get_elem?, drop, none, inl,
  All, replicate,
}
use wasivst.Prelude.Copies.{Job}
use wasivst.Prelude.Region.{region}
use wasivst.Vst3.ProcessData.{SharedAudio}
use wasivst.Vst3.ProcessData.Copies.{bus_jobs}
use wasivst.Clap.Process
use wasivst.Clap.Process.{
  HostBuffer, HostProcess, AudioBuffer, double64, Process, sample_size, resized_type, resized_rest,
  channels_of, reconstruct, receive_response, with_buffers,
}
use wasivst.Clap.Process.Inputs
use wasivst.Clap.Process.Inputs.{
  type_before, behind, samples, called_with, input_jobs, kind_of, reconstruct-repopulate,
}
use wasivst.Clap.Process.Outputs.{answered, width, Written, write_back_outputs-receive_response}
use wasivst.Clap.Events.{
  clap_core_event_space_id, other_space, clap_event_note_on, clap_event_midi_sysex,
  clap_event_param_value, EventHeader, EventType, ClapEvent, EventList, InputEvents, OutputEvents,
  repopulate, clear, write_back_outputs, input_events, output_events,
}
use wasivst.Clap.Events.Laws.{
  carried, Enumerates, repopulate_lem, push_all, write_back_outputs-push_all,
}
use wasivst.Clap.Descriptors.{Version, Descriptor, descriptor, get_descriptor}
use wasivst.Clap.Descriptors.RoundTrip.{IsMinimum, IsTextOrNone, descriptor-get_descriptor}
use wasivst.Clap.Stream.{Stream, stream, write_to_stream, istream, ostream}
use wasivst.Clap.Stream.Laws.{stream_lem, istream-IsServing}
use wasivst.Clap.Stream.Write.{write_to_stream_lem, ostream-IsTaking}

abbrev event_at : EventType → ℕ → List ℕ → ClapEvent
event_at t at sysex = record {
  header = record {
    header_size = 24;
    time = at;
    space_id = clap_core_event_space_id;
    event_type = t;
    flags = 0;
  };
  fields = 60 ∷ [];
  sysex = sysex;
}

abbrev note_on : ClapEvent
note_on = event_at clap_event_note_on 1 []

abbrev value_change : ClapEvent
value_change = event_at clap_event_param_value 3 []

abbrev three : List ClapEvent
three = note_on ∷ event_at clap_event_midi_sysex 2 (0xf0 ∷ 0xf7 ∷ []) ∷ value_change ∷ []

-- A host that holds a list of events.
abbrev host_events : InputEvents (List ClapEvent)
host_events = record { input_size = λ es. length es; input_get = λ es i. get_elem? es i }

abbrev no_events : EventList
no_events = record { events = [] }

repopulate_lem_example :
    (l : EventList) × (repopulate host_events three no_events ≡ some l)
    × Enumerates input_events l (carried three)
repopulate_lem_example =
    repopulate_lem host_events three three no_events (record { count = refl; element = λ i. refl })

-- A host that appends what it is offered.
abbrev host_output : OutputEvents (List ClapEvent)
host_output = record { try_push = λ e es. (true, es ++ e ∷ []) }

write_back_outputs-push_all_example :
    write_back_outputs host_output (push_all output_events three (clear no_events)) []
    ≡ push_all host_output (carried three) []
write_back_outputs-push_all_example = write_back_outputs-push_all host_output [] three no_events

-- Of the three events, the SysEx event is lost.
carried_run : push_all host_output (carried three) [] ≡ note_on ∷ value_change ∷ []
unfolding carried push_all wasivst.Clap.Events.Laws.is_carried
carried_run = refl

abbrev state : Stream
state = record { buffer = 1 ∷ 2 ∷ 3 ∷ 4 ∷ []; read_pos = 1 }

stream_lem_example :
    (after : Stream) × (stream istream 4 state
      ≡ some (record { buffer = 2 ∷ 3 ∷ 4 ∷ []; read_pos = 0 }, after))
stream_lem_example =
    stream_lem istream (λ s. drop s.read_pos s.buffer) istream-IsServing state 4 (omega arith)

write_to_stream_lem_example :
    (after : Stream) × (write_to_stream ostream 4 state state ≡ some after)
    × (after.buffer ≡ 1 ∷ 2 ∷ 3 ∷ 4 ∷ 1 ∷ 2 ∷ 3 ∷ 4 ∷ [])
write_to_stream_lem_example =
    write_to_stream_lem ostream (λ s. s.buffer) ostream-IsTaking state state 4 (omega arith)

-- A block of one frame: an input of two channels of floats and an output of one channel of doubles.
abbrev two_channels : HostBuffer
two_channels = record {
  host_channel_count = 2;
  host_latency = 5;
  host_constant_mask = 0;
  data32 = some ((1 ∷ 2 ∷ 3 ∷ 4 ∷ []) ∷ (5 ∷ 6 ∷ 7 ∷ 8 ∷ []) ∷ []);
  data64 = none;
}

abbrev one_channel : HostBuffer
one_channel = record {
  host_channel_count = 1;
  host_latency = 0;
  host_constant_mask = 0;
  data32 = none;
  data64 = some (replicate 10 9 ∷ []);
}

abbrev host_process : HostProcess ℕ (List ClapEvent) (List ClapEvent)
host_process = record {
  host_steady_time = 100;
  host_frames_count = 1;
  host_transport = some 7;
  host_audio_inputs = two_channels ∷ [];
  host_audio_outputs = one_channel ∷ [];
  host_in_events = some three;
  host_out_events = some [];
}

abbrev shared : SharedAudio
shared = record {
  input_offsets = (0 ∷ 4 ∷ []) ∷ [];
  output_offsets = (8 ∷ []) ∷ [];
  memory = replicate 8 0 ++ (10 ∷ 11 ∷ 12 ∷ 13 ∷ 14 ∷ 15 ∷ 16 ∷ 17 ∷ []);
}

abbrev fresh : Process ℕ
fresh = record {
  steady_time = 0;
  frames_count = 0;
  transport = none;
  audio_inputs = [];
  audio_outputs = [];
  in_events = no_events;
  out_events = no_events;
}

abbrev pointers_in : List ℕ
pointers_in = 40 ∷ []

abbrev pointers_out : List ℕ
pointers_out = 41 ∷ []

reconstruct-repopulate_example :
    (own' : Process ℕ) × (m : List ℕ) × (sent : EventList) × (Process.repopulate host_events
        host_process shared fresh
      ≡ some (own', record shared { memory = m }))
    × (reconstruct pointers_in pointers_out own'
        ≡ some (called_with host_process shared fresh pointers_in pointers_out sent))
    × Enumerates input_events sent (carried three)
    × (length m ≡ 16)
    × (All
        (λ (j : Job). region j.0 (length j.1) m ≡ j.1)
        ((0, 1 ∷ 2 ∷ 3 ∷ 4 ∷ []) ∷ (4, 5 ∷ 6 ∷ 7 ∷ 8 ∷ []) ∷ []))
unfolding input_jobs kind_of Inputs.width type_before behind bus_jobs samples
reconstruct-repopulate_example =
    reconstruct-repopulate host_events host_process shared fresh three [] three pointers_in
      pointers_out refl refl (record { count = refl; element = λ i. refl })
      (omega arith, omega arith, ((refl, omega arith), ((refl, omega arith), tt)), tt)
      (omega arith, tt) ((inl (omega arith), tt), (tt, tt)) (omega arith) (omega arith)

-- The process after the block was taken over, and what the plugin left for its output.
abbrev taken : Process ℕ
taken = record fresh {
  audio_outputs =
      record {
        buffer = record { channel_count = 1; latency = 0; constant_mask = 0 };
        buffer_type = double64;
      }
      ∷ [];
}

abbrev rendered : List AudioBuffer
rendered = record { channel_count = 1; latency = 2; constant_mask = 1 } ∷ []

write_back_outputs-receive_response_example :
    (own' : Process ℕ) × (hosts' : List HostBuffer) × (receive_response
        (record {
          response_outputs = rendered;
          response_events = push_all output_events three (clear no_events);
        })
        taken
      ≡ some own')
    × (Process.write_back_outputs host_output own' host_process shared
        ≡ some (record host_process {
          host_audio_outputs = hosts';
          host_out_events = some (push_all host_output (carried three) []);
        }))
    × Written 1
        (record {
          buffer = record { channel_count = 1; latency = 2; constant_mask = 1 };
          buffer_type = double64;
        }
          ∷ [])
        shared.output_offsets
        shared.memory
        (one_channel ∷ [])
        hosts'
    × (map (λ (h : HostBuffer). h.host_constant_mask) hosts' ≡ 1 ∷ [])
    × (map (λ (h : HostBuffer). h.host_latency) hosts' ≡ 2 ∷ [])
unfolding answered width
write_back_outputs-receive_response_example =
    write_back_outputs-receive_response host_output host_process taken shared [] rendered three
      no_events refl refl ((omega arith, omega arith, tt), tt)

abbrev sdk_version : Version
sdk_version = record { major = 1; minor = 1; revision = 9 }

abbrev newer_plugin : Descriptor
newer_plugin = record {
  clap_version = record { major = 1; minor = 2; revision = 0 };
  id = 105 ∷ 100 ∷ [];
  name = 83 ∷ 121 ∷ 110 ∷ [];
  vendor = none;
  url = some (117 ∷ []);
  manual_url = none;
  support_url = none;
  version = some (49 ∷ []);
  description = none;
  features = (97 ∷ []) ∷ (98 ∷ 99 ∷ []) ∷ [];
}

descriptor-get_descriptor_example :
    (v : Version) × (descriptor (get_descriptor sdk_version newer_plugin)
      ≡ some (record newer_plugin { clap_version = v }))
    × IsMinimum sdk_version newer_plugin.clap_version v
unfolding IsTextOrNone
descriptor-get_descriptor_example = descriptor-get_descriptor sdk_version newer_plugin (record {
  id_text = (λ e. omega (arith, e), (λ e. omega (arith, e), tt));
  name_text = (λ e. omega (arith, e), (λ e. omega (arith, e), (λ e. omega (arith, e), tt)));
  vendor_text = tt;
  url_text = (λ e. omega (arith, e), tt);
  manual_url_text = tt;
  support_url_text = tt;
  version_text = (λ e. omega (arith, e), tt);
  description_text = tt;
  features_text =
      ((λ e. omega (arith, e), tt), ((λ e. omega (arith, e), (λ e. omega (arith, e), tt)), tt));
})
