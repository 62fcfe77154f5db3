-- ===== src/Tests/Vst2.antt =====
-- The events of VST2 plugins (src/common/serialization/vst2.cpp, src/common/communication/vst2.h) at concrete
-- inputs.
use wasivst.Prelude.{ℕ, ◌+◌, ◌≡◌, refl, none, some, List, [], ◌∷◌, arith, length, replicate, take}
use wasivst.Prelude.Bytes.{le_value}
use wasivst.Communication.{Codec}
use wasivst.Vst2.Events.{
  CEvent, CEvents, bits32, bits64, type_of, byte_size_of, with_entry, sysex_entries,
  dynamic_vst_events, as_c_events,
}
use wasivst.Vst2.Events.RoundTrip.{
  midi, sysex, message, sent_messages, seen_messages, seen_messages-as_c_events, IsRoomy,
}
use wasivst.Vst2.Events.Overrun.{as_c_events_overrun}
use wasivst.Vst2.Speakers.{DynamicSpeakerArrangement, dynamic_speaker_arrangement, as_raw_data}
use wasivst.Vst2.Speakers.RoundTrip.{dynamic_speaker_arrangement-as_raw_data}
use wasivst.Vst2.Event.{Aeffect, Vst2Event, Vst2EventResult, wants_string, string_result}
use wasivst.Vst2.Passthrough.{
  bytes, Surroundings, Callback, passthrough_event, c_string, result_of, pointed, called,
  write_results, write_payload, result_from, finished, read_payload, read_value_payload,
}
use wasivst.Vst2.Passthrough.Answers.{Answers, AnswersValue, passthrough_event-Answers}
use wasivst.Vst2.Converter.{send_event, read_data}
use wasivst.Vst2.Converter.Texts.{placed, text_at, find_zero}
use wasivst.Vst2.Converter.Bridge.{
  event_with, event_if, sent_event, sent_result, direct, send_event-direct,
}

-- A note, and three bytes of SysEx whose event has nothing useful in the place of the pointer.
abbrev note : CEvent
note = record { dump = 1 ∷ 0 ∷ 0 ∷ 0 ∷ 32 ∷ 0 ∷ 0 ∷ 0 ∷ replicate 24 5; sysex_dump = [] }

abbrev dump_request : CEvent
dump_request = record {
  dump = 6 ∷ 0 ∷ 0 ∷ 0 ∷ 3 ∷ 0 ∷ 0 ∷ 0 ∷ replicate 24 9;
  sysex_dump = 240 ∷ 1 ∷ 247 ∷ 77 ∷ [];
}

abbrev data_address : ℕ → ℕ
data_address k = 1000 + k

abbrev data_at : ℕ → List ℕ
data_at a = 240 ∷ 1 ∷ 247 ∷ []

bits32-IsRoomy : IsRoomy bits32
bits32-IsRoomy = record { behind_size = omega arith; inside = omega arith }

seen_messages-as_c_events_example :
    (c : CEvents) × (as_c_events bits32 data_address (dynamic_vst_events (dump_request ∷ note ∷ []))
      ≡ some c)
    × (c.num_events ≡ 2)
    × (seen_messages bits32 data_at c
        ≡ sysex (take 24 dump_request.dump) (240 ∷ 1 ∷ 247 ∷ []) ∷ midi note.dump ∷ [])
unfolding sent_messages message type_of byte_size_of le_value dynamic_vst_events sysex_entries
    with_entry
seen_messages-as_c_events_example =
    seen_messages-as_c_events bits32 bits32-IsRoomy data_at data_address (dump_request ∷ note ∷ [])
      (omega arith) (refl, (refl, tt)) (omega arith, refl, tt)

as_c_events_overrun_example :
    as_c_events bits64 data_address (dynamic_vst_events (note ∷ dump_request ∷ [])) ≡ none
unfolding type_of le_value
as_c_events_overrun_example =
    as_c_events_overrun bits64 data_address (note ∷ []) dump_request (omega arith) (refl, tt) refl
      refl

abbrev mono : DynamicSpeakerArrangement
mono = record { flags = 1; speakers = replicate 112 7 ∷ [] }

dynamic_speaker_arrangement-as_raw_data_example :
    (raw : List ℕ) × (as_raw_data mono (3 ∷ 4 ∷ []) ≡ some raw)
    × (length raw ≡ 120)
    × (dynamic_speaker_arrangement raw ≡ some mono)
dynamic_speaker_arrangement-as_raw_data_example =
    dynamic_speaker_arrangement-as_raw_data mono (3 ∷ 4 ∷ []) (omega arith) (refl, tt) (omega arith)

abbrev blank : Aeffect
blank = record {
  magic = 1;
  num_programs = 0;
  num_params = 0;
  num_inputs = 0;
  num_outputs = 2;
  flags = 0;
  initial_delay = 0;
  empty3a = 0;
  empty3b = 0;
  unkown_float = 0;
  unique_id = 7;
  version = 1;
  pointers = [];
}

-- A plugin that writes its name, and counts its calls.
abbrev named : Callback ℕ
named effect call calls = (
  record {
    returned = 1;
    data_after = bytes (104 ∷ 105 ∷ 0 ∷ 9 ∷ []);
    value_after = call.call_value;
    effect_after = effect;
  },
  calls + 1,
)

abbrev surroundings : Surroundings ℕ
surroundings = record {
  platform = bits64;
  address = data_address;
  uninitialized = [];
  speaker_buffer = [];
  memory = λ _ _. [];
}

-- The event that asks for a name, and its result; the serializations know just these.
abbrev asked : Vst2Event
asked = event_with 45 0 0 0 wants_string

abbrev told : Vst2EventResult
told = record {
  return_value = 1;
  result_payload = string_result (104 ∷ 105 ∷ []);
  value_result = none;
}

abbrev event_codec : Codec Vst2Event
event_codec = record { encode = λ _. 1 ∷ []; decode = λ _. some asked }

abbrev result_codec : Codec Vst2EventResult
result_codec = record { encode = λ _. 2 ∷ []; decode = λ _. some told }

send_event-direct_example :
    send_event surroundings event_codec result_codec named 45 0 0 0
      (some (0 ∷ 6 ∷ 7 ∷ 8 ∷ []))
      blank
      3
    ≡ some (1, some (104 ∷ 105 ∷ 0 ∷ 8 ∷ []), blank, 4)
unfolding direct placed text_at find_zero sent_event event_if read_data sent_result
    passthrough_event called write_results write_payload result_from finished read_payload
    read_value_payload result_of pointed c_string
send_event-direct_example =
    send_event-direct surroundings event_codec result_codec named 45 0 0 0
      (some (0 ∷ 6 ∷ 7 ∷ 8 ∷ [])) blank 3 (record { undone_at = refl; sized_at = omega arith })
      (record { undone_at = refl; sized_at = omega arith })

passthrough_event-Answers_example :
    Answers asked.payload told.result_payload × AnswersValue asked.value_payload told.value_result
unfolding passthrough_event called write_results write_payload result_from finished read_payload
    read_value_payload result_of pointed c_string
passthrough_event-Answers_example =
    passthrough_event-Answers surroundings named asked blank blank 3 4 told refl
