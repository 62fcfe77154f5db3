-- ===== src/Clap/Events.antt =====
-- src/common/serialization/clap/events.{h,cpp}: the event lists. An event is what a
-- `clap_event_header_t*` points to: its header, the fields behind it, which the bridge copies as
-- they are, and the bytes behind the pointer that a SysEx event holds. The two numbers that the code
-- tests, the space and the type of an event, are its constants from the CLAP headers by name.
pub mod Laws
use wasivst.Prelude.{
  ℕ, zero, suc, Bool, true, Option, none, some, List, [], ◌∷◌, ◌++◌, length, get_elem?,
}

pub data SpaceId : Type 0 where
  clap_core_event_space_id : SpaceId
  other_space : ℕ → SpaceId

pub data EventType : Type 0 where
  clap_event_note_on clap_event_note_off clap_event_note_choke clap_event_note_end : EventType
  clap_event_note_expression clap_event_param_value clap_event_param_mod : EventType
  clap_event_param_gesture_begin clap_event_param_gesture_end : EventType
  clap_event_transport clap_event_midi clap_event_midi_sysex clap_event_midi2 : EventType
  other_type : ℕ → EventType

-- `clap_event_header_t`
pub record EventHeader : Type 0 where
  pub header_size : ℕ
  pub time : ℕ
  pub space_id : SpaceId
  pub event_type : EventType
  pub flags : ℕ

pub record ClapEvent : Type 0 where
  pub header : EventHeader
  pub fields : List ℕ
  pub sysex : List ℕ

-- `Event::payload`, the variant.
pub data Payload : Type 0 where
  note note_expression param_value param_mod param_gesture transport midi : ClapEvent → Payload
  midi_sysex : ClapEvent → List ℕ → Payload
  midi2 : ClapEvent → Payload

-- The `switch`. The branch for SysEx events makes a payload that it does not store.
unfoldable pub parse_core : EventType → ClapEvent → Option Payload
parse_core clap_event_note_on e = some (note e)
parse_core clap_event_note_off e = some (note e)
parse_core clap_event_note_choke e = some (note e)
parse_core clap_event_note_end e = some (note e)
parse_core clap_event_note_expression e = some (note_expression e)
parse_core clap_event_param_value e = some (param_value e)
parse_core clap_event_param_mod e = some (param_mod e)
parse_core clap_event_param_gesture_begin e = some (param_gesture e)
parse_core clap_event_param_gesture_end e = some (param_gesture e)
parse_core clap_event_transport e = some (transport e)
parse_core clap_event_midi e = some (midi e)
parse_core clap_event_midi_sysex e = none
parse_core clap_event_midi2 e = some (midi2 e)
parse_core (other_type t) e = none

parse_space : SpaceId → ClapEvent → Option Payload
unfolding parse_core
parse_space clap_core_event_space_id e = parse_core e.header.event_type e
parse_space (other_space n) e = none

-- `Event::parse`
unfoldable pub parse : ClapEvent → Option Payload
unfolding parse_space
parse e = parse_space e.header.space_id e

-- `Event::get`, with what the pointer points to.
unfoldable pub get : Payload → ClapEvent
get (note e) = e
get (note_expression e) = e
get (param_value e) = e
get (param_mod e) = e
get (param_gesture e) = e
get (transport e) = e
get (midi e) = e
get (midi_sysex e buffer) = record e { sysex = buffer }
get (midi2 e) = e

pub record EventList : Type 0 where
  pub events : List Payload

-- `clap_input_events_t` and `clap_output_events_t` of a host or a plugin with state `T`; `none` is
-- the null pointer.
pub record InputEvents (T : Type 0) : Type 0 where
  pub input_size : T → ℕ
  pub input_get : T → ℕ → Option ClapEvent

pub record OutputEvents (T : Type 0) : Type 0 where
  pub try_push : ClapEvent → T → Bool × T

-- `emplace_back` of a parsed event, in front of those that follow.
keep : Option Payload → List Payload → List Payload
keep none rest = rest
keep (some p) rest = p ∷ rest

-- The events from `i` on, `count` of them; `none` where `assert(event)` fails.
unfoldable pub collect : (ℕ → Option ClapEvent) → (count i : ℕ) → Option (List Payload)
unfolding keep parse
collect get_at zero i = some []
collect get_at (suc k) i = elim (get_at i) [
  | none ↦ none
  | some event ↦ elim (collect get_at k (suc i)) [
    | none ↦ none
    | some rest ↦ some (keep (parse event) rest)
  ]
]

filled : Option (List Payload) → Option EventList
filled none = none
filled (some ps) = some (record { events = ps })

unfoldable pub clear : EventList → EventList
clear l = record { events = [] }

module _ {T : Type 0} where
  -- The old events are dropped.
  unfoldable pub repopulate : InputEvents T → T → EventList → Option EventList
  unfolding collect filled
  repopulate input host l = filled (collect (input.input_get host) (input.input_size host) 0)

  write_back_events : OutputEvents T → List Payload → T → T
  unfolding get
  write_back_events output [] host = host
  write_back_events output (p ∷ ps) host =
      write_back_events output ps (output.try_push (get p) host).1

  unfoldable pub write_back_outputs : OutputEvents T → EventList → T → T
  unfolding write_back_events
  write_back_outputs output l host = write_back_events output l.events host

unfoldable pub in_size : EventList → ℕ
in_size l = length l.events

unfoldable pub in_get : EventList → ℕ → Option ClapEvent
unfolding get
in_get l i = elim (get_elem? l.events i) [ none ↦ none | some p ↦ some (get p) ]

append_parsed : Option Payload → EventList → EventList
append_parsed none l = l
append_parsed (some p) l = record { events = l.events ++ p ∷ [] }

unfoldable pub out_try_push : ClapEvent → EventList → Bool × EventList
unfolding parse append_parsed
out_try_push e l = (true, append_parsed (parse e) l)

-- The vtables that `input_events` and `output_events` fill in.
abbrev pub input_events : InputEvents EventList
input_events = record { input_size = in_size; input_get = in_get }

abbrev pub output_events : OutputEvents EventList
output_events = record { try_push = out_try_push }
