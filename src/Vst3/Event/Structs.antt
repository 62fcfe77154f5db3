-- ===== src/Vst3/Event/Structs.antt =====
-- The events of the VST3 SDK as src/common/serialization/vst3/event-list.{h,cpp} reads them: the fields
-- of an event, and the member of its union that its type selects. A pointer is the memory behind it,
-- of which the event's length says how much is its own. Numbers are bit patterns.
use wasivst.Prelude.{ℕ, List}

pub record NoteOnEvent : Type 0 where
  pub on_channel : ℕ
  pub on_pitch : ℕ
  pub on_tuning : ℕ
  pub on_velocity : ℕ
  pub on_length : ℕ
  pub on_note_id : ℕ

pub record NoteOffEvent : Type 0 where
  pub off_channel : ℕ
  pub off_pitch : ℕ
  pub off_velocity : ℕ
  pub off_note_id : ℕ
  pub off_tuning : ℕ

pub record PolyPressureEvent : Type 0 where
  pub pressure_channel : ℕ
  pub pressure_pitch : ℕ
  pub pressure : ℕ
  pub pressure_note_id : ℕ

pub record NoteExpressionValueEvent : Type 0 where
  pub value_type_id : ℕ
  pub value_note_id : ℕ
  pub expression : ℕ

pub record LegacyMidiCcOutEvent : Type 0 where
  pub control_number : ℕ
  pub cc_channel : ℕ
  pub cc_value : ℕ
  pub cc_value2 : ℕ

-- `Steinberg::Vst::DataEvent`
pub record DataEvent : Type 0 where
  pub size : ℕ
  pub data_type : ℕ
  pub bytes : List ℕ

-- `Steinberg::Vst::NoteExpressionTextEvent`
pub record NoteExpressionTextEvent : Type 0 where
  pub type_id : ℕ
  pub note_id : ℕ
  pub text_len : ℕ
  pub text : List ℕ

-- `Steinberg::Vst::ChordEvent`
pub record ChordEvent : Type 0 where
  pub root : ℕ
  pub bass_note : ℕ
  pub mask : ℕ
  pub chord_text_len : ℕ
  pub chord_text : List ℕ

-- `Steinberg::Vst::ScaleEvent`
pub record ScaleEvent : Type 0 where
  pub scale_root : ℕ
  pub scale_mask : ℕ
  pub scale_text_len : ℕ
  pub scale_text : List ℕ

-- The type of an event, with the member of the union; another type is `unknown`.
pub data Member : Type 0 where
  note_on : NoteOnEvent → Member
  note_off : NoteOffEvent → Member
  data_event : DataEvent → Member
  poly_pressure : PolyPressureEvent → Member
  note_expression_value : NoteExpressionValueEvent → Member
  note_expression_text : NoteExpressionTextEvent → Member
  chord : ChordEvent → Member
  scale : ScaleEvent → Member
  midi_cc_out : LegacyMidiCcOutEvent → Member
  unknown : ℕ → Member

-- `Steinberg::Vst::Event`
pub record Event : Type 0 where
  pub event_bus_index : ℕ
  pub event_sample_offset : ℕ
  pub event_ppq_position : ℕ
  pub event_flags : ℕ
  pub event_member : Member
