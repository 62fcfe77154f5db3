-- ===== src/Vst3/Event.antt =====
-- src/common/serialization/vst3/event-list.{h,cpp}: an event as the bridge stores it, made from an event
-- of the SDK and turned into one again.
pub mod Structs
pub mod Laws
use wasivst.Prelude.{ℕ, ◌%◌, ◌^◌, List, [], ◌∷◌, ◌++◌, length, take}
pub use Structs.*

pub record YaDataEvent : Type 0 where
  pub ya_type : ℕ
  pub buffer : List ℕ

pub record YaNoteExpressionTextEvent : Type 0 where
  pub ya_type_id : ℕ
  pub ya_note_id : ℕ
  pub ya_text : List ℕ

pub record YaChordEvent : Type 0 where
  pub ya_root : ℕ
  pub ya_bass_note : ℕ
  pub ya_mask : ℕ
  pub ya_chord_text : List ℕ

pub record YaScaleEvent : Type 0 where
  pub ya_scale_root : ℕ
  pub ya_scale_mask : ℕ
  pub ya_scale_text : List ℕ

-- `YaEvent::payload`, the variant.
pub data Payload : Type 0 where
  ya_note_on : NoteOnEvent → Payload
  ya_note_off : NoteOffEvent → Payload
  ya_data : YaDataEvent → Payload
  ya_poly_pressure : PolyPressureEvent → Payload
  ya_note_expression_value : NoteExpressionValueEvent → Payload
  ya_note_expression_text : YaNoteExpressionTextEvent → Payload
  ya_chord : YaChordEvent → Payload
  ya_scale : YaScaleEvent → Payload
  ya_midi_cc_out : LegacyMidiCcOutEvent → Payload

pub record YaEvent : Type 0 where
  pub bus_index : ℕ
  pub sample_offset : ℕ
  pub ppq_position : ℕ
  pub flags : ℕ
  pub payload : Payload

-- `tchar_pointer_to_u16string` with a length, and what `u16string_to_tchar_pointer` points to.
unfoldable pub tchar_pointer_to_u16string : List ℕ → ℕ → List ℕ
tchar_pointer_to_u16string memory n = take n memory

unfoldable pub u16string_to_tchar_pointer : List ℕ → List ℕ
u16string_to_tchar_pointer s = s ++ 0 ∷ []

-- The constructors from the SDK's structs.
unfoldable pub ya_data_event : DataEvent → YaDataEvent
ya_data_event e = record { ya_type = e.data_type; buffer = take e.size e.bytes }

unfoldable pub ya_note_expression_text_event : NoteExpressionTextEvent → YaNoteExpressionTextEvent
unfolding tchar_pointer_to_u16string
ya_note_expression_text_event e = record {
  ya_type_id = e.type_id;
  ya_note_id = e.note_id;
  ya_text = tchar_pointer_to_u16string e.text e.text_len;
}

unfoldable pub ya_chord_event : ChordEvent → YaChordEvent
unfolding tchar_pointer_to_u16string
ya_chord_event e = record {
  ya_root = e.root;
  ya_bass_note = e.bass_note;
  ya_mask = e.mask;
  ya_chord_text = tchar_pointer_to_u16string e.chord_text e.chord_text_len;
}

unfoldable pub ya_scale_event : ScaleEvent → YaScaleEvent
unfolding tchar_pointer_to_u16string
ya_scale_event e = record {
  ya_scale_root = e.scale_root;
  ya_scale_mask = e.scale_mask;
  ya_scale_text = tchar_pointer_to_u16string e.scale_text e.scale_text_len;
}

-- The `get` of each; the lengths are cast to their widths.
unfoldable pub get_data : YaDataEvent → DataEvent
get_data y = record {
  size = length y.buffer % 2 ^ 32;
  data_type = y.ya_type;
  bytes = y.buffer ++ 0 ∷ [];
}

unfoldable pub get_note_expression_text : YaNoteExpressionTextEvent → NoteExpressionTextEvent
unfolding u16string_to_tchar_pointer
get_note_expression_text y = record {
  type_id = y.ya_type_id;
  note_id = y.ya_note_id;
  text_len = length y.ya_text % 2 ^ 32;
  text = u16string_to_tchar_pointer y.ya_text;
}

unfoldable pub get_chord : YaChordEvent → ChordEvent
unfolding u16string_to_tchar_pointer
get_chord y = record {
  root = y.ya_root;
  bass_note = y.ya_bass_note;
  mask = y.ya_mask;
  chord_text_len = length y.ya_chord_text % 2 ^ 16;
  chord_text = u16string_to_tchar_pointer y.ya_chord_text;
}

unfoldable pub get_scale : YaScaleEvent → ScaleEvent
unfolding u16string_to_tchar_pointer
get_scale y = record {
  scale_root = y.ya_scale_root;
  scale_mask = y.ya_scale_mask;
  scale_text_len = length y.ya_scale_text % 2 ^ 16;
  scale_text = u16string_to_tchar_pointer y.ya_scale_text;
}

-- The `switch`; the variant's default is its first alternative, of zeros.
unfoldable pub payload_of : Member → Payload
unfolding ya_data_event ya_note_expression_text_event ya_chord_event ya_scale_event
payload_of (note_on e) = ya_note_on e
payload_of (note_off e) = ya_note_off e
payload_of (data_event e) = ya_data (ya_data_event e)
payload_of (poly_pressure e) = ya_poly_pressure e
payload_of (note_expression_value e) = ya_note_expression_value e
payload_of (note_expression_text e) = ya_note_expression_text (ya_note_expression_text_event e)
payload_of (chord e) = ya_chord (ya_chord_event e)
payload_of (scale e) = ya_scale (ya_scale_event e)
payload_of (midi_cc_out e) = ya_midi_cc_out e
payload_of (unknown t) = ya_note_on (record {
  on_channel = 0;
  on_pitch = 0;
  on_tuning = 0;
  on_velocity = 0;
  on_length = 0;
  on_note_id = 0;
})

-- `YaEvent::YaEvent(const Event&)`
unfoldable pub ya_event : Event → YaEvent
unfolding payload_of
ya_event e = record {
  bus_index = e.event_bus_index;
  sample_offset = e.event_sample_offset;
  ppq_position = e.event_ppq_position;
  flags = e.event_flags;
  payload = payload_of e.event_member;
}

-- The visitor of `YaEvent::get`.
unfoldable pub member_of : Payload → Member
unfolding get_data get_note_expression_text get_chord get_scale
member_of (ya_note_on e) = note_on e
member_of (ya_note_off e) = note_off e
member_of (ya_data y) = data_event (get_data y)
member_of (ya_poly_pressure e) = poly_pressure e
member_of (ya_note_expression_value e) = note_expression_value e
member_of (ya_note_expression_text y) = note_expression_text (get_note_expression_text y)
member_of (ya_chord y) = chord (get_chord y)
member_of (ya_scale y) = scale (get_scale y)
member_of (ya_midi_cc_out e) = midi_cc_out e

-- `YaEvent::get`
unfoldable pub get : YaEvent → Event
unfolding member_of
get y = record {
  event_bus_index = y.bus_index;
  event_sample_offset = y.sample_offset;
  event_ppq_position = y.ppq_position;
  event_flags = y.flags;
  event_member = member_of y.payload;
}
