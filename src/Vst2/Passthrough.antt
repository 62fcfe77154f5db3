-- ===== src/Vst2/Passthrough.antt =====
-- `passthrough_event` (src/common/communication/vst2.h): an event that was received is handed to the plugin,
-- or to the host, and its result is made of what that leaves behind. `none` is an access outside of a
-- buffer.
pub mod Answers
use wasivst.Prelude.{
  ℕ, zero, suc, Option, none, some, List, [], ◌∷◌, ◌++◌, take, ◌==◌, if◌then◌else◌, replicate,
}
use wasivst.Prelude.Bytes.{le_value}
use wasivst.Vst2.Events.{Platform, CEvents, as_c_events}
use wasivst.Vst2.Speakers.{as_c_speaker_arrangement}
use wasivst.Vst2.Event.{
  Aeffect, update_aeffect, Payload, nullptr, string, window_handle, aeffect, chunk_data,
  dynamic_events, dynamic_speakers, wants_aeffect_update, wants_audio_shm_buffer_config,
  wants_chunk_buffer, io_properties, midi_key_name, parameter_properties, patch_chunk_info,
  wants_vst_rect, wants_vst_time_info, wants_string, ResultPayload, no_result, string_result,
  aeffect_result, chunk_result, speakers_result, io_properties_result, midi_key_name_result,
  parameter_properties_result, rect_result, time_info_result, Vst2Event, Vst2EventResult,
}

-- A pointer or a number that is passed as one, with what the pointer leads to.
pub data Argument : Type 0 where
  null_pointer : Argument
  number : ℕ → Argument
  bytes : List ℕ → Argument
  vst_events : CEvents → Argument

-- What the callback is called with, besides the effect, and what it leaves behind: what its pointers
-- lead to then, and the effect.
pub record Call : Type 0 where
  pub call_opcode : ℕ
  pub call_index : ℕ
  pub call_value : Argument
  pub call_data : Argument
  pub call_option : ℕ

pub record Returned : Type 0 where
  pub returned : ℕ
  pub data_after : Argument
  pub value_after : Argument
  pub effect_after : Aeffect

-- The text up to the first 0.
unfoldable pub c_string : List ℕ → Option (List ℕ)
c_string [] = none
c_string (zero ∷ cs) = some []
c_string (suc c ∷ cs) = elim (c_string cs) [ none ↦ none | some text ↦ some (suc c ∷ text) ]

-- The buffer for texts and small objects, of which the first bytes are cleared.
unfoldable pub string_buffer : List ℕ → List ℕ
string_buffer uninitialized = replicate 8 0 ++ take 56 uninitialized

unfoldable pub pointer_to : Option (List ℕ) → Option Argument
pointer_to none = none
pointer_to (some buffer) = some (bytes buffer)

unfoldable pub pointer_to_events : Option CEvents → Option Argument
pointer_to_events none = none
pointer_to_events (some c) = some (vst_events c)

-- The bytes that a pointer leads to.
unfoldable pub pointed : Argument → Option (List ℕ)
pointed null_pointer = none
pointed (number n) = none
pointed (bytes b) = some b
pointed (vst_events c) = none

unfoldable pub result_of : (List ℕ → ResultPayload) → Option (List ℕ) → Option ResultPayload
result_of make none = none
result_of make (some b) = some (make b)

-- The sizes of a `VstRect` and of a `VstTimeInfo`.
abbrev pub rect_size : ℕ
rect_size = 8

abbrev pub time_info_size : ℕ
time_info_size = 88

-- What lies at the address that was written to the start of a buffer; null is no result.
unfoldable pub rect_at : (memory : ℕ → List ℕ) → List ℕ → ResultPayload
rect_at memory buffer =
    let address = le_value (take 8 buffer) in
    if address == 0 then no_result else rect_result (take rect_size (memory address))

unfoldable pub chunk_at : (memory : ℕ → List ℕ) → (size : ℕ) → List ℕ → ResultPayload
chunk_at memory size buffer = chunk_result (take size (memory (le_value (take 8 buffer))))

unfoldable pub time_info_at : (memory : ℕ → List ℕ) → (address : ℕ) → ResultPayload
time_info_at memory address =
    if address == 0 then no_result else time_info_result (take time_info_size (memory address))

-- The places of the data that the events point to, the content of the buffers before they are used, and
-- the memory of the callback's own side, which depends on its state.
pub record Surroundings (S : Type 0) : Type 0 where
  pub platform : Platform
  pub address : ℕ → ℕ
  pub uninitialized : List ℕ
  pub speaker_buffer : List ℕ
  pub memory : S → ℕ → List ℕ

abbrev pub Callback : Type 0 → Type 0
Callback S = Aeffect → Call → S → Returned × S

module _ {S : Type 0} (env : Surroundings S) where
  -- `read_payload_fn`
  unfoldable pub read_payload : Payload → Option Argument
  unfolding as_c_events as_c_speaker_arrangement pointer_to pointer_to_events string_buffer
  read_payload nullptr = some null_pointer
  read_payload (string s) = some (bytes (s ++ 0 ∷ []))
  read_payload (window_handle n) = some (number n)
  read_payload (aeffect a) = some null_pointer
  read_payload (chunk_data b) = some (bytes b)
  read_payload (dynamic_events d) = pointer_to_events (as_c_events env.platform env.address d)
  read_payload (dynamic_speakers d) = pointer_to (as_c_speaker_arrangement d env.speaker_buffer)
  read_payload wants_aeffect_update = some null_pointer
  read_payload wants_audio_shm_buffer_config = some null_pointer
  read_payload wants_chunk_buffer = some (bytes (string_buffer env.uninitialized))
  read_payload (io_properties b) = some (bytes b)
  read_payload (midi_key_name b) = some (bytes b)
  read_payload (parameter_properties b) = some (bytes b)
  read_payload (patch_chunk_info b) = some (bytes b)
  read_payload wants_vst_rect = some (bytes (string_buffer env.uninitialized))
  read_payload wants_vst_time_info = some null_pointer
  read_payload wants_string = some (bytes (string_buffer env.uninitialized))

  -- `write_payload_fn`, with the effect: `own` is what the payload's pointer leads to, and `dest` what
  -- the data's does.
  unfoldable pub write_payload :
      (own dest : Argument)
      → (return_value : ℕ) → Aeffect
      → S
      → Payload
      → Option ResultPayload × Aeffect
  unfolding update_aeffect result_of pointed rect_at chunk_at time_info_at c_string
  write_payload own dest r plugin s (aeffect updated) =
      (some no_result, update_aeffect plugin updated)
  write_payload own dest r plugin s (dynamic_speakers d) = (some (speakers_result d), plugin)
  write_payload own dest r plugin s wants_aeffect_update = (some (aeffect_result plugin), plugin)
  write_payload own dest r plugin s wants_chunk_buffer =
      (result_of (chunk_at (env.memory s) r) (pointed dest), plugin)
  write_payload own dest r plugin s wants_vst_rect =
      (result_of (rect_at (env.memory s)) (pointed dest), plugin)
  write_payload own dest r plugin s wants_vst_time_info =
      (some (time_info_at (env.memory s) r), plugin)
  write_payload own dest r plugin s wants_string =
      (elim (pointed dest) [ none ↦ none | some b ↦ result_of string_result (c_string b) ], plugin)
  write_payload own dest r plugin s (io_properties b) =
      (result_of io_properties_result (pointed own), plugin)
  write_payload own dest r plugin s (midi_key_name b) =
      (result_of midi_key_name_result (pointed own), plugin)
  write_payload own dest r plugin s (parameter_properties b) =
      (result_of parameter_properties_result (pointed own), plugin)
  write_payload own dest r plugin s _ = (some no_result, plugin)

  -- The value, which is replaced by a pointer if there is a payload for it.
  unfoldable pub read_value_payload : (value : ℕ) → Option Payload → Option Argument
  unfolding read_payload
  read_value_payload value none = some (number value)
  read_value_payload value (some payload) = read_payload payload

  unfoldable pub result_from :
      (return_value : ℕ)
      → Option ResultPayload
      → Option (Option ResultPayload)
      → Option Vst2EventResult
  result_from r (some payload) (some value) =
      some (record { return_value = r; result_payload = payload; value_result = value })
  result_from r _ _ = none

  unfoldable pub present : Option ResultPayload → Option (Option ResultPayload)
  present none = none
  present (some r) = some (some r)

  -- The result for the data, and then that for the value, if there is a payload for it.
  unfoldable pub write_results : Vst2Event → Returned → S → Option Vst2EventResult × Aeffect
  unfolding write_payload result_from present
  write_results event r s =
      let (payload, plugin) =
        write_payload r.data_after r.data_after r.returned r.effect_after s event.payload in
      elim event.value_payload [
        | none ↦ (result_from r.returned payload (some none), plugin)
        | some p ↦
            let (value, plugin') = write_payload r.value_after r.data_after r.returned plugin s p in
            (result_from r.returned payload (present value), plugin')
      ]

  -- What is kept of a call: the result, the effect and the state.
  unfoldable pub finished :
      S → Option Vst2EventResult × Aeffect → Option (Vst2EventResult × Aeffect × S)
  finished s (none, plugin) = none
  finished s (some result, plugin) = some (result, plugin, s)

  unfoldable pub called :
      Callback S
      → Vst2Event
      → Aeffect
      → S
      → Option Argument
      → Option Argument
      → Option (Vst2EventResult × Aeffect × S)
  unfolding write_results finished
  called callback event plugin s (some argument) (some value) =
      let (r, s') =
        callback plugin
          (record {
            call_opcode = event.opcode;
            call_index = event.index;
            call_value = value;
            call_data = argument;
            call_option = event.option;
          })
          s in
      finished s' (write_results event r s')
  called callback event plugin s _ _ = none

  unfoldable pub passthrough_event :
      Aeffect → Callback S → Vst2Event → S → Option (Vst2EventResult × Aeffect × S)
  unfolding read_payload read_value_payload called
  passthrough_event plugin callback event s =
      called callback event plugin s (read_payload event.payload)
        (read_value_payload event.value event.value_payload)
