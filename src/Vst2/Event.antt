-- ===== src/Vst2/Event.antt =====
-- The events of a VST2 plugin and their results (src/common/serialization/vst2.h): the payloads that a
-- `void*` stands for, and `update_aeffect`. Structs that are copied as they are, are bytes; numbers that
-- are only handed on, and floats, are their bits.
use wasivst.Prelude.{ℕ, Option, List}
use wasivst.Vst2.Events.{DynamicVstEvents}
use wasivst.Vst2.Speakers.{DynamicSpeakerArrangement}

-- An `AEffect` and its pointers, to functions and to data.
pub record Aeffect : Type 0 where
  pub magic : ℕ
  pub num_programs : ℕ
  pub num_params : ℕ
  pub num_inputs : ℕ
  pub num_outputs : ℕ
  pub flags : ℕ
  pub initial_delay : ℕ
  pub empty3a : ℕ
  pub empty3b : ℕ
  pub unkown_float : ℕ
  pub unique_id : ℕ
  pub version : ℕ
  pub pointers : List ℕ

unfoldable pub update_aeffect : (plugin updated_plugin : Aeffect) → Aeffect
update_aeffect plugin updated_plugin = record plugin {
  magic = updated_plugin.magic;
  num_programs = updated_plugin.num_programs;
  num_params = updated_plugin.num_params;
  num_inputs = updated_plugin.num_inputs;
  num_outputs = updated_plugin.num_outputs;
  flags = updated_plugin.flags;
  initial_delay = updated_plugin.initial_delay;
  empty3a = updated_plugin.empty3a;
  empty3b = updated_plugin.empty3b;
  unkown_float = updated_plugin.unkown_float;
  unique_id = updated_plugin.unique_id;
  version = updated_plugin.version;
}

-- `Vst2Event::Payload`
pub data Payload : Type 0 where
  nullptr : Payload
  string : List ℕ → Payload
  window_handle : ℕ → Payload
  aeffect : Aeffect → Payload
  chunk_data : List ℕ → Payload
  dynamic_events : DynamicVstEvents → Payload
  dynamic_speakers : DynamicSpeakerArrangement → Payload
  wants_aeffect_update wants_audio_shm_buffer_config wants_chunk_buffer : Payload
  io_properties midi_key_name parameter_properties patch_chunk_info : List ℕ → Payload
  wants_vst_rect wants_vst_time_info wants_string : Payload

-- `Vst2EventResult::Payload`
pub data ResultPayload : Type 0 where
  no_result : ResultPayload
  string_result : List ℕ → ResultPayload
  aeffect_result : Aeffect → ResultPayload
  config_result chunk_result : List ℕ → ResultPayload
  speakers_result : DynamicSpeakerArrangement → ResultPayload
  io_properties_result midi_key_name_result parameter_properties_result : List ℕ → ResultPayload
  rect_result time_info_result : List ℕ → ResultPayload

pub record Vst2Event : Type 0 where
  pub opcode : ℕ
  pub index : ℕ
  pub value : ℕ
  pub option : ℕ
  pub payload : Payload
  pub value_payload : Option Payload

pub record Vst2EventResult : Type 0 where
  pub return_value : ℕ
  pub result_payload : ResultPayload
  pub value_result : Option ResultPayload
