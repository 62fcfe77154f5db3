-- ===== src/Vst2/Passthrough/Answers.antt =====
-- Which kind of result `passthrough_event` makes for which kind of payload
-- (src/common/serialization/vst2.h, src/common/communication/vst2.h).
use mathlib.Core.Path.{subst}
use wasivst.Prelude.{if◌then◌else◌, take, ℕ, ◌≡◌, Option, none, some, List, ◌==◌, Bool, true, false}
use wasivst.Prelude.Bytes.{le_value}
use wasivst.Vst2.Speakers.{DynamicSpeakerArrangement}
use wasivst.Vst2.Event.{
  Aeffect, Payload, nullptr, string, window_handle, aeffect, chunk_data, dynamic_events,
  dynamic_speakers, wants_aeffect_update, wants_audio_shm_buffer_config, wants_chunk_buffer,
  io_properties, midi_key_name, parameter_properties, patch_chunk_info, wants_vst_rect,
  wants_vst_time_info, wants_string, ResultPayload, no_result, string_result, aeffect_result,
  chunk_result, speakers_result, io_properties_result, midi_key_name_result,
  parameter_properties_result, rect_result, time_info_result, Vst2Event, Vst2EventResult,
}
use wasivst.Vst2.Events.{DynamicVstEvents}
use wasivst.Vst2.Passthrough.{
  Argument, Returned, Surroundings, Callback, c_string, pointed, result_of, rect_at, chunk_at,
  time_info_at, read_payload, write_payload, read_value_payload, called, finished, write_results,
  result_from, present, passthrough_event,
}

-- A rectangle and the time may be missing. The other results are those that the payloads' structs declare as
-- `Response`, but for `WantsAudioShmBufferConfig`, whose configuration is put in elsewhere; a payload without
-- such a declaration has none.
pub data Answers : Payload → ResultPayload → Type 0 where
  for_nullptr : Answers nullptr no_result
  for_string : (s : List ℕ) → Answers (string s) no_result
  for_handle : (n : ℕ) → Answers (window_handle n) no_result
  for_aeffect : (a : Aeffect) → Answers (aeffect a) no_result
  for_chunk : (b : List ℕ) → Answers (chunk_data b) no_result
  for_events : (d : DynamicVstEvents) → Answers (dynamic_events d) no_result
  for_speakers : (d : DynamicSpeakerArrangement) → Answers (dynamic_speakers d) (speakers_result d)
  for_update : (a : Aeffect) → Answers wants_aeffect_update (aeffect_result a)
  for_config : Answers wants_audio_shm_buffer_config no_result
  for_chunk_buffer : (b : List ℕ) → Answers wants_chunk_buffer (chunk_result b)
  for_io : (b c : List ℕ) → Answers (io_properties b) (io_properties_result c)
  for_key_name : (b c : List ℕ) → Answers (midi_key_name b) (midi_key_name_result c)
  for_parameter : (b c : List ℕ) → Answers (parameter_properties b) (parameter_properties_result c)
  for_patch : (b : List ℕ) → Answers (patch_chunk_info b) no_result
  for_rect : (b : List ℕ) → Answers wants_vst_rect (rect_result b)
  for_no_rect : Answers wants_vst_rect no_result
  for_time : (b : List ℕ) → Answers wants_vst_time_info (time_info_result b)
  for_no_time : Answers wants_vst_time_info no_result
  for_text : (s : List ℕ) → Answers wants_string (string_result s)

-- What holds of what there is.
abbrev IfSome : {A : Type 0} → (A → Type 0) → Option A → Type 0
IfSome P none = Unit
IfSome P (some a) = P a

-- There is a result for the value just if there is a payload for it.
abbrev pub AnswersValue : Option Payload → Option ResultPayload → Type 0
AnswersValue none none = Unit
AnswersValue (some p) (some r) = Answers p r
AnswersValue _ _ = ⊥

result_of-IfSome :
    (P : ResultPayload → Type 0) (make : List ℕ → ResultPayload) (o : Option (List ℕ))
    → ((b : List ℕ) → P (make b))
    → IfSome P (result_of make o)
unfolding result_of
result_of-IfSome P make none h = tt
result_of-IfSome P make (some b) h = h b

text-IfSome :
    (o : Option (List ℕ))
    → IfSome
        (Answers wants_string)
        (elim o [ none ↦ none | some b ↦ result_of string_result (c_string b) ])
text-IfSome none = tt
text-IfSome (some b) = result_of-IfSome (Answers wants_string) string_result (c_string b) for_text

either :
    (P : ResultPayload → Type 0) (c : Bool) {a b : ResultPayload}
    → P a
    → P b
    → P (if c then a else b)
either P true h h' = h
either P false h h' = h'

rect_at-Answers : (memory : ℕ → List ℕ) (b : List ℕ) → Answers wants_vst_rect (rect_at memory b)
unfolding rect_at
rect_at-Answers memory b =
    either (Answers wants_vst_rect) (le_value (take 8 b) == 0) for_no_rect (for_rect _)

time_info_at-Answers :
    (memory : ℕ → List ℕ) (a : ℕ) → Answers wants_vst_time_info (time_info_at memory a)
unfolding time_info_at
time_info_at-Answers memory a =
    either (Answers wants_vst_time_info) (a == 0) for_no_time (for_time _)

module _ {S : Type 0} (env : Surroundings S) where
  write_payload-IfSome :
      (own dest : Argument) (r : ℕ) (effect : Aeffect) (s : S) (p : Payload)
      → IfSome (Answers p) (write_payload env own dest r effect s p).0
  unfolding write_payload chunk_at
  write_payload-IfSome own dest r effect s nullptr = for_nullptr
  write_payload-IfSome own dest r effect s (string t) = for_string t
  write_payload-IfSome own dest r effect s (window_handle n) = for_handle n
  write_payload-IfSome own dest r effect s (aeffect a) = for_aeffect a
  write_payload-IfSome own dest r effect s (chunk_data b) = for_chunk b
  write_payload-IfSome own dest r effect s (dynamic_events d) = for_events d
  write_payload-IfSome own dest r effect s (dynamic_speakers d) = for_speakers d
  write_payload-IfSome own dest r effect s wants_aeffect_update = for_update effect
  write_payload-IfSome own dest r effect s wants_audio_shm_buffer_config = for_config
  write_payload-IfSome own dest r effect s wants_chunk_buffer =
      result_of-IfSome (Answers wants_chunk_buffer) (chunk_at (env.memory s) r) (pointed dest)
        (λ b. for_chunk_buffer _)
  write_payload-IfSome own dest r effect s (io_properties b) =
      result_of-IfSome (Answers (io_properties b)) io_properties_result (pointed own) (for_io b)
  write_payload-IfSome own dest r effect s (midi_key_name b) =
      result_of-IfSome (Answers (midi_key_name b)) midi_key_name_result (pointed own)
        (for_key_name b)
  write_payload-IfSome own dest r effect s (parameter_properties b) =
      result_of-IfSome (Answers (parameter_properties b)) parameter_properties_result (pointed own)
        (for_parameter b)
  write_payload-IfSome own dest r effect s (patch_chunk_info b) = for_patch b
  write_payload-IfSome own dest r effect s wants_vst_rect =
      result_of-IfSome (Answers wants_vst_rect) (rect_at (env.memory s)) (pointed dest)
        (rect_at-Answers (env.memory s))
  write_payload-IfSome own dest r effect s wants_vst_time_info =
      time_info_at-Answers (env.memory s) r
  write_payload-IfSome own dest r effect s wants_string = text-IfSome (pointed dest)

  -- What holds of a result for an event.
  abbrev Fitting : Vst2Event → Vst2EventResult → Type 0
  Fitting event r =
      Answers event.payload r.result_payload × AnswersValue event.value_payload r.value_result

  result_from-IfSome :
      (r : ℕ) (p : Payload) (vp : Option Payload) (o : Option ResultPayload)
      (v : Option (Option ResultPayload))
      → IfSome (Answers p) o
      → IfSome (AnswersValue vp) v
      → IfSome
          (λ (x : Vst2EventResult). Answers p x.result_payload × AnswersValue vp x.value_result)
          (result_from env r o v)
  unfolding result_from
  result_from-IfSome r p vp none v h h' = tt
  result_from-IfSome r p vp (some a) none h h' = tt
  result_from-IfSome r p vp (some a) (some b) h h' = (h, h')

  present-IfSome :
      (p : Payload) (o : Option ResultPayload)
      → IfSome (Answers p) o
      → IfSome (AnswersValue (some p)) (present env o)
  unfolding present
  present-IfSome p none h = tt
  present-IfSome p (some a) h = h

  write_results-IfSome :
      (event : Vst2Event) (r : Returned) (s : S)
      → IfSome (Fitting event) (write_results env event r s).0
  unfolding write_results
  write_results-IfSome event r s = go event.value_payload
    where
      first : Option ResultPayload × Aeffect
      first = write_payload env r.data_after r.data_after r.returned r.effect_after s event.payload

      first-Answers : IfSome (Answers event.payload) first.0
      first-Answers =
          write_payload-IfSome r.data_after r.data_after r.returned r.effect_after s event.payload

      go :
          (vp : Option Payload)
          → IfSome
              (λ (x : Vst2EventResult).
                Answers event.payload x.result_payload × AnswersValue vp x.value_result)
              (elim vp as (λ _. Option Vst2EventResult × Aeffect) [
                | none ↦ (result_from env r.returned first.0 (some none), first.1)
                | some p ↦
                    let second =
                      write_payload env r.value_after r.data_after r.returned first.1 s p in
                    (result_from env r.returned first.0 (present env second.0), second.1)
              ]).0
      go none =
          result_from-IfSome r.returned event.payload none first.0 (some none) first-Answers tt
      go (some p) = result_from-IfSome r.returned event.payload (some p) first.0 _ first-Answers (
          present-IfSome p _
            (write_payload-IfSome r.value_after r.data_after r.returned first.1 s p))

  finished-IfSome :
      (P : Vst2EventResult → Type 0) (s : S) (o : Option Vst2EventResult) (e : Aeffect)
      → IfSome P o
      → IfSome (λ (x : Vst2EventResult × Aeffect × S). P x.0) (finished env s (o, e))
  unfolding finished
  finished-IfSome P s none e h = tt
  finished-IfSome P s (some r) e h = h

  called-IfSome :
      (callback : Callback S) (event : Vst2Event) (effect : Aeffect) (s : S) (a v : Option Argument)
      → IfSome
          (λ (x : Vst2EventResult × Aeffect × S). Fitting event x.0)
          (called env callback event effect s a v)
  unfolding called
  called-IfSome callback event effect s none v = tt
  called-IfSome callback event effect s (some a) none = tt
  called-IfSome callback event effect s (some a) (some v) =
      finished-IfSome (Fitting event) _ _ _ (write_results-IfSome event _ _)

  IfSome-get : {A : Type 0} (P : A → Type 0) (o : Option A) (a : A) → IfSome P o → o ≡ some a → P a
  IfSome-get P o a h e = subst (IfSome P) e h

  -- If an event passes through to the callback and back, the result for its data is of the kind of its
  -- payload: the effect for an update of it, speakers for speakers, a chunk for a payload that wants one, IO
  -- properties, a key name and parameter properties for such ones, a text for one that wants it, a rectangle
  -- or the time for one that wants it, or nothing if there is none, and nothing for each other payload, also
  -- for the one that wants the configuration of the shared memory. There is a result for the value just if
  -- the event had a payload for it, and it is of the kind of that payload.
  pub passthrough_event-Answers :
      (callback : Callback S) (event : Vst2Event) (effect effect' : Aeffect) (s s' : S)
      (r : Vst2EventResult)
      → passthrough_event env effect callback event s ≡ some (r, effect', s')
      → Answers event.payload r.result_payload × AnswersValue event.value_payload r.value_result
  unfolding passthrough_event
  passthrough_event-Answers callback event effect effect' s s' r e =
      IfSome-get (λ (x : Vst2EventResult × Aeffect × S). Fitting event x.0)
        (passthrough_event env effect callback event s) (r, effect', s')
        (called-IfSome callback event effect s (read_payload env event.payload)
          (read_value_payload env event.value event.value_payload))
        e
