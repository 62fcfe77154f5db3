-- ===== src/Vst2/Converter/Bridge.antt =====
-- A call with a text or a buffer for one, over the sockets, is what the plugin answers when it is called
-- (src/common/communication/vst2.h).
use mathlib.Core.Path.{subst}
use wasivst.Prelude.{
  ℕ, zero, suc, ◌≡◌, refl, sym, ap, ◌∙◌, Option, none, some, List, [], ◌∷◌, ◌++◌, append-nil,
}
use wasivst.Communication.{Codec, write_object, read_object, received}
use wasivst.Communication.Wire.{Carried, read_object-write_object_at}
use wasivst.Vst2.Event.{
  Aeffect, Payload, ResultPayload, nullptr, string, wants_string, string_result, Vst2Event,
  Vst2EventResult,
}
use wasivst.Vst2.Passthrough.{
  Argument, null_pointer, number, bytes, Call, Returned, Surroundings, Callback, c_string,
  string_buffer, pointed, passthrough_event, write_payload, read_payload, called, write_results,
  result_from, finished, read_value_payload, result_of,
}
use wasivst.Vst2.Converter.Texts.{text_at, placed, cleared, c_string-text_at, write_string-placed}
use wasivst.Vst2.Converter.{
  Data, read_data, read_value, write_string, write_data, process_event, exchange_event, send_event,
  text_or_none, answer, process_received, response, with_response, write_back, send_payload,
  return_value_of,
}

-- What there is, if there is anything, is carried by the serialization.
abbrev pub CarriedIf : {A : Type 0} → Codec A → Option A → Type 0
CarriedIf codec none = Unit
CarriedIf codec (some a) = Carried codec a

-- The call itself, and what the caller has then: the number that the plugin returns, and for a buffer
-- that was empty the text that the plugin wrote into one of its own.
module _ {S : Type 0} (uninitialized : List ℕ) (plugin : Callback S)
    (opcode index value option : ℕ) where
  call_with : Argument → Call
  call_with argument = record {
    call_opcode = opcode;
    call_index = index;
    call_value = number value;
    call_data = argument;
    call_option = option;
  }

  kept : Data → Returned × S → Option (ℕ × Data × Aeffect × S)
  kept dest (r, s) = some (r.returned, dest, r.effect_after, s)

  filled_in : Data → Returned × S → Option Data → Option (ℕ × Data × Aeffect × S)
  filled_in dest (r, s) none = none
  filled_in dest (r, s) (some dest') = some (r.returned, dest', r.effect_after, s)

  text_in : Argument → Option (List ℕ)
  unfolding text_at pointed
  text_in a = elim (pointed a) [ none ↦ none | some b ↦ text_at b ]

  with_text : Data → Returned × S → Option (List ℕ) → Option (ℕ × Data × Aeffect × S)
  unfolding filled_in placed
  with_text dest called none = none
  with_text dest called (some text) = filled_in dest called (placed text dest)

  direct_text : Data → Aeffect → S → Option (List ℕ) → Option (ℕ × Data × Aeffect × S)
  unfolding kept call_with
  direct_text dest effect s none = none
  direct_text dest effect s (some text) =
      kept dest (plugin effect (call_with (bytes (text ++ 0 ∷ []))) s)

  unfoldable pub direct : Data → Aeffect → S → Option (ℕ × Data × Aeffect × S)
  unfolding kept call_with with_text text_in direct_text cleared text_at
  direct none effect s = kept none (plugin effect (call_with null_pointer) s)
  direct (some []) effect s = none
  direct (some (zero ∷ cs)) effect s =
      let result = plugin effect (call_with (bytes (cleared uninitialized))) s in
      with_text (some (zero ∷ cs)) result (text_in result.0.data_after)
  direct (some (suc c ∷ cs)) effect s =
      direct_text (some (suc c ∷ cs)) effect s (text_at (suc c ∷ cs))

-- The event that is sent, and the result that is sent back.
abbrev pub event_with : (opcode index value option : ℕ) → Payload → Vst2Event
event_with opcode index value option payload = record {
  opcode = opcode;
  index = index;
  value = value;
  option = option;
  payload = payload;
  value_payload = none;
}

unfoldable pub event_if : (opcode index value option : ℕ) → Option Payload → Option Vst2Event
event_if opcode index value option none = none
event_if opcode index value option (some payload) =
    some (event_with opcode index value option payload)

unfoldable pub sent_event : (opcode index value option : ℕ) → Data → Option Vst2Event
unfolding read_data event_if
sent_event opcode index value option dest = event_if opcode index value option (read_data dest)

unfoldable pub sent_result :
    {S : Type 0}
    → Surroundings S
    → Callback S
    → Aeffect
    → S
    → Option Vst2Event
    → Option Vst2EventResult
unfolding passthrough_event
sent_result env plugin effect s none = none
sent_result env plugin effect s (some event) = elim (passthrough_event env effect plugin event s) [
  | none ↦ none
  | some (r, effect', s') ↦ some r
]

module _ {S : Type 0} (env : Surroundings S) (events : Codec Vst2Event)
    (results : Codec Vst2EventResult) (plugin : Callback S) where
  read_back :
      {A : Type 0}
      → (codec : Codec A) (a : A) → Carried codec a
      → read_object codec (write_object codec a) ≡ received a []
  read_back codec a h =
      ap (read_object codec) (sym (append-nil (write_object codec a)))
      ∙ read_object-write_object_at codec a [] h

  -- Over the sockets an event has the result that `passthrough_event` gives.
  exchange_event_lem :
      (event : Vst2Event) (effect : Aeffect) (s : S)
      → Carried events event
      → CarriedIf results (sent_result env plugin effect s (some event))
      → exchange_event env events results plugin event effect s
        ≡ passthrough_event env effect plugin event s
  unfolding exchange_event process_event process_received answer response with_response sent_result
  exchange_event_lem event effect s h = go (passthrough_event env effect plugin event s) refl
    where
      go :
          (o : Option (Vst2EventResult × Aeffect × S))
          → passthrough_event env effect plugin event s ≡ o
          → CarriedIf results (sent_result env plugin effect s (some event))
          → exchange_event env events results plugin event effect s
            ≡ passthrough_event env effect plugin event s
      go none e h' = rw (read_back events event h, exchange_event, e) refl
      go (some (r, effect', s')) e h' =
          let sent : sent_result env plugin effect s (some event) ≡ some r =
            rw (sent_result, e) refl in
          let carried : Carried results r = subst (CarriedIf results) sent h' in
          rw
            (
              read_back events event h,
              exchange_event,
              e,
              process_event,
              read_back results r carried,
            )
            refl

  module _ (opcode index value option : ℕ) where
    send_payload_lem :
        (dest : Data) (effect : Aeffect) (s : S) (p : Payload)
        → Carried events (event_with opcode index value option p)
        → CarriedIf results
            (sent_result env plugin effect s (some (event_with opcode index value option p)))
        → send_payload env events results plugin opcode index value option dest effect s (some p)
          ≡ write_back env events results plugin dest
              (passthrough_event env effect plugin (event_with opcode index value option p) s)
    unfolding send_payload read_value
    send_payload_lem dest effect s p h h' =
        ap (write_back env events results plugin dest)
          (exchange_event_lem (event_with opcode index value option p) effect s h h')

    null_lem :
        (effect : Aeffect) (s : S)
        → write_back env events results plugin none
            (passthrough_event env effect plugin (event_with opcode index value option nullptr) s)
          ≡ direct env.uninitialized plugin opcode index value option none effect s
    unfolding passthrough_event called write_results write_payload result_from finished write_back
        write_data return_value_of read_payload read_value_payload direct kept call_with
    null_lem effect s = refl

    -- A text of the caller, which the plugin is given a copy of.
    text_lem :
        (dest : Data) (effect : Aeffect) (s : S) (text : List ℕ)
        → write_back env events results plugin dest (
            passthrough_event env effect plugin
              (event_with opcode index value option (string text))
              s)
          ≡ direct_text env.uninitialized plugin opcode index value option dest effect s (some text)
    unfolding passthrough_event called write_results write_payload result_from finished write_back
        write_data return_value_of read_payload read_value_payload direct_text kept call_with
    text_lem dest effect s text = refl

    written_lem :
        (dest : Data) (r : Returned) (s : S) (t : Option (List ℕ))
        → write_back env events results plugin dest (
            finished env s
              (result_from env r.returned (result_of string_result t) (some none), r.effect_after))
          ≡ with_text env.uninitialized plugin opcode index value option dest (r, s) t
    unfolding write_back finished result_from result_of with_text filled_in write_data
        return_value_of
    written_lem dest r s none = refl
    written_lem dest r s (some text) =
        go (write_string text dest)
        ∙ ap (filled_in env.uninitialized plugin opcode index value option dest (r, s))
            (write_string-placed text dest)
      where
        go :
            (o : Option Data)
            → Path
                (Option (ℕ × Data × Aeffect × S))
                (elim o [ none ↦ none | some d ↦ some (r.returned, d, r.effect_after, s) ])
                (filled_in env.uninitialized plugin opcode index value option dest (r, s) o)
        go none = refl
        go (some d) = refl

    same_text :
        (a : Argument)
        → Path
            (Option ResultPayload)
            (elim (pointed a) [ none ↦ none | some b ↦ result_of string_result (c_string b) ])
            (result_of string_result (text_in env.uninitialized plugin opcode index value option a))
    unfolding text_in result_of
    same_text a = go (pointed a)
      where
        go :
            (o : Option (List ℕ))
            → Path
                (Option ResultPayload)
                (elim o [ none ↦ none | some b ↦ result_of string_result (c_string b) ])
                (result_of string_result (elim o [ none ↦ none | some b ↦ text_at b ]))
        go none = refl
        go (some b) = ap (result_of string_result) (c_string-text_at b)

    -- The caller's buffer, which is empty, and what the plugin leaves in its own.
    buffer_lem :
        (dest : Data) (effect : Aeffect) (s : S)
        → write_back env events results plugin dest (
            passthrough_event env effect plugin
              (event_with opcode index value option wants_string)
              s)
          ≡ (let result =
                plugin effect
                  (call_with env.uninitialized plugin opcode index value option
                    (bytes (cleared env.uninitialized)))
                  s in
              with_text env.uninitialized plugin opcode index value option dest result
                (text_in env.uninitialized plugin opcode index value option result.0.data_after))
    unfolding passthrough_event called write_results read_payload read_value_payload call_with
        write_payload text_in string_buffer cleared
    buffer_lem dest effect s =
        let result =
          plugin effect
            (call_with env.uninitialized plugin opcode index value option
              (bytes (cleared env.uninitialized)))
            s in
        let r = result.0 in
        let after = result.1 in
        let text = text_in env.uninitialized plugin opcode index value option r.data_after in
        ap
          (λ payload.
            write_back env events results plugin dest
              (finished env after (result_from env r.returned payload (some none), r.effect_after)))
          (same_text r.data_after)
        ∙ written_lem dest r after text

    text_case :
        (dest : Data) (effect : Aeffect) (s : S) (t : Option (List ℕ))
        → CarriedIf events (event_if opcode index value option (text_or_none t))
        → CarriedIf results
            (sent_result env plugin effect s (event_if opcode index value option (text_or_none t)))
        → send_payload env events results plugin opcode index value option dest effect s
            (text_or_none t)
          ≡ direct_text env.uninitialized plugin opcode index value option dest effect s t
    unfolding event_if text_or_none send_payload direct_text
    text_case dest effect s none h h' = refl
    text_case dest effect s (some text) h h' =
        send_payload_lem dest effect s (string text) h h' ∙ text_lem dest effect s text

    -- Called with a null pointer or the bytes of a buffer, where the serializations carry the event and its
    -- result, an event that is sent over the sockets with the default conversions ends as the plugin
    -- answers when it is called with the same numbers and a pointer. For a null pointer and for a text
    -- the caller has the number that is returned, and its data as it was; the plugin has a null pointer,
    -- or a copy of the text up to its first 0, with a 0. For a buffer that starts with 0 the plugin has one
    -- of 64 bytes of which the first 8 are 0, and the text that it leaves there up to the first 0 stands with
    -- a 0 at the start of the caller's buffer, the rest of which is as it was. There is no
    -- result where the caller's bytes or what the plugin leaves hold no 0, or the caller's buffer is not
    -- longer than the text.
    pub send_event-direct :
        (dest : Data) (effect : Aeffect) (s : S)
        → CarriedIf events (sent_event opcode index value option dest)
        → CarriedIf results
            (sent_result env plugin effect s (sent_event opcode index value option dest))
        → send_event env events results plugin opcode index value option dest effect s
          ≡ direct env.uninitialized plugin opcode index value option dest effect s
    unfolding send_event sent_event direct read_data send_payload
    send_event-direct none effect s h h' =
        send_payload_lem none effect s nullptr h h' ∙ null_lem effect s
    send_event-direct (some []) effect s h h' = refl
    send_event-direct (some (zero ∷ cs)) effect s h h' =
        send_payload_lem (some (zero ∷ cs)) effect s wants_string h h'
        ∙ buffer_lem (some (zero ∷ cs)) effect s
    send_event-direct (some (suc c ∷ cs)) effect s h h' =
        text_case (some (suc c ∷ cs)) effect s (c_string (suc c ∷ cs)) h h'
        ∙ ap
            (direct_text env.uninitialized plugin opcode index value option (some (suc c ∷ cs))
              effect s)
            (c_string-text_at (suc c ∷ cs))
