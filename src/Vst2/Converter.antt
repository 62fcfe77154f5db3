-- ===== src/Vst2/Converter.antt =====
-- The caller's side: `DefaultDataConverter` (src/common/communication/vst2.cpp) and
-- `Vst2EventHandler::send_event` with it, whose other side is `receive_events` with `passthrough_event`
-- (src/common/communication/vst2.h). `none` is an exception or an access outside of a buffer. The handlers'
-- logging is left out.
pub mod Texts
pub mod Bridge
use wasivst.Prelude.{
  ℕ, zero, suc, ◌+◌, Option, none, some, List, [], ◌∷◌, ◌++◌, length, leb, if◌then◌else◌,
}
use wasivst.Prelude.Vector.{copy_at}
use wasivst.Communication.{
  Codec, write_object, read_object, received, system_error, runtime_error, Received,
}
use wasivst.Vst2.Event.{
  Aeffect, Payload, nullptr, string, wants_string, ResultPayload, string_result, Vst2Event,
  Vst2EventResult,
}
use wasivst.Vst2.Passthrough.{Surroundings, Callback, c_string, passthrough_event}

-- A `void*` that is null or leads to some bytes.
abbrev pub Data : Type 0
Data = Option (List ℕ)

text_or_none : Option (List ℕ) → Option Payload
text_or_none none = none
text_or_none (some s) = some (string s)

unfoldable pub read_data : Data → Option Payload
unfolding c_string text_or_none
read_data none = some nullptr
read_data (some []) = none
read_data (some (zero ∷ cs)) = some wants_string
read_data (some (suc c ∷ cs)) = text_or_none (c_string (suc c ∷ cs))

unfoldable pub read_value : (value : ℕ) → Option Payload
read_value value = none

-- A text with its terminator into a buffer.
unfoldable pub write_string : List ℕ → Data → Option Data
unfolding copy_at
write_string s none = none
write_string s (some buffer) =
    if leb (length s + 1) (length buffer)
    then some (some (copy_at 0 (s ++ 0 ∷ []) buffer))
    else none

unfoldable pub write_data : Data → ResultPayload → Option Data
unfolding write_string
write_data dest (string_result s) = write_string s dest
write_data dest _ = some dest

unfoldable pub return_value_of : (original : ℕ) → ℕ
return_value_of original = original

module _ {S : Type 0} (env : Surroundings S) (events : Codec Vst2Event)
    (results : Codec Vst2EventResult) (plugin : Callback S) where
  answer : Option (Vst2EventResult × Aeffect × S) → Option (List ℕ × Aeffect × S)
  unfolding write_object
  answer none = none
  answer (some (r, effect, s)) = some (write_object results r, effect, s)

  process_received : Received Vst2Event → Aeffect → S → Option (List ℕ × Aeffect × S)
  unfolding answer passthrough_event
  process_received (received event rest) effect s =
      answer (passthrough_event env effect plugin event s)
  process_received system_error effect s = none
  process_received runtime_error effect s = none

  -- `process_event`: an event is read, handled, and its result is written.
  unfoldable pub process_event : (socket : List ℕ) → Aeffect → S → Option (List ℕ × Aeffect × S)
  unfolding process_received read_object
  process_event socket effect s = process_received (read_object events socket) effect s

  response : Received Vst2EventResult → Option Vst2EventResult
  response (received r rest) = some r
  response system_error = none
  response runtime_error = none

  with_response : Aeffect → S → Option Vst2EventResult → Option (Vst2EventResult × Aeffect × S)
  with_response effect s none = none
  with_response effect s (some r) = some (r, effect, s)

  -- `DefaultDataConverter::send_event`, while the other side processes the event.
  unfoldable pub exchange_event : Vst2Event → Aeffect → S → Option (Vst2EventResult × Aeffect × S)
  unfolding process_event write_object read_object response with_response
  exchange_event event effect s = elim (process_event (write_object events event) effect s) [
    | none ↦ none
    | some (socket, effect', s') ↦ with_response effect' s' (response (read_object results socket))
  ]

  write_back : Data → Option (Vst2EventResult × Aeffect × S) → Option (ℕ × Data × Aeffect × S)
  unfolding write_data return_value_of
  write_back dest none = none
  write_back dest (some (r, effect, s)) = elim (write_data dest r.result_payload) [
    | none ↦ none
    | some dest' ↦ some (return_value_of r.return_value, dest', effect, s)
  ]

  send_payload :
      (opcode index value option : ℕ)
      → Data
      → Aeffect
      → S
      → Option Payload
      → Option (ℕ × Data × Aeffect × S)
  unfolding exchange_event write_back read_value
  send_payload opcode index value option dest effect s none = none
  send_payload opcode index value option dest effect s (some payload) = write_back dest (
      exchange_event
        (record {
          opcode = opcode;
          index = index;
          value = value;
          option = option;
          payload = payload;
          value_payload = read_value value;
        })
        effect s)

  -- `Vst2EventHandler::send_event`: what the caller gets, with what its pointer leads to then.
  unfoldable pub send_event :
      (opcode index value option : ℕ) → Data → Aeffect → S → Option (ℕ × Data × Aeffect × S)
  unfolding send_payload read_data
  send_event opcode index value option dest effect s =
      send_payload opcode index value option dest effect s (read_data dest)
