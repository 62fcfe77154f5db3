-- ===== src/Worklet/Dispatch.antt =====
-- `#drainAndDispatch` and `#decodeProcessResp` of src/worklet/wasivst.js: the browser takes the frames
-- of the host process from the bytes that it has received. `DataView.getUint32` throws a
-- `RangeError` beyond the bytes of its view. Texts are the bytes that `TextDecoder` decodes.
use wasivst.Prelude.{
  ℕ, zero, suc, ◌+◌, ◌*◌, List, [], ◌∷◌, ltb, ◌==◌, if◌then◌else◌, length, take, drop,
}
use wasivst.Prelude.Bytes.{le_value}
use wasivst.Serial.{floats}

-- What reaches the page: decoded audio, a parameter's value, an entry of the log.
pub data Message : Type 0 where
  process_resp : List (List ℕ) → Message
  param_value : ℕ → ℕ → Message
  log_entry : ℕ → List ℕ → List ℕ → Message

-- One round of the loop over `#rxBuf`: it stops and waits for bytes, throws, takes a frame, or shifts
-- a byte away.
pub data Round : Type 0 where
  wait range_error : Round
  frame : Message → List ℕ → Round
  skip : List ℕ → Round

-- `dv.getUint32(offset, true)`, within the view.
unfoldable pub get_uint32 : List ℕ → ℕ → ℕ
get_uint32 bytes offset = le_value (take 4 (drop offset bytes))

-- The loop over the channels in `#decodeProcessResp`.
unfoldable pub rows : ℕ → ℕ → List ℕ → List (List ℕ)
rows zero n xs = []
rows (suc ch) n xs = take n xs ∷ rows ch n (drop n xs)

unfoldable pub decode_process_resp : List ℕ → Message
unfolding rows get_uint32
decode_process_resp bytes =
    process_resp (rows (get_uint32 bytes 5) (get_uint32 bytes 1) (floats (drop 9 bytes)))

-- `splice(0, total)` once the buffer holds the whole frame.
unfoldable pub splice : List ℕ → ℕ → (List ℕ → Message) → Round
splice rx total decode =
    if ltb (length rx) total then wait else frame (decode (take total rx)) (drop total rx)

unfoldable pub take_process_resp : List ℕ → Round
unfolding splice get_uint32 decode_process_resp
take_process_resp rx =
    if ltb (length rx) 9
    then wait
    else splice rx (9 + get_uint32 rx 1 * get_uint32 rx 5 * 4) decode_process_resp

unfoldable pub decode_param : List ℕ → Message
unfolding get_uint32
decode_param bytes = param_value (get_uint32 bytes 1) (le_value (take 8 (drop 5 bytes)))

unfoldable pub take_param : List ℕ → Round
take_param rx = if ltb (length rx) 13 then wait else splice rx 13 decode_param

-- The byte at an index, within the frame.
abbrev byte_at : List ℕ → ℕ → ℕ
byte_at [] i = 0
byte_at (b ∷ bs) zero = b
byte_at (b ∷ bs) (suc i) = byte_at bs i

unfoldable pub decode_log : ℕ → ℕ → List ℕ → Message
decode_log sub_len msg_len bytes =
    log_entry (byte_at bytes 1) (take sub_len (drop 6 bytes))
      (take msg_len (drop (10 + sub_len) bytes))

-- The second length stands behind the first text, and is read once ten bytes are there.
unfoldable pub take_log : List ℕ → Round
unfolding splice get_uint32 decode_log
take_log rx =
    let sub_len = get_uint32 rx 2 in
    let msg_len = get_uint32 rx (6 + sub_len) in
    if ltb (length rx) 10
    then wait
    else if ltb (length rx) (6 + sub_len + 4)
    then range_error
    else splice rx (10 + sub_len + msg_len) (decode_log sub_len msg_len)

unfoldable pub next_frame : List ℕ → Round
unfolding take_process_resp take_param take_log splice decode_param
next_frame [] = wait
next_frame (tag ∷ bytes) =
    let rx = tag ∷ bytes in
    if tag == 0x03
    then take_process_resp rx
    else if tag == 0x06
    then take_param rx
    else if tag == 0x07
    then take_log rx
    else skip bytes

-- The messages that one call of the loop dispatches, and the bytes that it leaves in the buffer. A
-- `RangeError` leaves the buffer as it is.
pub record Drained : Type 0 where
  pub messages : List Message
  pub buffer : List ℕ

unfoldable pub dispatched : Message → Drained → Drained
dispatched m d = record d { messages = m ∷ d.messages }

-- The loop, for a number of rounds.
unfoldable pub drain : ℕ → List ℕ → Drained
unfolding next_frame dispatched
drain zero rx = record { messages = []; buffer = rx }
drain (suc rounds) rx = elim (next_frame rx) [
  | wait ↦ record { messages = []; buffer = rx }
  | range_error ↦ record { messages = []; buffer = rx }
  | frame m rest ↦ dispatched m (drain rounds rest)
  | skip rest ↦ drain rounds rest
]
