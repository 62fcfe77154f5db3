-- ===== src/Serial.antt =====
-- src/host/ipc/serial-channel.{h,cpp}: the framed channel over the standard streams. Standard input
-- is the list of bytes still to be read, standard output the list of those written; a call that
-- throws, or that leaves the memory of a buffer, ends with a `Fault`, and what was written before
-- stays written.
pub mod Action
pub mod Frames
pub mod Consumption
use Action.{Io, Fault, eof, out_of_bounds, Channel, pure, raise, ◌>>=◌, ◌>>◌}
use wasivst.Prelude.{
  ℕ, zero, suc, ◌+◌, ◌*◌, ◌/◌, ◌%◌, ◌^◌, Bool, true, false, List, [], ◌∷◌, ◌++◌, ltb, leb, ◌==◌,
  if◌then◌else◌, length, take, drop,
}
use wasivst.Prelude.Bytes.{le_value, le_bytes}

-- `FrameTag` has an underlying type: any byte is a value of it.
pub data FrameTag : Type 0 where
  load process process_resp set_param get_param get_param_resp log : FrameTag
  other : ℕ → FrameTag

-- `static_cast<FrameTag>` of a byte.
unfoldable pub frame_tag : ℕ → FrameTag
frame_tag b =
    if b == 0x01
    then load
    else if b == 0x02
    then process
    else if b == 0x03
    then process_resp
    else if b == 0x04
    then set_param
    else if b == 0x05
    then get_param
    else if b == 0x06
    then get_param_resp
    else if b == 0x07
    then log
    else other b

-- Samples are the bit patterns of floats.
pub record ProcessFrame : Type 0 where
  pub sample_count : ℕ
  pub channel_count : ℕ
  pub samples : List ℕ

-- `value` is the bit pattern of a double.
pub record ParamFrame : Type 0 where
  pub id : ℕ
  pub value : ℕ

-- `fread` of `len` bytes into memory that holds `room` of them: what there is is consumed, what
-- does not fit is written out of bounds, and a short read throws.
unfoldable pub read_into : ℕ → ℕ → Io (List ℕ)
read_into room len c =
    let got = take len c.input in
    let c' = record c { input = drop len c.input } in
    if ltb room (length got)
    then raise out_of_bounds c'
    else if ltb (length got) len
    then raise eof c'
    else pure got c'

unfoldable pub read_bytes : ℕ → Io (List ℕ)
unfolding read_into
read_bytes len = read_into len len

unfoldable pub write_bytes : List ℕ → Io (Unit {0})
write_bytes bytes c = pure tt (record c { output = c.output ++ bytes })

-- The first byte of a buffer that was filled with one.
abbrev first_byte : List ℕ → ℕ
first_byte [] = 0
first_byte (b ∷ bs) = b

unfoldable pub read_tag : Io ℕ
read_tag = do bytes ← read_bytes 1; pure (first_byte bytes)

unfoldable pub read_u32 : Io ℕ
read_u32 = do bytes ← read_bytes 4; pure (le_value bytes)

unfoldable pub read_f64 : Io ℕ
read_f64 = do bytes ← read_bytes 8; pure (le_value bytes)

unfoldable pub read_next_tag : Io FrameTag
read_next_tag = do b ← read_tag; pure (frame_tag b)

unfoldable pub read_load_frame_body : Io (List ℕ)
read_load_frame_body = do len ← read_u32; read_bytes len

-- A vector of floats, read back from its bytes.
unfoldable pub floats : List ℕ → List ℕ
floats (a ∷ b ∷ c ∷ d ∷ rest) = le_value (a ∷ b ∷ c ∷ d ∷ []) ∷ floats rest
floats _ = []

-- `samples.resize(audio_bytes / 4)` gives room for four bytes a sample.
unfoldable pub read_process_frame_body : Io ProcessFrame
read_process_frame_body = do
  sample_count ← read_u32
  channel_count ← read_u32
  audio_bytes ← read_u32
  bytes ← read_into (4 * (audio_bytes / 4)) audio_bytes
  pure (record {
    sample_count = sample_count;
    channel_count = channel_count;
    samples = floats bytes;
  })

unfoldable pub read_set_param_frame_body : Io ParamFrame
read_set_param_frame_body = do
  id ← read_u32
  value ← read_f64
  pure (record { id = id; value = value })

unfoldable pub read_get_param_frame_body : Io ℕ
read_get_param_frame_body = read_u32

-- The bytes of a vector of floats.
unfoldable pub float_bytes : List ℕ → List ℕ
float_bytes [] = []
float_bytes (x ∷ xs) = le_bytes 4 x ++ float_bytes xs

-- `write_bytes(channels[c], sample_count * sizeof(float))`
unfoldable pub write_floats : ℕ → List ℕ → Io (Unit {0})
write_floats count buffer =
    if ltb (length buffer) count
    then raise out_of_bounds
    else write_bytes (float_bytes (take count buffer))

-- The loop over `c`, with the list at `channels[c]`.
unfoldable pub write_channels : ℕ → ℕ → List (List ℕ) → Io (Unit {0})
write_channels zero sample_count channels = pure tt
write_channels (suc k) sample_count [] = raise out_of_bounds
write_channels (suc k) sample_count (buffer ∷ channels) =
    write_floats sample_count buffer >> write_channels k sample_count channels

unfoldable pub write_process_resp : ℕ → ℕ → List (List ℕ) → Io (Unit {0})
write_process_resp sample_count ch_count channels = do
  write_bytes (0x03 ∷ [])
  write_bytes (le_bytes 4 sample_count)
  write_bytes (le_bytes 4 ch_count)
  write_channels ch_count sample_count channels

unfoldable pub write_get_param_resp : ℕ → ℕ → Io (Unit {0})
write_get_param_resp id value = do
  write_bytes (0x06 ∷ [])
  write_bytes (le_bytes 4 id)
  write_bytes (le_bytes 8 value)

-- `static_cast<uint32_t>(strlen(…))`
abbrev u32_length : List ℕ → ℕ
u32_length text = length text % 2 ^ 32

unfoldable pub write_log : ℕ → List ℕ → List ℕ → Io (Unit {0})
write_log level subsystem message = do
  write_bytes (0x07 ∷ [])
  write_bytes (level ∷ [])
  write_bytes (le_bytes 4 (u32_length subsystem))
  write_bytes (take (u32_length subsystem) subsystem)
  write_bytes (le_bytes 4 (u32_length message))
  write_bytes (take (u32_length message) message)
