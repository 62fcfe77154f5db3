-- ===== src/Worklet/Received.antt =====
-- The frames that src/host/ipc/serial-channel.cpp writes, as `#drainAndDispatch` of
-- src/worklet/wasivst.js takes them from its buffer.
use mathlib.Core.List.{flatten}
use wasivst.Prelude.{
  ℕ, suc, ◌+◌, ◌*◌, ◌<◌, ◌≡◌, refl, ap, ◌∙◌, List, [], ◌∷◌, ◌++◌, arith, append_assoc, true, false,
  length, All, take, length-append, take-append_length, drop-append_length, length-take, take_all,
  lt→ltb, drop-append_add, ltb, le→not_ltb,
}
use wasivst.Prelude.Bytes.{
  le_bytes, IsU32, IsU64, length-le_bytes, le_value-le_bytes4, le_value-le_bytes8,
}
use wasivst.Serial.{floats}
use wasivst.Serial.Frames.{
  audio_bytes, HasLength, process_resp_frame, get_param_resp_frame, log_frame, floats-float_bytes,
}
use wasivst.Worklet.RoundTrip.{audio_bytes-flatten, length-audio_bytes, All-flatten}
use wasivst.Worklet.Dispatch.{
  Message, process_resp, param_value, log_entry, range_error, frame, get_uint32, rows,
  decode_process_resp, take_param, decode_param, decode_log, splice, take_process_resp, take_log,
  next_frame,
}

rows-flatten :
    (n : ℕ) (bufs : List (List ℕ))
    → All (HasLength n) bufs
    → rows (length bufs) n (flatten bufs) ≡ bufs
unfolding rows flatten
rows-flatten n [] h = refl
rows-flatten n (b ∷ bs) (hb, hbs) =
    let front = rw hb at (take-append_length b (flatten bs)) in
    let back = rw hb at (drop-append_length b (flatten bs)) in
    rw (front, back) (ap (λ t. b ∷ t) (rows-flatten n bs hbs))

-- A frame that the buffer begins with is taken off whole.
splice-append :
    (bytes rest : List ℕ) (total : ℕ) (decode : List ℕ → Message)
    → length bytes ≡ total
    → splice (bytes ++ rest) total decode ≡ frame (decode bytes) rest
unfolding splice
splice-append bytes rest total decode e =
    let front = rw e at (take-append_length bytes rest) in
    let back = rw e at (drop-append_length bytes rest) in
    let enough : ltb (length (bytes ++ rest)) total ≡ false =
      le→not_ltb _ _ (omega (arith, length-append bytes rest)) in
    rw (enough, front, back) refl

module _ (n : ℕ) (outs : List (List ℕ)) (rest : List ℕ) where
  resp_fields :
      IsU32 n
      → IsU32 (length outs)
      → (get_uint32 (process_resp_frame n outs ++ rest) 1 ≡ n)
        × (get_uint32 (process_resp_frame n outs ++ rest) 5 ≡ length outs)
  unfolding get_uint32 process_resp_frame le_bytes
  resp_fields hn hc = (le_value-le_bytes4 n hn, le_value-le_bytes4 (length outs) hc)

  length-resp :
      All (HasLength n) outs → length (process_resp_frame n outs) ≡ 9 + n * length outs * 4
  unfolding process_resp_frame le_bytes
  length-resp h = omega (arith, length-audio_bytes n outs h)

  decode_resp :
      IsU32 n
      → IsU32 (length outs)
      → All (HasLength n) outs
      → All (All IsU32) outs
      → decode_process_resp (process_resp_frame n outs) ≡ process_resp outs
  unfolding decode_process_resp get_uint32 process_resp_frame le_bytes
  decode_resp hn hc h hs =
      let audio : floats (audio_bytes outs) ≡ flatten outs =
        rw audio_bytes-flatten (floats-float_bytes (flatten outs) (All-flatten IsU32 outs hs)) in
      rw (audio, le_value-le_bytes4 n hn, le_value-le_bytes4 (length outs) hc)
        (ap process_resp (rows-flatten n outs h))

  take_resp :
      IsU32 n
      → IsU32 (length outs)
      → All (HasLength n) outs
      → All (All IsU32) outs
      → take_process_resp (process_resp_frame n outs ++ rest) ≡ frame (process_resp outs) rest
  unfolding take_process_resp
  take_resp hn hc h hs =
      let whole = process_resp_frame n outs in
      let (samples, channels) = resp_fields hn hc in
      let long : ltb (length (whole ++ rest)) 9 ≡ false =
        le→not_ltb _ _ (omega (arith, length-resp h, length-append whole rest)) in
      rw (long, samples, channels)
        (splice-append whole rest _ decode_process_resp (length-resp h)
          ∙ ap (λ m. frame m rest) (decode_resp hn hc h hs))

  -- The browser takes an audio answer from its buffer as the channels that were written.
  pub next_frame-process_resp :
      IsU32 n
      → IsU32 (length outs)
      → All (HasLength n) outs
      → All (All IsU32) outs
      → next_frame (process_resp_frame n outs ++ rest) ≡ frame (process_resp outs) rest
  unfolding next_frame process_resp_frame
  next_frame-process_resp hn hc h hs = take_resp hn hc h hs

module _ (id value : ℕ) where
  decode_param-frame :
      IsU32 id → IsU64 value → decode_param (get_param_resp_frame id value) ≡ param_value id value
  unfolding decode_param get_uint32 get_param_resp_frame le_bytes
  decode_param-frame hi hv = rw (le_value-le_bytes4 id hi, le_value-le_bytes8 value hv) refl

  length-param : length (get_param_resp_frame id value) ≡ 13
  unfolding get_param_resp_frame le_bytes
  length-param = refl

  take_param-frame :
      (rest : List ℕ)
      → IsU32 id
      → IsU64 value
      → take_param (get_param_resp_frame id value ++ rest) ≡ frame (param_value id value) rest
  unfolding take_param
  take_param-frame rest hi hv =
      let whole = get_param_resp_frame id value in
      let long : ltb (length (whole ++ rest)) 13 ≡ false =
        le→not_ltb _ _ (omega (arith, length-param, length-append whole rest)) in
      rw long (
        splice-append whole rest 13 decode_param length-param
        ∙ ap (λ m. frame m rest) (decode_param-frame hi hv))

  -- The browser takes a parameter's value from its buffer as it was written.
  pub next_frame-param :
      (rest : List ℕ)
      → IsU32 id
      → IsU64 value
      → next_frame (get_param_resp_frame id value ++ rest) ≡ frame (param_value id value) rest
  unfolding next_frame get_param_resp_frame
  next_frame-param rest hi hv = take_param-frame rest hi hv

module _ (level : ℕ) (subsystem message : List ℕ) where
  length-log_frame :
      length (log_frame level subsystem message) ≡ 10 + length subsystem + length message
  unfolding log_frame le_bytes
  length-log_frame = omega (
    arith,
    length-append subsystem (le_bytes 4 (length message) ++ message),
    length-append (le_bytes 4 (length message)) message,
    length-le_bytes 4 (length message),
  )

  first_length :
      (tail : List ℕ)
      → IsU32 (length subsystem)
      → get_uint32 (0x07 ∷ level ∷ (le_bytes 4 (length subsystem) ++ tail)) 2 ≡ length subsystem
  unfolding get_uint32 le_bytes
  first_length tail hs = le_value-le_bytes4 (length subsystem) hs

  second_length :
      (tail : List ℕ)
      → IsU32 (length message)
      → get_uint32
          (0x07
            ∷ level
            ∷ (le_bytes 4 (length subsystem)
                ++ (subsystem ++ (le_bytes 4 (length message) ++ tail))))
          (6 + length subsystem)
        ≡ length message
  unfolding get_uint32
  second_length tail hm =
      let six : 6 + length subsystem ≡ suc (suc (4 + length subsystem)) = omega arith in
      let four : length (le_bytes 4 (length subsystem)) ≡ 4 =
        length-le_bytes 4 (length subsystem) in
      let past = rw four at (
        drop-append_add (le_bytes 4 (length subsystem))
          (subsystem ++ (le_bytes 4 (length message) ++ tail)) (length subsystem)) in
      rw (six, past, drop-append_length subsystem (le_bytes 4 (length message) ++ tail))
        (unfold le_bytes in le_value-le_bytes4 (length message) hm)

  decode_log-frame :
      decode_log (length subsystem) (length message) (log_frame level subsystem message)
      ≡ log_entry level subsystem message
  unfolding decode_log log_frame le_bytes
  decode_log-frame =
      let header = le_bytes 4 (length message) in
      let ten : 10 + length subsystem ≡ suc (suc (suc (suc (suc (suc (length subsystem + 4)))))) =
        omega arith in
      rw
        (
          ten,
          take-append_length subsystem (header ++ message),
          drop-append_add subsystem (header ++ message) 4,
          take_all (length message) message (omega arith),
        )
        refl

  log_frame-append :
      (rest : List ℕ)
      → log_frame level subsystem message ++ rest
        ≡ 0x07
          ∷ level
          ∷ (le_bytes 4 (length subsystem)
              ++ (subsystem ++ (le_bytes 4 (length message) ++ (message ++ rest))))
  unfolding log_frame
  log_frame-append rest = simp append_assoc

  take_log-frame :
      (rest : List ℕ)
      → IsU32 (length subsystem)
      → IsU32 (length message)
      → take_log (log_frame level subsystem message ++ rest)
        ≡ frame (log_entry level subsystem message) rest
  unfolding take_log
  take_log-frame rest hs hm =
      let whole = log_frame level subsystem message in
      let first : get_uint32 (whole ++ rest) 2 ≡ length subsystem =
        rw log_frame-append (first_length _ hs) in
      let second : get_uint32 (whole ++ rest) (6 + length subsystem) ≡ length message =
        rw log_frame-append (second_length _ hm) in
      let long : ltb (length (whole ++ rest)) 10 ≡ false =
        le→not_ltb _ _ (omega (arith, length-log_frame, length-append whole rest)) in
      let longer : ltb (length (whole ++ rest)) (6 + length subsystem + 4) ≡ false =
        le→not_ltb _ _ (omega (arith, length-log_frame, length-append whole rest)) in
      rw (first, second, long, longer)
        (splice-append whole rest _ (decode_log (length subsystem) (length message))
            length-log_frame
          ∙ ap (λ m. frame m rest) decode_log-frame)

  -- The browser takes an entry of the log, whose texts' lengths fit 32 bits, from its buffer as it was
  -- written.
  pub next_frame-log :
      (rest : List ℕ)
      → IsU32 (length subsystem)
      → IsU32 (length message)
      → next_frame (log_frame level subsystem message ++ rest)
        ≡ frame (log_entry level subsystem message) rest
  unfolding next_frame log_frame
  next_frame-log rest hs hm = take_log-frame rest hs hm

  take_log_prefix :
      (four : List ℕ)
      → length four ≡ 4
      → 0 < length subsystem
      → IsU32 (length subsystem)
      → take_log (0x07 ∷ level ∷ (le_bytes 4 (length subsystem) ++ four)) ≡ range_error
  unfolding take_log
  take_log_prefix four e h hs =
      let rx = 0x07 ∷ level ∷ (le_bytes 4 (length subsystem) ++ four) in
      let ten : length rx ≡ 10 = omega (
        arith,
        length-append (le_bytes 4 (length subsystem)) four,
        length-le_bytes 4 (length subsystem),
      ) in
      let long : ltb (length rx) 10 ≡ false = le→not_ltb _ _ (omega arith) in
      let short : ltb (length rx) (6 + length subsystem + 4) ≡ true = lt→ltb _ _ (omega arith) in
      rw (first_length four hs, long, short) refl

  -- Of a log frame with a subsystem, whose length fits 32 bits, the first ten bytes make the loop throw.
  pub log_prefix_throws :
      0 < length subsystem
      → IsU32 (length subsystem)
      → next_frame (take 10 (log_frame level subsystem message)) ≡ range_error
  unfolding next_frame log_frame le_bytes
  log_prefix_throws h hs =
      let tail = subsystem ++ (le_bytes 4 (length message) ++ message) in
      take_log_prefix (take 4 tail)
        (omega (
          arith,
          length-take 4 tail,
          length-append subsystem (le_bytes 4 (length message) ++ message),
        ))
        h hs
