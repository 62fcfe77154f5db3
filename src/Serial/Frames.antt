-- ===== src/Serial/Frames.antt =====
-- Reading and writing of fields and buffers (src/host/ipc/serial-channel.cpp), one lemma for each
-- primitive, on a channel whose input begins with the bytes of a value.
use wasivst.Prelude.{
  ◌^◌, ◌%◌, ℕ, ◌*◌, ◌≤◌, ◌<◌, ◌≡◌, refl, sym, ap, ◌∙◌, List, [], ◌∷◌, ◌++◌, arith, append_assoc,
  append-nil, length, All, length-append, take-append_length, drop-append_length, take_all,
  drop_all,
}
use wasivst.Prelude.Bytes.{
  le_value, le_bytes, IsU32, IsU64, length-le_bytes, le_value-le_bytes4, le_value-le_bytes8,
}
use wasivst.Serial.Action.{ok, err, eof, Channel, bind_ok}
use wasivst.Serial.{
  write_process_resp, write_log, read_into, read_bytes, write_bytes, read_u32, read_f64, floats,
  float_bytes, write_floats, write_channels,
}

abbrev pub chan : List ℕ → List ℕ → Channel
chan input output = record { input = input; output = output }

module _ (rest out : List ℕ) where
  pub read_into-append :
      (room : ℕ) (xs : List ℕ)
      → length xs ≤ room
      → read_into room (length xs) (chan (xs ++ rest) out) ≡ (ok xs, chan rest out)
  unfolding read_into
  read_into-append room xs h =
      rw (take-append_length xs rest, drop-append_length xs rest) (ground arith)

  pub read_bytes-append :
      (xs : List ℕ) → read_bytes (length xs) (chan (xs ++ rest) out) ≡ (ok xs, chan rest out)
  unfolding read_bytes
  read_bytes-append xs = read_into-append (length xs) xs (omega arith)

  pub read_u32-le_bytes :
      (v : ℕ) → IsU32 v → read_u32 (chan (le_bytes 4 v ++ rest) out) ≡ (ok v, chan rest out)
  unfolding read_u32
  read_u32-le_bytes v h =
      bind_ok (read_bytes 4) _ (rw (length-le_bytes 4 v) at (read_bytes-append (le_bytes 4 v)))
      ∙ ap (λ (n : ℕ). (ok n, chan rest out)) (le_value-le_bytes4 v h)

  pub read_f64-le_bytes :
      (v : ℕ) → IsU64 v → read_f64 (chan (le_bytes 8 v ++ rest) out) ≡ (ok v, chan rest out)
  unfolding read_f64
  read_f64-le_bytes v h =
      bind_ok (read_bytes 8) _ (rw (length-le_bytes 8 v) at (read_bytes-append (le_bytes 8 v)))
      ∙ ap (λ (n : ℕ). (ok n, chan rest out)) (le_value-le_bytes8 v h)

-- A read past the end of the input throws, and has consumed what there was.
pub read_bytes_short :
    (n : ℕ) (c : Channel) → length c.input < n → read_bytes n c ≡ (err eof, chan [] c.output)
unfolding read_bytes read_into
read_bytes_short n c h =
    rw (take_all n c.input (omega arith), drop_all n c.input (omega arith)) (ground arith)

pub length-float_bytes : (xs : List ℕ) → length (float_bytes xs) ≡ 4 * length xs
unfolding float_bytes
length-float_bytes [] = refl
length-float_bytes (x ∷ xs) = omega (
  arith,
  length-append (le_bytes 4 x) (float_bytes xs),
  length-le_bytes 4 x,
  length-float_bytes xs,
)

floats-le_bytes :
    (x : ℕ) (ys : List ℕ) → floats (le_bytes 4 x ++ ys) ≡ le_value (le_bytes 4 x) ∷ floats ys
unfolding floats le_bytes
floats-le_bytes x ys = refl

-- A vector of floats survives the way through its bytes.
pub floats-float_bytes : (xs : List ℕ) → All IsU32 xs → floats (float_bytes xs) ≡ xs
unfolding float_bytes floats
floats-float_bytes [] h = refl
floats-float_bytes (x ∷ xs) (hx, hxs) =
    rw floats-le_bytes (rw (le_value-le_bytes4 x hx, floats-float_bytes xs hxs))

pub float_bytes-append :
    (xs ys : List ℕ) → float_bytes (xs ++ ys) ≡ float_bytes xs ++ float_bytes ys
unfolding float_bytes
float_bytes-append [] ys = refl
float_bytes-append (x ∷ xs) ys =
    rw (float_bytes-append xs ys)
      (sym (append_assoc (le_bytes 4 x) (float_bytes xs) (float_bytes ys)))

-- The bytes of the buffers, one after the other.
unfoldable pub audio_bytes : List (List ℕ) → List ℕ
audio_bytes [] = []
audio_bytes (b ∷ bs) = float_bytes b ++ audio_bytes bs

abbrev pub HasLength : ℕ → List ℕ → Type 0
HasLength n xs = length xs ≡ n

write_floats_full :
    (n : ℕ) (b : List ℕ) (c : Channel)
    → length b ≡ n
    → write_floats n b c ≡ (ok tt, chan c.input (c.output ++ float_bytes b))
unfolding write_floats write_bytes
write_floats_full n b c h = rw (take_all n b (omega arith)) (ground arith)

-- Full buffers are written one after the other, and nothing else.
pub write_channels_full :
    (n : ℕ) (bufs : List (List ℕ)) (c : Channel)
    → All (HasLength n) bufs
    → write_channels (length bufs) n bufs c ≡ (ok tt, chan c.input (c.output ++ audio_bytes bufs))
unfolding write_channels audio_bytes
write_channels_full n [] c h = ap (λ o. (ok tt, chan c.input o)) (sym (append-nil c.output))
write_channels_full n (b ∷ bs) c (hb, hbs) =
    bind_ok (write_floats n b) _ (write_floats_full n b c hb)
    ∙ write_channels_full n bs (chan c.input (c.output ++ float_bytes b)) hbs
    ∙ ap (λ o. (ok tt, chan c.input o)) (append_assoc c.output (float_bytes b) (audio_bytes bs))

-- The frame of an answer to an audio frame.
unfoldable pub process_resp_frame : ℕ → List (List ℕ) → List ℕ
process_resp_frame n outs = 0x03 ∷ (le_bytes 4 n ++ (le_bytes 4 (length outs) ++ audio_bytes outs))

-- The frame of an answer to a request for a parameter.
unfoldable pub get_param_resp_frame : ℕ → ℕ → List ℕ
get_param_resp_frame id value = 0x06 ∷ (le_bytes 4 id ++ le_bytes 8 value)

pub write_process_resp_full :
    (n : ℕ) (outs : List (List ℕ)) (input out : List ℕ)
    → All (HasLength n) outs
    → write_process_resp n (length outs) outs (chan input out)
      ≡ (ok tt, chan input (out ++ process_resp_frame n outs))
unfolding write_process_resp write_bytes process_resp_frame
write_process_resp_full n outs input out h = write_channels_full n outs _ h ∙ simp append_assoc

-- The frame that `write_log` writes, for texts that are shorter than 2 ^ 32 bytes.
unfoldable pub log_frame : ℕ → List ℕ → List ℕ → List ℕ
log_frame level subsystem message =
    0x07
    ∷ level
    ∷ (le_bytes 4 (length subsystem) ++ (subsystem ++ (le_bytes 4 (length message) ++ message)))

pub write_log-log_frame :
    (level : ℕ) (subsystem message input out : List ℕ)
    → length subsystem < 2 ^ 32
    → length message < 2 ^ 32
    → write_log level subsystem message (chan input out)
      ≡ (ok tt, chan input (out ++ log_frame level subsystem message))
unfolding write_log write_bytes log_frame
write_log-log_frame level subsystem message input out hs hm =
    let es : length subsystem % 2 ^ 32 ≡ length subsystem = omega arith in
    let em : length message % 2 ^ 32 ≡ length message = omega arith in
    rw
      (
        es,
        em,
        take_all (length subsystem) subsystem (omega arith),
        take_all (length message) message (omega arith),
      )
      (simp append_assoc)
