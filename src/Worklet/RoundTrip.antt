-- ===== src/Worklet/RoundTrip.antt =====
-- What src/host/ipc/serial-channel.cpp reads from the frames that src/worklet/wasivst.js writes.
use mathlib.Core.List.{flatten}
use wasivst.Prelude.{
  ℕ, zero, suc, ◌*◌, ◌^◌, ◌≤◌, ◌<◌, ◌≡◌, refl, sym, ap, ◌∙◌, List, [], ◌∷◌, ◌++◌, arith,
  append_assoc, map, length, All, length-append, length-map, All-append,
}
use wasivst.Prelude.Bytes.{le_bytes, IsU32, IsU64}
use wasivst.Serial.Action.{ok, bind_ok}
use wasivst.Serial.{
  read_next_tag, read_load_frame_body, read_process_frame_body, read_set_param_frame_body,
  read_get_param_frame_body, floats, float_bytes, read_into, read_bytes, read_u32, read_f64,
  read_tag, frame_tag,
}
use wasivst.Serial.Frames.{
  chan, read_into-append, read_bytes-append, read_u32-le_bytes, read_f64-le_bytes, audio_bytes,
  floats-float_bytes, float_bytes-append, length-float_bytes, HasLength,
}
use wasivst.Worklet.{encode_process, fit, sample_count}

pub audio_bytes-flatten : (bufs : List (List ℕ)) → audio_bytes bufs ≡ float_bytes (flatten bufs)
unfolding audio_bytes flatten float_bytes
audio_bytes-flatten [] = refl
audio_bytes-flatten (b ∷ bs) = rw (audio_bytes-flatten bs) (sym (float_bytes-append b (flatten bs)))

pub length-flatten :
    (n : ℕ) (bufs : List (List ℕ))
    → All (HasLength n) bufs
    → length (flatten bufs) ≡ length bufs * n
unfolding flatten
length-flatten n [] h = omega arith
length-flatten n (b ∷ bs) (hb, hbs) =
    omega (arith, length-append b (flatten bs), length-flatten n bs hbs)

pub length-audio_bytes :
    (n : ℕ) (bufs : List (List ℕ))
    → All (HasLength n) bufs
    → length (audio_bytes bufs) ≡ length bufs * n * 4
length-audio_bytes n bufs h =
    rw audio_bytes-flatten
      (omega (arith, length-float_bytes (flatten bufs), length-flatten n bufs h))

pub All-flatten : (P : ℕ → Type 0) (bufs : List (List ℕ)) → All (All P) bufs → All P (flatten bufs)
unfolding flatten
All-flatten P [] h = tt
All-flatten P (b ∷ bs) (hb, hbs) = All-append P b (flatten bs) hb (All-flatten P bs hbs)

length-fit : (n : ℕ) (ch : List ℕ) → length (fit n ch) ≡ n
unfolding fit
length-fit zero ch = refl
length-fit (suc n) [] = ap suc (length-fit n [])
length-fit (suc n) (x ∷ ch) = ap suc (length-fit n ch)

fit-IsU32 : (n : ℕ) (ch : List ℕ) → All IsU32 ch → All IsU32 (fit n ch)
unfolding fit
fit-IsU32 zero ch h = tt
fit-IsU32 (suc n) [] h = (omega arith, fit-IsU32 n [] tt)
fit-IsU32 (suc n) (x ∷ ch) (hx, hch) = (hx, fit-IsU32 n ch hch)

-- The channels as they are sent: each has as many samples as the first.
unfoldable pub sent : List (List ℕ) → List (List ℕ)
sent channels = map (fit (sample_count channels)) channels

map-fit-HasLength : (n : ℕ) (chs : List (List ℕ)) → All (HasLength n) (map (fit n) chs)
map-fit-HasLength n [] = tt
map-fit-HasLength n (c ∷ cs) = (length-fit n c, map-fit-HasLength n cs)

map-fit-IsU32 :
    (n : ℕ) (chs : List (List ℕ)) → All (All IsU32) chs → All (All IsU32) (map (fit n) chs)
map-fit-IsU32 n [] h = tt
map-fit-IsU32 n (c ∷ cs) (hc, hcs) = (fit-IsU32 n c hc, map-fit-IsU32 n cs hcs)

pub sent-HasLength : (chs : List (List ℕ)) → All (HasLength (sample_count chs)) (sent chs)
unfolding sent
sent-HasLength chs = map-fit-HasLength (sample_count chs) chs

pub length-sent : (chs : List (List ℕ)) → length (sent chs) ≡ length chs
unfolding sent
length-sent chs = length-map chs (fit (sample_count chs))

pub floats-sent :
    (chs : List (List ℕ))
    → All (All IsU32) chs
    → floats (audio_bytes (sent chs)) ≡ flatten (sent chs)
unfolding sent
floats-sent chs h =
    rw audio_bytes-flatten
      (floats-float_bytes _ (All-flatten IsU32 _ (map-fit-IsU32 (sample_count chs) chs h)))

pub encode_process-append :
    (chs : List (List ℕ)) (rest : List ℕ)
    → encode_process chs ++ rest
      ≡ 0x02
        ∷ (le_bytes 4 (sample_count chs)
            ++ (le_bytes 4 (length chs)
                ++ (le_bytes 4 (length chs * sample_count chs * 4)
                    ++ (audio_bytes (sent chs) ++ rest))))
unfolding encode_process sent
encode_process-append chs rest = simp append_assoc

-- The byte count of a frame and its factors fit in 32 bits.
pub record FitsFrame (chs : List (List ℕ)) : Type 0 where
  pub samples : All (All IsU32) chs
  pub size : length chs * sample_count chs * 4 < 2 ^ 32
  pub count : sample_count chs < 2 ^ 32
  pub channels : length chs < 2 ^ 32

module _ (rest out : List ℕ) where
  pub read_next_tag-cons :
      (b : ℕ) → read_next_tag (chan (b ∷ rest) out) ≡ (ok (frame_tag b), chan rest out)
  unfolding read_next_tag read_tag
  read_next_tag-cons b =
      bind_ok read_tag _ (bind_ok (read_bytes 1) _ (read_bytes-append rest out (b ∷ [])))

  pub load_body :
      (path : List ℕ)
      → length path < 2 ^ 32
      → read_load_frame_body (chan ((le_bytes 4 (length path) ++ path) ++ rest) out)
        ≡ (ok path, chan rest out)
  unfolding read_load_frame_body
  load_body path h = rw append_assoc (
      bind_ok read_u32 _ (read_u32-le_bytes (path ++ rest) out (length path) h)
      ∙ read_bytes-append rest out path)

  pub set_param_body :
      (id value : ℕ)
      → IsU32 id
      → IsU64 value
      → read_set_param_frame_body (chan ((le_bytes 4 id ++ le_bytes 8 value) ++ rest) out)
        ≡ (ok (record { id = id; value = value }), chan rest out)
  unfolding read_set_param_frame_body
  set_param_body id value hi hv = rw append_assoc (
      bind_ok read_u32 _ (read_u32-le_bytes (le_bytes 8 value ++ rest) out id hi)
      ∙ bind_ok read_f64 _ (read_f64-le_bytes rest out value hv))

  pub get_param_body :
      (id : ℕ)
      → IsU32 id
      → read_get_param_frame_body (chan (le_bytes 4 id ++ rest) out) ≡ (ok id, chan rest out)
  unfolding read_get_param_frame_body
  get_param_body id h = read_u32-le_bytes rest out id h

  audio_body :
      (chs : List (List ℕ)) (room size : ℕ)
      → length chs * sample_count chs * 4 ≡ size
      → size ≤ room
      → read_into room size (chan (audio_bytes (sent chs) ++ rest) out)
        ≡ (ok (audio_bytes (sent chs)), chan rest out)
  audio_body chs room size e h =
      let len : length (audio_bytes (sent chs)) ≡ size =
        length-audio_bytes (sample_count chs) (sent chs) (sent-HasLength chs) ∙ rw length-sent e in
      rw len at (read_into-append rest out room (audio_bytes (sent chs)) (rw len h))

  pub process_body :
      (chs : List (List ℕ))
      → FitsFrame chs
      → read_process_frame_body (
          chan
            (le_bytes 4 (sample_count chs)
              ++ (le_bytes 4 (length chs)
                  ++ (le_bytes 4 (length chs * sample_count chs * 4)
                      ++ (audio_bytes (sent chs) ++ rest))))
            out)
        ≡ (
          ok (record {
            sample_count = sample_count chs;
            channel_count = length chs;
            samples = flatten (sent chs);
          }),
          chan rest out,
        )
  unfolding read_process_frame_body
  process_body chs h =
      bind_ok read_u32 _ (read_u32-le_bytes _ out (sample_count chs) h.count)
      ∙ bind_ok read_u32 _ (read_u32-le_bytes _ out (length chs) h.channels)
      ∙ bind_ok read_u32 _ (read_u32-le_bytes _ out _ h.size)
      ∙ bind_ok (read_into _ _) _ (audio_body chs _ _ refl (omega arith))
      ∙ rw (floats-sent chs h.samples) refl
