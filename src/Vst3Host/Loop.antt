-- ===== src/Vst3Host/Loop.antt =====
-- How the loop of `Vst3Host::run` (src/host/vst3/vst3-host.cpp) reads its input.
use native.Mathlib.Nat.{zero-add}
use wasivst.Prelude.{
  ℕ, zero, suc, ◌+◌, ◌<◌, ◌≡◌, ◌≢◌, refl, ◌∙◌, inl, inr, List, [], ◌∷◌, ◌++◌, arith, length, All,
  replicate, length-replicate, append_assoc,
}
use wasivst.Prelude.Bytes.{le_bytes}
use wasivst.Serial.Action.{Fault, eof, Channel, ok, err, bind_ok, bind_err, Io-cases}
use wasivst.Serial.{
  FrameTag, process, read_next_tag, read_process_frame_body, frame_tag, write_process_resp,
  write_bytes,
}
use wasivst.Serial.Frames.{chan, audio_bytes, write_channels_full}
use wasivst.Serial.Consumption.{
  Shrinks, shrink_rules, Shrinks-read_process_frame_body, Shrinks-write_process_resp,
}
use wasivst.Worklet.{encode_process, sample_count}
use wasivst.Worklet.RoundTrip.{FitsFrame, read_next_tag-cons, encode_process-append, process_body}
use wasivst.Vst2Host.Loop.{read_next_tag_end}
use wasivst.Vst3Host.{answer_silence, serve, round, rounds_of}

serve-Shrinks : (tag : FrameTag) → Shrinks (serve tag)
unfolding serve
serve-Shrinks process =
    search (shrink_rules, Shrinks-read_process_frame_body, Shrinks-write_process_resp)
serve-Shrinks _ = search shrink_rules

round-cons :
    (b : ℕ) (input out : List ℕ)
    → round (chan (b ∷ input) out) ≡ serve (frame_tag b) (chan input out)
unfolding round
round-cons b input out = bind_ok read_next_tag _ (read_next_tag-cons input out b)

-- More rounds than bytes of input: the loop has ended, and it has ended by a fault.
pub rounds_of_ends :
    (rounds : ℕ) (input out : List ℕ)
    → length input < rounds
    → (e : Fault) × (c : Channel) × (rounds_of rounds (chan input out) ≡ (err e, c))
unfolding rounds_of
rounds_of_ends zero input out h = absurd (omega arith)
rounds_of_ends (suc k) [] out h = (
  eof,
  chan [] out,
  bind_err round _ (unfold round in bind_err read_next_tag _ (read_next_tag_end out)),
)
rounds_of_ends (suc k) (b ∷ input) out h =
    let m = serve (frame_tag b) in
    let c = chan input out in
    elim (Io-cases m c) [
      | inl (u, p) ↦
          let left = (m c).1 in
          let (e, c', q) =
            rounds_of_ends k left.input left.output
              (omega (arith, (serve-Shrinks (frame_tag b)).at c)) in
          (e, c', bind_ok round _ (round-cons b input out ∙ p) ∙ q)
      | inr (e, p) ↦ (e, _, bind_err round _ (round-cons b input out ∙ p))
    ]

frame_tag-process : (b : ℕ) → b ≢ 0x02 → frame_tag b ≢ process
unfolding frame_tag
frame_tag-process b h = ground arith

serve_other : (tag : FrameTag) (c : Channel) → tag ≢ process → serve tag c ≡ (ok tt, c)
unfolding serve
serve_other process c h = absurd (h refl)
serve_other _ c h = refl

-- Whatever is not the tag of an audio frame is skipped byte by byte: the bodies of the other frames
-- are read as tags, and nothing is answered.
pub skips_bytes :
    (bytes rest out : List ℕ) (rounds : ℕ)
    → All (λ b. b ≢ 0x02) bytes
    → rounds_of (length bytes + rounds) (chan (bytes ++ rest) out)
      ≡ rounds_of rounds (chan rest out)
unfolding rounds_of
skips_bytes [] rest out rounds h = cc (zero-add rounds)
skips_bytes (b ∷ bytes) rest out rounds (hb, hs) =
    let more : suc (length bytes) + rounds ≡ suc (length bytes + rounds) = omega arith in
    rw more (
      bind_ok round _ (
        round-cons b (bytes ++ rest) out
        ∙ serve_other (frame_tag b) (chan (bytes ++ rest) out) (frame_tag-process b hb))
      ∙ skips_bytes bytes rest out rounds hs)

-- The answer to an audio frame: two channels of silence, as long as the frame's.
pub silent_answer : ℕ → List ℕ
silent_answer n =
    0x03 ∷ (le_bytes 4 n ++ (le_bytes 4 2 ++ audio_bytes (replicate n 0 ∷ replicate n 0 ∷ [])))

write_silence :
    (n : ℕ) (input out : List ℕ)
    → write_process_resp n 2 (replicate n 0 ∷ replicate n 0 ∷ []) (chan input out)
      ≡ (ok tt, chan input (out ++ silent_answer n))
unfolding write_process_resp write_bytes silent_answer
write_silence n input out =
    write_channels_full n (replicate n 0 ∷ replicate n 0 ∷ []) _
      (length-replicate n 0, (length-replicate n 0, tt))
    ∙ simp append_assoc

-- An audio frame of the browser, whose numbers fit the frame, is consumed whole, and answered by two
-- channels of silence however many channels it has.
pub round-encode_process :
    (chs : List (List ℕ)) (rest out : List ℕ)
    → FitsFrame chs
    → round (chan (encode_process chs ++ rest) out)
      ≡ (ok tt, chan rest (out ++ silent_answer (sample_count chs)))
unfolding round serve frame_tag answer_silence
round-encode_process chs rest out h = rw encode_process-append (
    bind_ok read_next_tag _ (read_next_tag-cons _ out 0x02)
    ∙ bind_ok read_process_frame_body _ (process_body rest out chs h)
    ∙ write_silence (sample_count chs) rest out)
