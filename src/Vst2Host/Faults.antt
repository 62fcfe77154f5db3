-- ===== src/Vst2Host/Faults.antt =====
-- What `Vst2Host` (src/host/vst2/vst2-host.cpp) and `SerialChannel` do with frames that the browser
-- does not send: header fields that contradict one another, and tags without a case.
use native.Mathlib.Decide.{dec_lt}
use wasivst.Prelude.{
  ℕ, zero, suc, ◌+◌, ◌*◌, ◌/◌, ◌%◌, ◌^◌, ◌≤◌, ◌<◌, ◌≡◌, ◌≢◌, refl, ◌∙◌, List, [], ◌∷◌, ◌++◌, arith,
  length, All, none, get_elem?, append_assoc, take-append_length, drop-append_length,
}
use wasivst.Prelude.Bytes.{le_bytes, IsU32}
use wasivst.Serial.Action.{
  Result, Channel, continue, pure, err, ok, out_of_bounds, bind_ok, bind_err,
}
use wasivst.Serial.{
  FrameTag, process, set_param, get_param, read_next_tag, read_process_frame_body, read_into,
  read_u32, frame_tag, floats, float_bytes, write_log,
}
use wasivst.Serial.Frames.{
  chan, log_frame, write_log-log_frame, read_u32-le_bytes, read_into-append, length-float_bytes,
  floats-float_bytes,
}
use wasivst.Worklet.RoundTrip.{read_next_tag-cons}
use wasivst.Vst2Host.{
  Plugin, gather, gather_channel, process_inputs, process_block, serve, round, host_name,
  unknown_text,
}

-- A frame with the header fields `n`, `ch` and `size`, and a body.
pub process_frame : ℕ → ℕ → ℕ → List ℕ → List ℕ
process_frame n ch size body = 0x02 ∷ (le_bytes 4 n ++ (le_bytes 4 ch ++ (le_bytes 4 size ++ body)))

get_elem?-none : (xs : List ℕ) (i : ℕ) → length xs ≤ i → get_elem? xs i ≡ none
get_elem?-none [] i h = refl
get_elem?-none (x ∷ xs) zero h = absurd (omega arith)
get_elem?-none (x ∷ xs) (suc i) h = get_elem?-none xs i (omega arith)

gather_channel_short :
    (samples : List ℕ) (n c k s : ℕ)
    → length samples < c * n + (s + k)
    → c * n + s ≤ length samples
    → c * n + (s + k) ≤ 2 ^ 32
    → gather_channel samples n c k s ≡ none
unfolding gather_channel
gather_channel_short samples n c zero s h low fits = absurd (omega arith)
gather_channel_short samples n c (suc k) s h low fits =
    let at : (c * n + s) % 2 ^ 32 ≡ c * n + s = omega arith in
    elim (dec_lt (c * n + s) (length samples)) [
      | yes p ↦ ground (
        arith,
        gather_channel_short samples n c k (s + 1) (omega arith) (omega arith) (omega arith),
      )
      | no p ↦
          let missing : get_elem? samples ((c * n + s) % 2 ^ 32) ≡ none =
            get_elem?-none samples _ (omega arith) in
          ground (arith, missing)
    ]

-- Samples for fewer than the channels of the header are a read beside their vector.
gather_short :
    (samples : List ℕ) (n k c : ℕ)
    → length samples < c * n + k * n
    → c * n ≤ length samples
    → c * n + k * n ≤ 2 ^ 32
    → gather samples n k c ≡ none
unfolding gather
gather_short samples n zero c h low fits = absurd (omega arith)
gather_short samples n (suc k) c h low fits = elim (dec_lt (length samples) (c * n + n)) [
  | yes p ↦
      ground (arith, gather_channel_short samples n c n 0 (omega arith) (omega arith) (omega arith))
  | no p ↦
      ground (arith, gather_short samples n k (c + 1) (omega arith) (omega arith) (omega arith))
]

module _ (rest out : List ℕ) where
  -- The three fields of a frame, then the audio bytes.
  header_fields :
      (n ch size : ℕ) (body : List ℕ) {r : Result (List ℕ) × Channel}
      → IsU32 n
      → IsU32 ch
      → IsU32 size
      → read_into (4 * (size / 4)) size (chan (body ++ rest) out) ≡ r
      → read_process_frame_body
          (chan (le_bytes 4 n ++ (le_bytes 4 ch ++ (le_bytes 4 size ++ (body ++ rest)))) out)
        ≡ continue r.0
            (λ bytes.
              pure (record { sample_count = n; channel_count = ch; samples = floats bytes }))
            r.1
  unfolding read_process_frame_body
  header_fields n ch size body hn hch hs e =
      bind_ok read_u32 _ (read_u32-le_bytes _ out n hn)
      ∙ bind_ok read_u32 _ (read_u32-le_bytes _ out ch hch)
      ∙ bind_ok read_u32 _ (read_u32-le_bytes _ out size hs)
      ∙ rw e refl

  misaligned_read :
      (body : List ℕ)
      → length body % 4 ≢ 0
      → read_into (4 * (length body / 4)) (length body) (chan (body ++ rest) out)
        ≡ (err out_of_bounds, chan rest out)
  unfolding read_into
  misaligned_read body odd =
      rw (take-append_length body rest, drop-append_length body rest) (ground arith)

  aligned_read :
      (samples : List ℕ)
      → read_into
          (4 * (4 * length samples / 4))
          (4 * length samples)
          (chan (float_bytes samples ++ rest) out)
        ≡ (ok (float_bytes samples), chan rest out)
  aligned_read samples = rw length-float_bytes at (
      read_into-append rest out (4 * (4 * length samples / 4)) (float_bytes samples)
        (rw length-float_bytes (omega arith)))

  process_frame-append :
      (n ch size : ℕ) (body : List ℕ)
      → process_frame n ch size body ++ rest
        ≡ 0x02 ∷ (le_bytes 4 n ++ (le_bytes 4 ch ++ (le_bytes 4 size ++ (body ++ rest))))
  unfolding process_frame
  process_frame-append n ch size body = simp append_assoc

  module _ {S : Type 0} (plugin : Plugin S) (s : S) where
    -- The byte count of an audio frame is no multiple of four, and it and the other counts fit 32 bits:
    -- the body is written past the vector of samples, and nothing is answered.
    pub misaligned :
        (n ch : ℕ) (body : List ℕ)
        → IsU32 n
        → IsU32 ch
        → IsU32 (length body)
        → length body % 4 ≢ 0
        → round plugin s (chan (process_frame n ch (length body) body ++ rest) out)
          ≡ (err out_of_bounds, chan rest out)
    unfolding round serve frame_tag
    misaligned n ch body hn hch hs odd = rw process_frame-append (
        bind_ok read_next_tag _ (read_next_tag-cons _ out 0x02)
        ∙ bind_err read_process_frame_body _
            (header_fields n ch (length body) body hn hch hs (misaligned_read body odd)))

    -- An audio frame, whose counts and samples fit 32 bits, holds fewer samples than its header says,
    -- and at most 2 ^ 32 are said: a sample is read beside their vector, and nothing is answered.
    pub too_few_samples :
        (n ch : ℕ) (samples : List ℕ)
        → IsU32 n
        → IsU32 ch
        → All IsU32 samples
        → IsU32 (4 * length samples)
        → length samples < ch * n
        → ch * n ≤ 2 ^ 32
        → round plugin s
            (chan (process_frame n ch (4 * length samples) (float_bytes samples) ++ rest) out)
          ≡ (err out_of_bounds, chan rest out)
    unfolding round serve frame_tag process_block process_inputs
    too_few_samples n ch samples hn hch hx size h fits = rw process_frame-append (
        bind_ok read_next_tag _ (read_next_tag-cons _ out 0x02)
        ∙ bind_ok read_process_frame_body _ (
            header_fields n ch (4 * length samples) (float_bytes samples) hn hch size
              (aligned_read samples))
        ∙ rw
            (
              floats-float_bytes samples hx,
              gather_short samples n ch 0 (omega arith) (omega arith) (omega arith),
            )
            refl)

serve_other :
    {S : Type 0} (plugin : Plugin S) (s : S) (tag : FrameTag) (rest out : List ℕ)
    → tag ≢ process
    → tag ≢ set_param
    → tag ≢ get_param
    → serve plugin s tag (chan rest out)
      ≡ (ok s, chan rest (out ++ log_frame 3 host_name unknown_text))
unfolding serve
serve_other plugin s process rest out hp hs hg = absurd (hp refl)
serve_other plugin s set_param rest out hp hs hg = absurd (hs refl)
serve_other plugin s get_param rest out hp hs hg = absurd (hg refl)
serve_other plugin s _ rest out hp hs hg =
    bind_ok (write_log 3 host_name unknown_text) _
      (write_log-log_frame 3 host_name unknown_text rest out (omega arith) (omega arith))

frame_tag_other :
    (b : ℕ)
    → b ≢ 0x02
    → b ≢ 0x04
    → b ≢ 0x05
    → (frame_tag b ≢ process) × (frame_tag b ≢ set_param) × (frame_tag b ≢ get_param)
unfolding frame_tag
frame_tag_other b h2 h4 h5 = (ground arith, ground arith, ground arith)

-- A byte that is none of the three tags is answered by a log frame, and nothing but that byte is
-- consumed: the body of such a frame stays in the input, to be read as tags.
pub unknown_tag :
    {S : Type 0} (plugin : Plugin S) (s : S) (b : ℕ) (rest out : List ℕ)
    → b ≢ 0x02
    → b ≢ 0x04
    → b ≢ 0x05
    → round plugin s (chan (b ∷ rest) out)
      ≡ (ok s, chan rest (out ++ log_frame 3 host_name unknown_text))
unfolding round
unknown_tag plugin s b rest out h2 h4 h5 =
    let (np, ns, ng) = frame_tag_other b h2 h4 h5 in
    bind_ok read_next_tag _ (read_next_tag-cons rest out b)
    ∙ serve_other plugin s (frame_tag b) rest out np ns ng
