-- ===== src/Vst2/Speakers/RoundTrip.antt =====
-- A speaker arrangement is read back from its struct (src/common/serialization/vst2.cpp).
use wasivst.Prelude.{
  ℕ, ◌+◌, ◌*◌, ◌^◌, ◌≡◌, ◌≤◌, ◌<◌, refl, sym, ap, ◌∙◌, some, List, [], ◌∷◌, ◌++◌, length, drop,
  le→leb, All, arith, length-append, append_assoc, append-nil, drop_all, length-drop,
}
use wasivst.Prelude.Bytes.{le_bytes, le_value, length-le_bytes, le_value-le_bytes4}
use wasivst.Prelude.Vector.{resize, copy_at, copy_at-append, length-resize}
use wasivst.Prelude.Region.{region, region-element}
use wasivst.Prelude.Wrap.{size_wrap}
use wasivst.Vst2.Events.{flat}
use wasivst.Vst2.Speakers.{
  speaker_size, DynamicSpeakerArrangement, assign_speakers, dynamic_speaker_arrangement,
  speakers_buffer_size, as_c_speaker_arrangement, as_raw_data, with_flags,
}

abbrev pub IsSpeaker : List ℕ → Type 0
IsSpeaker s = length s ≡ speaker_size

length-speakers :
    (ss : List (List ℕ)) → All IsSpeaker ss → length (flat ss) ≡ length ss * speaker_size
unfolding flat
length-speakers [] h = refl
length-speakers (s ∷ ss) (h, hs) =
    omega (arith, length-append s (flat ss), h, length-speakers ss hs)

speakers_buffer_size_lem :
    (n : ℕ) → 8 + n * speaker_size < 2 ^ 64 → speakers_buffer_size n ≡ 8 + n * speaker_size
unfolding speakers_buffer_size
speakers_buffer_size_lem n h =
    size_wrap (2 ^ 64) speaker_size (8 + 2 * speaker_size) n 2 (omega arith) (omega arith)
      (omega (arith, h))
    ∙ omega arith

assign_speakers_lem :
    (at : ℕ) (before : List ℕ) (ss : List (List ℕ))
    → length before ≡ at
    → All IsSpeaker ss
    → assign_speakers at (length ss) (before ++ flat ss) ≡ some ss
unfolding assign_speakers flat
assign_speakers_lem at before [] e h = refl
assign_speakers_lem at before (s ∷ ss) e (h, hs) =
    let ih =
      assign_speakers_lem (at + speaker_size) (before ++ s) ss
        (omega (arith, length-append before s, e, h)) hs in
    let room : at + speaker_size ≤ length (before ++ (s ++ flat ss)) =
      omega (arith, e, h, length-append before (s ++ flat ss), length-append s (flat ss)) in
    let here = region-element at speaker_size before s (flat ss) e h in
    rw
      (
        ap (assign_speakers (at + speaker_size) (length ss))
            (sym (append_assoc before s (flat ss))),
        ih,
        flat,
        le→leb _ _ room,
        here,
      )
      refl

-- The bytes of a struct.
raw_bytes : DynamicSpeakerArrangement → List ℕ
raw_bytes d = le_bytes 4 d.flags ++ (le_bytes 4 (length d.speakers) ++ flat d.speakers)

as_raw_data_lem :
    (d : DynamicSpeakerArrangement) (buffer : List ℕ)
    → All IsSpeaker d.speakers
    → 8 + length d.speakers * speaker_size < 2 ^ 64
    → as_raw_data d buffer ≡ some (raw_bytes d)
unfolding as_raw_data as_c_speaker_arrangement raw_bytes le_bytes
as_raw_data_lem d buffer h small =
    let n = length d.speakers in
    let size = speakers_buffer_size_lem n small in
    let body = flat d.speakers in
    let whole = length-speakers d.speakers h in
    let resized = resize (speakers_buffer_size n) buffer in
    let room = length-resize (speakers_buffer_size n) buffer in
    let a = le_bytes 4 d.flags in
    let b = le_bytes 4 n in
    let four = length-le_bytes 4 d.flags in
    let four' = length-le_bytes 4 n in
    let r = drop 4 resized in
    let r' = drop (length b) r in
    let first : copy_at 4 b (copy_at 0 a resized) ≡ a ++ (b ++ r') =
      ap (λ k. copy_at 4 b (a ++ drop k resized)) four ∙ copy_at-append 4 b a r four in
    let behind : drop (length body) r' ≡ [] =
      drop_all (length body) r' (
        omega (arith, whole, size, room, four', length-drop (length b) r, length-drop 4 resized)) in
    let second : copy_at 8 body (a ++ (b ++ r')) ≡ a ++ (b ++ body) =
      ap (copy_at 8 body) (sym (append_assoc a b r'))
      ∙ (copy_at-append 8 body (a ++ b) r' (omega (arith, length-append a b, four, four'))
          ∙ (ap (λ xs. (a ++ b) ++ (body ++ xs)) behind
              ∙ (ap (λ xs. (a ++ b) ++ xs) (append-nil body) ∙ append_assoc a b body))) in
    rw (le→leb (8 + length body) (length resized) (omega (arith, size, whole, room)), first, second)
      refl

-- An arrangement of less than 2 ^ 31 speakers, each of its size, with flags of 32 bits: whatever the
-- buffer held before, the struct is put together without an access outside of it, has exactly the
-- bytes of its two numbers and its speakers, also for less than two speakers, where the size wraps, and
-- the arrangement that is read from it is the one that it was made of.
pub dynamic_speaker_arrangement-as_raw_data :
    (d : DynamicSpeakerArrangement) (buffer : List ℕ)
    → d.flags < 2 ^ 32
    → All IsSpeaker d.speakers
    → length d.speakers < 2 ^ 31
    → (raw : List ℕ) × (as_raw_data d buffer ≡ some raw)
      × (length raw ≡ 8 + length d.speakers * speaker_size)
      × (dynamic_speaker_arrangement raw ≡ some d)
unfolding dynamic_speaker_arrangement with_flags raw_bytes le_bytes
dynamic_speaker_arrangement-as_raw_data d buffer flags h count =
    let n = length d.speakers in
    let a = le_bytes 4 d.flags in
    let b = le_bytes 4 n in
    let body = flat d.speakers in
    let four = length-le_bytes 4 d.flags in
    let four' = length-le_bytes 4 n in
    let read_flags : le_value (region 0 4 (a ++ (b ++ body))) ≡ d.flags =
      le_value-le_bytes4 d.flags flags in
    let read_count : le_value (region 4 4 (a ++ (b ++ body))) ≡ n =
      le_value-le_bytes4 n (omega (arith, count)) in
    (
      raw_bytes d,
      as_raw_data_lem d buffer h (omega (arith, count)),
      omega (
        arith,
        four,
        four',
        length-append a (b ++ body),
        length-append b body,
        length-speakers d.speakers h,
      ),
      rw
          (
            read_flags,
            read_count,
            ← (append_assoc a b body),
            assign_speakers_lem 8 (a ++ b) d.speakers
                (omega (arith, length-append a b, four, four')) h,
          )
          refl,
    )
