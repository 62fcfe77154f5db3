-- ===== src/Vst2/Speakers.antt =====
-- `DynamicSpeakerArrangement` (src/common/serialization/vst2.{h,cpp}): a `VstSpeakerArrangement` as the bytes
-- at its address. `none` is an access outside of them.
pub mod RoundTrip
use wasivst.Prelude.{
  ℕ, zero, suc, ◌+◌, ◌*◌, ◌-◌, ◌^◌, ◌%◌, Option, none, some, List, [], ◌∷◌, length, leb,
  if◌then◌else◌,
}
use wasivst.Prelude.Bytes.{le_bytes, le_value}
use wasivst.Prelude.Vector.{resize, copy_at}
use wasivst.Prelude.Region.{region}
use wasivst.Vst2.Events.{flat}

-- `sizeof(VstSpeaker)`
abbrev pub speaker_size : ℕ
speaker_size = 112

pub record DynamicSpeakerArrangement : Type 0 where
  pub flags : ℕ
  pub speakers : List (List ℕ)

-- The speakers from an address on.
unfoldable pub assign_speakers : (at count : ℕ) → List ℕ → Option (List (List ℕ))
assign_speakers at zero raw = some []
assign_speakers at (suc k) raw = elim (assign_speakers (at + speaker_size) k raw) [
  | none ↦ none
  | some rest ↦
      if leb (at + speaker_size) (length raw)
      then some (region at speaker_size raw ∷ rest)
      else none
]

with_flags : ℕ → Option (List (List ℕ)) → Option DynamicSpeakerArrangement
with_flags flags none = none
with_flags flags (some speakers) = some (record { flags = flags; speakers = speakers })

-- The constructor.
unfoldable pub dynamic_speaker_arrangement : List ℕ → Option DynamicSpeakerArrangement
unfolding assign_speakers with_flags
dynamic_speaker_arrangement raw =
    with_flags (le_value (region 0 4 raw)) (assign_speakers 8 (le_value (region 4 4 raw)) raw)

-- `buffer_size`, with the 64 bits of a `size_t`: the struct has two speakers.
unfoldable pub speakers_buffer_size : ℕ → ℕ
speakers_buffer_size n =
    let modulus = 2 ^ 64 in
    (8 + 2 * speaker_size + ((n + (modulus - 2)) % modulus) * speaker_size) % modulus

-- `as_c_speaker_arrangement`, into the buffer that there is.
unfoldable pub as_c_speaker_arrangement :
    DynamicSpeakerArrangement → (buffer : List ℕ) → Option (List ℕ)
unfolding resize copy_at flat speakers_buffer_size
as_c_speaker_arrangement d buffer =
    let n = length d.speakers in
    let resized = resize (speakers_buffer_size n) buffer in
    let head = copy_at 4 (le_bytes 4 n) (copy_at 0 (le_bytes 4 d.flags) resized) in
    if leb (8 + length (flat d.speakers)) (length resized)
    then some (copy_at 8 (flat d.speakers) head)
    else none

-- `as_raw_data`
unfoldable pub as_raw_data : DynamicSpeakerArrangement → (buffer : List ℕ) → Option (List ℕ)
unfolding as_c_speaker_arrangement
as_raw_data d buffer = as_c_speaker_arrangement d buffer
