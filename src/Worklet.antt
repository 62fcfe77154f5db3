-- ===== src/Worklet.antt =====
-- src/worklet/wasivst.js: the browser's end of the channel. It encodes the frames that the host
-- process reads. A sample or a value is the bit pattern of a float or a double.
pub mod RoundTrip
pub mod Dispatch
pub mod Received
use wasivst.Prelude.{ℕ, zero, suc, ◌*◌, List, [], ◌∷◌, ◌++◌, length, map}
use wasivst.Prelude.Bytes.{le_bytes}
use wasivst.Serial.Frames.{audio_bytes}

-- `#encodeLoad`, with the path as the bytes that `TextEncoder` gives.
unfoldable pub encode_load : List ℕ → List ℕ
encode_load path = 0x01 ∷ (le_bytes 4 (length path) ++ path)

-- `channels[0]?.length ?? 128`
unfoldable pub sample_count : List (List ℕ) → ℕ
sample_count [] = 128
sample_count (ch ∷ channels) = length ch

-- The samples `ch?.[i] ?? 0` for `i < sampleCount`.
unfoldable pub fit : ℕ → List ℕ → List ℕ
fit zero ch = []
fit (suc n) [] = 0 ∷ fit n []
fit (suc n) (x ∷ ch) = x ∷ fit n ch

-- `#encodeProcess`
unfoldable pub encode_process : List (List ℕ) → List ℕ
unfolding sample_count fit
encode_process channels =
    let n = sample_count channels in
    0x02
    ∷ (le_bytes 4 n
        ++ (le_bytes 4 (length channels)
            ++ (le_bytes 4 (length channels * n * 4) ++ audio_bytes (map (fit n) channels))))

-- `#encodeSetParam`
unfoldable pub encode_set_param : ℕ → ℕ → List ℕ
encode_set_param id value = 0x04 ∷ (le_bytes 4 id ++ le_bytes 8 value)

-- `#encodeGetParam`
unfoldable pub encode_get_param : ℕ → List ℕ
encode_get_param id = 0x05 ∷ le_bytes 4 id
