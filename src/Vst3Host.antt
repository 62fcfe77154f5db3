-- ===== src/Vst3Host.antt =====
-- src/host/vst3/vst3-host.{h,cpp}: the loop of the VST3 host, which answers audio with silence. The
-- module loader of the SDK is a parameter, which says whether it could load the bundle.
pub mod Loop
use wasivst.Prelude.{ℕ, zero, suc, Bool, true, false, List, [], ◌∷◌, ◌++◌, replicate, if◌then◌else◌}
use wasivst.Prelude.Text.{codes}
use wasivst.Serial.Action.{Io, lib_open_failed, pure, raise, ◌>>=◌, ◌>>◌}
use wasivst.Serial.{
  FrameTag, process, ProcessFrame, read_next_tag, read_process_frame_body, write_process_resp,
  write_log,
}

abbrev pub host_name : List ℕ
host_name = codes "vst3-host"

abbrev pub loaded_text : List ℕ
loaded_text = codes "VST3 module loaded"

-- The dash is three bytes of UTF-8.
abbrev pub run_text : List ℕ
run_text = codes "VST3 host run() " ++ (0xe2 ∷ 0x80 ∷ 0x94 ∷ codes " not yet fully implemented")

-- `Vst3Host::Vst3Host`
unfoldable pub vst3_host : (List ℕ → Bool) → List ℕ → Io (Unit {0})
vst3_host create path =
    if create path then write_log 1 host_name loaded_text else raise lib_open_failed

-- Two channels of silence, whatever the frame held.
unfoldable pub answer_silence : ProcessFrame → Io (Unit {0})
answer_silence frame =
    let quiet : List ℕ = replicate frame.sample_count 0 in
    write_process_resp frame.sample_count 2 (quiet ∷ quiet ∷ [])

unfoldable pub serve : FrameTag → Io (Unit {0})
unfolding answer_silence
serve process = do frame ← read_process_frame_body; answer_silence frame
serve _ = pure tt

-- One round of `while (true)`.
unfoldable pub round : Io (Unit {0})
unfolding serve
round = do tag ← read_next_tag; serve tag

-- The loop of `Vst3Host::run`, for a number of rounds.
unfoldable pub rounds_of : ℕ → Io (Unit {0})
unfolding round
rounds_of zero = pure tt
rounds_of (suc rounds) = round >> rounds_of rounds

unfoldable pub run : ℕ → Io (Unit {0})
unfolding rounds_of
run rounds = write_log 2 host_name run_text >> rounds_of rounds
