-- ===== src/Vst2Host/Service.antt =====
-- What `Vst2Host` (src/host/vst2/vst2-host.cpp) promises to the browser's end of the channel
-- (src/worklet/wasivst.js): a plugin service that answers requests one after the other.
use mathlib.Core.List.{flatten}
use native.Mathlib.Nat.{zero-add}
use wasivst.Prelude.{
  ℕ, zero, suc, ◌+◌, ◌≡◌, sym, ap, ◌∙◌, List, [], ◌∷◌, ◌++◌, arith, append_assoc, append-nil,
  length, All, length-replicate, replicate, some,
}
use wasivst.Prelude.Bytes.{IsU32, IsU64}
use wasivst.Serial.Action.{ok, bind_ok}
use wasivst.Serial.{
  write_process_resp, write_get_param_resp, write_bytes, frame_tag, read_next_tag,
  read_process_frame_body, read_set_param_frame_body, read_get_param_frame_body,
}
use wasivst.Serial.Frames.{
  write_process_resp_full, process_resp_frame, get_param_resp_frame, chan, HasLength,
}
use wasivst.Worklet.{encode_process, encode_set_param, encode_get_param, sample_count}
use wasivst.Worklet.RoundTrip.{
  sent, sent-HasLength, length-sent, FitsFrame, encode_process-append, read_next_tag-cons,
  process_body, set_param_body, get_param_body,
}
use wasivst.Vst2Host.{Plugin, silence, gather, process_inputs, process_block, serve, round, run}
use wasivst.Vst2Host.Gather.{gather-flatten}

pub data Request : Type 0 where
  audio : List (List ℕ) → Request
  set_value : ℕ → ℕ → Request
  get_value : ℕ → Request

-- The frame that the browser sends for a request.
unfoldable pub encode : Request → List ℕ
encode (audio channels) = encode_process channels
encode (set_value id value) = encode_set_param id value
encode (get_value id) = encode_get_param id

unfoldable pub encode_all : List Request → List ℕ
encode_all [] = []
encode_all (r ∷ rs) = encode r ++ encode_all rs

abbrev pub Fits : Request → Type 0
Fits (audio channels) = FitsFrame channels
Fits (set_value id value) = IsU32 id × IsU64 value
Fits (get_value id) = IsU32 id

-- What the host relies on: `processReplacing` leaves as many output buffers as it was given, and as
-- long as they were.
pub record IsConforming {S : Type 0} (plugin : Plugin S) : Type 0 where
  pub outputs :
      (s : S) (inputs outs : List (List ℕ)) (n : ℕ)
      → length (plugin.process_replacing s inputs outs n).1 ≡ length outs
  pub samples :
      (s : S) (inputs outs : List (List ℕ)) (n : ℕ)
      → All (HasLength n) outs
      → All (HasLength n) (plugin.process_replacing s inputs outs n).1

module _ {S : Type 0} (plugin : Plugin S) where
  -- The plugin's next state and the bytes of the answer.
  unfoldable pub answer : S → Request → S × List ℕ
  answer s (audio channels) =
      let n = sample_count channels in
      let (s', outs) = plugin.process_replacing s (sent channels) (silence (length channels) n) n in
      (s', process_resp_frame n outs)
  answer s (set_value id value) = (plugin.set_parameter s id (plugin.to_float value), [])
  answer s (get_value id) =
      let (s', value) = plugin.get_parameter s id in
      (s', get_param_resp_frame id (plugin.to_double value))

  unfoldable pub answer_all : S → List Request → S × List ℕ
  answer_all s [] = (s, [])
  answer_all s (r ∷ rs) =
      let (s', bytes) = answer s r in let (t, rest) = answer_all s' rs in (t, bytes ++ rest)

pub silence-HasLength : (ch n : ℕ) → All (HasLength n) (replicate ch (replicate n 0))
silence-HasLength zero n = tt
silence-HasLength (suc ch) n = (length-replicate n 0, silence-HasLength ch n)

module _ {S : Type 0} (plugin : Plugin S) (conforms : IsConforming plugin) (s : S) where
  answer_block :
      (chs : List (List ℕ)) (rest out : List ℕ)
      → let n = sample_count chs in
        process_inputs plugin s n (length chs) (some (sent chs)) (chan rest out)
        ≡ (ok (answer plugin s (audio chs)).0, chan rest (out ++ (answer plugin s (audio chs)).1))
  unfolding process_inputs answer
  answer_block chs rest out =
      let n = sample_count chs in
      let quiet : List (List ℕ) = replicate (length chs) (replicate n 0) in
      let outs = (plugin.process_replacing s (sent chs) quiet n).1 in
      let full : All (HasLength n) outs =
        conforms.samples s (sent chs) quiet n (silence-HasLength (length chs) n) in
      let count : length outs ≡ length chs =
        conforms.outputs s (sent chs) quiet n
        ∙ length-replicate {A = List ℕ} (length chs) (replicate n 0) in
      bind_ok (write_process_resp n (length chs) outs) _
        (rw count at (write_process_resp_full n outs rest out full))

  gather-sent :
      (chs : List (List ℕ))
      → FitsFrame chs
      → gather (flatten (sent chs)) (sample_count chs) (length chs) 0 ≡ some (sent chs)
  gather-sent chs h = rw length-sent at (
      gather-flatten (sample_count chs) (sent chs) (sent-HasLength chs)
        (rw length-sent (omega arith)))

  round_audio :
      (chs : List (List ℕ)) (rest out : List ℕ)
      → FitsFrame chs
      → round plugin s (chan (encode_process chs ++ rest) out)
        ≡ (ok (answer plugin s (audio chs)).0, chan rest (out ++ (answer plugin s (audio chs)).1))
  unfolding round serve frame_tag process_block
  round_audio chs rest out h = rw encode_process-append (
      bind_ok read_next_tag _ (read_next_tag-cons _ out 0x02)
      ∙ bind_ok read_process_frame_body _ (process_body rest out chs h)
      ∙ rw (gather-sent chs h) (answer_block chs rest out))

  round_set :
      (id value : ℕ) (rest out : List ℕ)
      → IsU32 id
      → IsU64 value
      → round plugin s (chan (encode_set_param id value ++ rest) out)
        ≡ (ok (answer plugin s (set_value id value)).0, chan rest out)
  unfolding round encode_set_param serve frame_tag answer
  round_set id value rest out hi hv =
      bind_ok read_next_tag _ (read_next_tag-cons _ out 0x04)
      ∙ bind_ok read_set_param_frame_body _ (set_param_body rest out id value hi hv)

  round_get :
      (id : ℕ) (rest out : List ℕ)
      → IsU32 id
      → round plugin s (chan (encode_get_param id ++ rest) out) ≡ (
        ok (answer plugin s (get_value id)).0,
        chan rest (out ++ (answer plugin s (get_value id)).1),
      )
  unfolding round encode_get_param serve frame_tag answer get_param_resp_frame write_get_param_resp
      write_bytes
  round_get id rest out hi =
      bind_ok read_next_tag _ (read_next_tag-cons _ out 0x05)
      ∙ bind_ok read_get_param_frame_body _ (get_param_body rest out id hi)
      ∙ simp append_assoc

  round_answers :
      (r : Request) (rest out : List ℕ)
      → Fits r
      → round plugin s (chan (encode r ++ rest) out)
        ≡ (ok (answer plugin s r).0, chan rest (out ++ (answer plugin s r).1))
  unfolding encode
  round_answers (audio chs) rest out h = round_audio chs rest out h
  round_answers (set_value id value) rest out h =
      round_set id value rest out h.0 h.1
      ∙ unfold answer in
        ap (λ o. (ok (answer plugin s (set_value id value)).0, chan rest o)) (sym (append-nil out))
  round_answers (get_value id) rest out h = round_get id rest out h

module _ {S : Type 0} (plugin : Plugin S) (conforms : IsConforming plugin) where
  -- For a plugin whose `processReplacing` keeps the number and the lengths of the output buffers, and
  -- requests whose numbers fit their frames: the loop answers the requests whose frames it reads, in
  -- their order, as the service does. The plugin ends in the state of the service, the output has grown by the answers, and the loop goes
  -- on with what follows the frames.
  pub run_serves :
      (rs : List Request) (rounds : ℕ) (s : S) (rest out : List ℕ)
      → All Fits rs
      → run plugin (length rs + rounds) s (chan (encode_all rs ++ rest) out)
        ≡ run plugin rounds
            (answer_all plugin s rs).0
            (chan rest (out ++ (answer_all plugin s rs).1))
  unfolding encode_all answer_all run
  run_serves [] rounds s rest out h = cc (zero-add rounds, append-nil out)
  run_serves (r ∷ rs) rounds s rest out (hr, hrs) =
      let more : suc (length rs) + rounds ≡ suc (length rs + rounds) = omega arith in
      let s' = (answer plugin s r).0 in
      let bytes = (answer plugin s r).1 in
      let tail = (answer_all plugin s' rs).1 in
      rw (more, append_assoc (encode r) (encode_all rs) rest)
        (bind_ok (round plugin s) (run plugin (length rs + rounds))
            (round_answers plugin conforms s r (encode_all rs ++ rest) out hr)
          ∙ run_serves rs rounds s' rest (out ++ bytes) hrs
          ∙ ap (λ o. run plugin rounds (answer_all plugin s' rs).0 (chan rest o))
              (append_assoc out bytes tail))
