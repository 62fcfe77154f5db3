-- ===== src/Vst2Host/Exchange.antt =====
-- The whole way: the browser (src/worklet/wasivst.js) sends requests, `Vst2Host`
-- (src/host/vst2/vst2-host.cpp) answers them, and the browser takes the answers from its buffer.
use native.Mathlib.Nat.{add-zero}
use wasivst.Prelude.{
  ℕ, zero, suc, ◌≤◌, ◌<◌, ◌≡◌, refl, ap, ◌∙◌, List, [], ◌∷◌, ◌++◌, arith, append-nil, length, All,
  length-append, length-replicate, replicate,
}
use wasivst.Prelude.Bytes.{IsU32, IsU64}
use wasivst.Serial.Action.{ok}
use wasivst.Serial.Frames.{chan, process_resp_frame, get_param_resp_frame}
use wasivst.Worklet.{sample_count}
use wasivst.Worklet.RoundTrip.{sent, FitsFrame}
use wasivst.Worklet.Dispatch.{
  Message, process_resp, param_value, frame, next_frame, drain, dispatched,
}
use wasivst.Worklet.Received.{next_frame-process_resp, next_frame-param}
use wasivst.Vst2Host.{Plugin, silence, run}
use wasivst.Vst2Host.Service.{
  Request, audio, set_value, get_value, Fits, IsConforming, encode_all, answer, answer_all,
  run_serves, silence-HasLength,
}

-- The plugin's samples and the doubles made from its parameters are bit patterns of their width.
pub record IsRepresentable {S : Type 0} (plugin : Plugin S) : Type 0 where
  pub samples :
      (s : S) (inputs outs : List (List ℕ)) (n : ℕ)
      → All (All IsU32) (plugin.process_replacing s inputs outs n).1
  pub values : (v : ℕ) → IsU64 (plugin.to_double v)

module _ {S : Type 0} (plugin : Plugin S) where
  -- What the page learns from a request.
  unfoldable pub replies : S → Request → List Message
  replies s (audio chs) =
      let n = sample_count chs in
      process_resp (plugin.process_replacing s (sent chs) (silence (length chs) n) n).1 ∷ []
  replies s (set_value id value) = []
  replies s (get_value id) = param_value id (plugin.to_double (plugin.get_parameter s id).1) ∷ []

  unfoldable pub replies_all : S → List Request → List Message
  unfolding replies
  replies_all s [] = []
  replies_all s (r ∷ rs) = replies s r ++ replies_all (answer plugin s r).0 rs

-- A frame at the head of the buffer is dispatched before what follows it.
drain-frame :
    (front rest : List ℕ) (m : Message) (ms : List Message) (rounds : ℕ)
    → next_frame (front ++ rest) ≡ frame m rest
    → 0 < length front
    → length (front ++ rest) ≤ rounds
    → ((k : ℕ) → length rest ≤ k → drain k rest ≡ record { messages = ms; buffer = [] })
    → drain rounds (front ++ rest) ≡ record { messages = m ∷ ms; buffer = [] }
drain-frame front rest m ms zero e h fits later = absurd (omega (arith, length-append front rest))
drain-frame front rest m ms (suc k) e h fits later =
    unfold drain dispatched in
    rw (e, drain) (ap (dispatched m) (later k (omega (arith, length-append front rest))))

process_resp_pos : (n : ℕ) (outs : List (List ℕ)) → 0 < length (process_resp_frame n outs)
unfolding process_resp_frame
process_resp_pos n outs = omega arith

get_param_resp_pos : (id value : ℕ) → 0 < length (get_param_resp_frame id value)
unfolding get_param_resp_frame
get_param_resp_pos id value = omega arith

drain-nil : (rounds : ℕ) → drain rounds [] ≡ record { messages = []; buffer = [] }
unfolding drain
drain-nil zero = refl
drain-nil (suc rounds) = refl

module _ {S : Type 0} (plugin : Plugin S) (conforms : IsConforming plugin)
    (representable : IsRepresentable plugin) where
  audio_frame :
      (s : S) (chs : List (List ℕ)) (rest : List ℕ)
      → FitsFrame chs
      → let n = sample_count chs in
        let outs = (plugin.process_replacing s (sent chs) (silence (length chs) n) n).1 in
        next_frame (process_resp_frame n outs ++ rest) ≡ frame (process_resp outs) rest
  unfolding silence
  audio_frame s chs rest h =
      let n = sample_count chs in
      let quiet : List (List ℕ) = replicate (length chs) (replicate n 0) in
      let outs = (plugin.process_replacing s (sent chs) quiet n).1 in
      let count : length outs ≡ length chs =
        conforms.outputs s (sent chs) quiet n
        ∙ length-replicate {A = List ℕ} (length chs) (replicate n 0) in
      next_frame-process_resp n outs rest h.count (rw count h.channels)
        (conforms.samples s (sent chs) quiet n (silence-HasLength (length chs) n))
        (representable.samples s (sent chs) quiet n)

  drain-answer_all :
      (rs : List Request) (s : S) (rounds : ℕ)
      → All Fits rs
      → length (answer_all plugin s rs).1 ≤ rounds
      → drain rounds (answer_all plugin s rs).1
        ≡ record { messages = replies_all plugin s rs; buffer = [] }
  unfolding answer_all answer replies_all
  drain-answer_all [] s rounds h fits = drain-nil rounds
  drain-answer_all (audio chs ∷ rs) s rounds (hr, hrs) fits =
      drain-frame _ _ _ _ rounds (audio_frame s chs _ hr) (process_resp_pos _ _) fits
        (λ k h. drain-answer_all rs _ k hrs h)
  drain-answer_all (set_value id value ∷ rs) s rounds (hr, hrs) fits =
      drain-answer_all rs _ rounds hrs fits
  drain-answer_all (get_value id ∷ rs) s rounds (hr, hrs) fits =
      drain-frame _ _ _ _ rounds
        (next_frame-param id (plugin.to_double (plugin.get_parameter s id).1) _ hr
          (representable.values _))
        (get_param_resp_pos id _) fits (λ k h. drain-answer_all rs _ k hrs h)

  -- For a plugin whose `processReplacing` keeps the number and the lengths of the output buffers, whose
  -- samples have 32 bits and whose doubles 64, and requests whose numbers fit their frames: the browser
  -- sends the frames, and nothing else. The host has read them all and answered once it has made as
  -- many rounds, its plugin is in the state of the service, and the page learns from the answers just
  -- what the service replies, with no byte left over.
  pub exchange :
      (rs : List Request) (s : S)
      → All Fits rs
      → let (r, c) = run plugin (length rs) s (chan (encode_all rs) []) in
        (r ≡ ok (answer_all plugin s rs).0)
        × (c.input ≡ [])
        × (drain (length c.output) c.output
            ≡ record { messages = replies_all plugin s rs; buffer = [] })
  exchange rs s h =
      let done : run plugin (length rs) s (chan (encode_all rs) [])
          ≡ (ok (answer_all plugin s rs).0, chan [] (answer_all plugin s rs).1) =
        unfold run in rw (add-zero, append-nil) at (run_serves plugin conforms rs 0 s [] [] h) in
      rw done (refl, refl, drain-answer_all rs s _ h (omega arith))
