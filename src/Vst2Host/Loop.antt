-- ===== src/Vst2Host/Loop.antt =====
-- The loop of `Vst2Host::run` (src/host/vst2/vst2-host.cpp) ends by a fault and by nothing else, once
-- it has been given more rounds than there are bytes of input.
use wasivst.Prelude.{
  ℕ, zero, suc, ◌<◌, ◌≡◌, ◌∙◌, inl, inr, List, [], ◌∷◌, arith, length, Option, none, some,
}
use wasivst.Serial.Action.{Fault, eof, Channel, err, bind_ok, bind_err, Io-cases}
use wasivst.Serial.{
  FrameTag, ProcessFrame, process, set_param, get_param, read_next_tag, read_tag, frame_tag,
  read_bytes,
}
use wasivst.Serial.Frames.{chan, read_bytes_short}
use wasivst.Serial.Consumption.{
  Shrinks, shrink_rules, Shrinks-read_process_frame_body, Shrinks-read_set_param_frame_body,
  Shrinks-read_get_param_frame_body, Shrinks-write_process_resp, Shrinks-write_get_param_resp,
  Shrinks-write_log,
}
use wasivst.Worklet.RoundTrip.{read_next_tag-cons}
use wasivst.Vst2Host.{Plugin, process_inputs, process_block, handle_get_param, serve, round, run}

-- At the end of the input the next tag cannot be read.
pub read_next_tag_end : (out : List ℕ) → read_next_tag (chan [] out) ≡ (err eof, chan [] out)
unfolding read_next_tag read_tag
read_next_tag_end out =
    bind_err read_tag _ (bind_err (read_bytes 1) _ (read_bytes_short 1 (chan [] out) (omega arith)))

module _ {S : Type 0} (plugin : Plugin S) where
  process_inputs-Shrinks :
      (s : S) (n ch : ℕ) (inputs : Option (List (List ℕ)))
      → Shrinks (process_inputs plugin s n ch inputs)
  unfolding process_inputs
  process_inputs-Shrinks s n ch none = search shrink_rules
  process_inputs-Shrinks s n ch (some inputs) = search (shrink_rules, Shrinks-write_process_resp)

  process_block-Shrinks : (s : S) (frame : ProcessFrame) → Shrinks (process_block plugin s frame)
  unfolding process_block
  process_block-Shrinks s frame = process_inputs-Shrinks s _ _ _

  serve-Shrinks : (s : S) (tag : FrameTag) → Shrinks (serve plugin s tag)
  unfolding serve handle_get_param
  serve-Shrinks s process =
      search (shrink_rules, Shrinks-read_process_frame_body, process_block-Shrinks)
  serve-Shrinks s set_param = search (shrink_rules, Shrinks-read_set_param_frame_body)
  serve-Shrinks s get_param =
      search (shrink_rules, Shrinks-read_get_param_frame_body, Shrinks-write_get_param_resp)
  serve-Shrinks s _ = search (shrink_rules, Shrinks-write_log)

  round-cons :
      (s : S) (b : ℕ) (input out : List ℕ)
      → round plugin s (chan (b ∷ input) out) ≡ serve plugin s (frame_tag b) (chan input out)
  unfolding round
  round-cons s b input out = bind_ok read_next_tag _ (read_next_tag-cons input out b)

  -- More rounds than bytes of input: the loop has ended, and it has ended by a fault.
  pub run_ends :
      (rounds : ℕ) (s : S) (input out : List ℕ)
      → length input < rounds
      → (e : Fault) × (c : Channel) × (run plugin rounds s (chan input out) ≡ (err e, c))
  unfolding run
  run_ends zero s input out h = absurd (omega arith)
  run_ends (suc k) s [] out h = (
    eof,
    chan [] out,
    bind_err (round plugin s) _ (unfold round in bind_err read_next_tag _ (read_next_tag_end out)),
  )
  run_ends (suc k) s (b ∷ input) out h =
      let m = serve plugin s (frame_tag b) in
      let c = chan input out in
      elim (Io-cases m c) [
        | inl (s', p) ↦
            let left = (m c).1 in
            let (e, c', q) =
              run_ends k s' left.input left.output
                (omega (arith, (serve-Shrinks s (frame_tag b)).at c)) in
            (e, c', bind_ok (round plugin s) _ (round-cons s b input out ∙ p) ∙ q)
        | inr (e, p) ↦ (e, _, bind_err (round plugin s) _ (round-cons s b input out ∙ p))
      ]
