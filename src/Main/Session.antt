-- ===== src/Main/Session.antt =====
-- A whole session of the host process (src/host/main.cpp) with the page (src/worklet/wasivst.js).
use wasivst.Prelude.{
  ℕ, ◌<◌, ◌^◌, ◌≡◌, refl, ◌∙◌, Bool, true, false, ◌&&◌, some, List, [], ◌++◌, arith, length, All,
  if◌then◌else◌, append-nil,
}
use native.Mathlib.Nat.{add-zero}
use wasivst.Serial.Action.{ok, bind_ok}
use wasivst.Serial.{frame_tag, read_next_tag, read_load_frame_body, write_log}
use wasivst.Serial.Frames.{chan, log_frame, write_log-log_frame}
use wasivst.Worklet.{encode_load}
use wasivst.Worklet.RoundTrip.{load_body, read_next_tag-cons}
use wasivst.Vst2Host.{find_entry, vst2_host, activate, run, host_name, loaded_text}
use wasivst.Vst2Host.Service.{Request, Fits, IsConforming, encode_all, answer_all, run_serves}
use wasivst.Main.{World, is_vst3, run_vst3, run_vst2, start, main}

module _ {S : Type 0} (with_vst3 : Bool) (world : World S) where
  -- The frame that the page sends to load a plugin, whose path's length fits 32 bits, starts the VST3
  -- host, where the program is built with it and the path ends in `.vst3`, and else the VST2 host, on
  -- what follows the frame.
  pub main-encode_load :
      (rounds : ℕ) (path rest out : List ℕ)
      → length path < 2 ^ 32
      → main with_vst3 world rounds (chan (encode_load path ++ rest) out)
        ≡ (if with_vst3 && is_vst3 path
              then run_vst3 with_vst3 world rounds path
              else run_vst2 with_vst3 world rounds path)
            (chan rest out)
  unfolding main start frame_tag encode_load
  main-encode_load rounds path rest out h =
      bind_ok read_next_tag _ (read_next_tag-cons _ out 0x01)
      ∙ bind_ok read_load_frame_body _ (load_body rest out path h)

  -- A library that opens, has an entry point and gives a plugin.
  pub record Opens (path : List ℕ) (s : S) : Type 0 where
    pub library : world.loader.Handle
    pub symbol : world.loader.Entry
    pub opened : world.loader.lib_open path ≡ some library
    pub entered : find_entry world.loader library ≡ some symbol
    pub effect : world.loader.entry symbol ≡ some s

  vst2_host_lem :
      (path rest out : List ℕ) (s : S)
      → Opens path s
      → vst2_host world.plugin world.loader path (chan rest out)
        ≡ (ok (activate world.plugin s), chan rest (out ++ log_frame 1 host_name loaded_text))
  unfolding vst2_host
  vst2_host_lem path rest out s h =
      rw (h.opened, h.entered, h.effect, vst2_host)
        (bind_ok (write_log 1 host_name loaded_text) _
          (write_log-log_frame 1 host_name loaded_text rest out (omega arith) (omega arith)))

  session_lem :
      (path : List ℕ) (s : S) (rs : List Request)
      → Opens path s
      → IsConforming world.plugin
      → All Fits rs
      → run_vst2 with_vst3 world (length rs) path (chan (encode_all rs) []) ≡ (
        ok tt,
        chan [] (
            log_frame 1 host_name loaded_text
            ++ (answer_all world.plugin (activate world.plugin s) rs).1),
      )
  unfolding run_vst2
  session_lem path s rs opens conforms fits =
      let log = log_frame 1 host_name loaded_text in
      let answers = (answer_all world.plugin (activate world.plugin s) rs) in
      let done : run world.plugin (length rs) (activate world.plugin s) (chan (encode_all rs) log)
          ≡ (ok answers.0, chan [] (log ++ answers.1)) =
        unfold run in
        rw (add-zero, append-nil) at
          (run_serves world.plugin conforms rs 0 (activate world.plugin s) [] log fits) in
      bind_ok (vst2_host world.plugin world.loader path) _
        (vst2_host_lem path (encode_all rs) [] s opens)
      ∙ bind_ok (run world.plugin (length rs) (activate world.plugin s)) _ done

  -- For a library that opens, has an entry point and gives a plugin, whose path does not end in
  -- `.vst3` and has a length of 32 bits; for a plugin whose `processReplacing` keeps the number and
  -- the lengths of the output buffers; and for requests whose numbers fit their frames: the process is
  -- sent the frame that loads the library and the frames of the requests. It has read them all once it
  -- has made as many rounds as there are requests, and has written the log entry that the plugin is
  -- loaded and then the answers of the service, from the activated plugin on.
  pub main-session :
      (path : List ℕ) (s : S) (rs : List Request)
      → Opens path s
      → IsConforming world.plugin
      → is_vst3 path ≡ false
      → length path < 2 ^ 32
      → All Fits rs
      → main with_vst3 world (length rs) (chan (encode_load path ++ encode_all rs) []) ≡ (
        ok tt,
        chan [] (
            log_frame 1 host_name loaded_text
            ++ (answer_all world.plugin (activate world.plugin s) rs).1),
      )
  main-session path s rs opens conforms other short fits =
      main-encode_load (length rs) path (encode_all rs) [] short ∙ (choice (with_vst3) ∙ session)
    where
      choice :
          (b : Bool)
          → (if b && is_vst3 path
                then run_vst3 with_vst3 world (length rs) path
                else run_vst2 with_vst3 world (length rs) path)
              (chan (encode_all rs) [])
            ≡ run_vst2 with_vst3 world (length rs) path (chan (encode_all rs) [])
      choice true = rw other refl
      choice false = refl

      session : run_vst2 with_vst3 world (length rs) path (chan (encode_all rs) []) ≡ (
        ok tt,
        chan [] (
            log_frame 1 host_name loaded_text
            ++ (answer_all world.plugin (activate world.plugin s) rs).1),
      )
      session = session_lem path s rs opens conforms fits
