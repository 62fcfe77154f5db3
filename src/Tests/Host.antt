-- ===== src/Tests/Host.antt =====
-- The host process and the browser's end of its channel at concrete inputs: a plugin whose output is
-- constant, at the value of its one parameter.
use mathlib.Core.List.{flatten}
use wasivst.Prelude.{
  ℕ, zero, suc, ◌%◌, ◌^◌, ◌≡◌, refl, List, [], ◌∷◌, ◌++◌, arith, length, All, replicate,
  length-replicate, some, none, true, false, if◌then◌else◌,
}
use wasivst.Prelude.Bytes.{IsU32}
use wasivst.Serial.Action.{Channel, Fault, ok, err, out_of_bounds}
use wasivst.Serial.{float_bytes}
use wasivst.Serial.Frames.{chan, HasLength, log_frame}
use wasivst.Prelude.Text.{codes}
use wasivst.Worklet.{encode_load, sample_count}
use wasivst.Worklet.RoundTrip.{FitsFrame}
use wasivst.Worklet.Dispatch.{drain, process_resp, param_value}
use wasivst.Vst2Host.{
  Plugin, find_entry, activate, loaded_text, run, round, host_name, gather, silence,
}
use wasivst.Vst2Host.Gather.{gather-flatten}
use wasivst.Vst2Host.Service.{
  Request, audio, set_value, get_value, Fits, IsConforming, encode_all, answer, answer_all,
  run_serves,
}
use wasivst.Vst2Host.Exchange.{IsRepresentable, replies_all, exchange}
use wasivst.Vst2Host.Loop.{run_ends}
use wasivst.Vst2Host.Faults.{process_frame, too_few_samples}
use wasivst.Prelude.Text.{text_eq}
use wasivst.Main.{World, is_vst3, main}
use wasivst.Main.Session.{Opens, main-session}

abbrev constant : ℕ → List (List ℕ) → ℕ → List (List ℕ)
constant s outs n = replicate (length outs) (replicate n (s % 2 ^ 32))

abbrev level : Plugin ℕ
level = record {
  dispatcher = λ s opcode value opt. s;
  process_replacing = λ s ins outs n. (s, constant s outs n);
  set_parameter = λ s id v. v;
  get_parameter = λ s id. (s, s);
  to_float = λ v. v % 2 ^ 32;
  to_double = λ v. v % 2 ^ 64;
}

All-replicate {ℓ} : {A : Type ℓ} (P : A → Type 0) (k : ℕ) (a : A) → P a → All P (replicate k a)
All-replicate P zero a h = tt
All-replicate P (suc k) a h = (h, All-replicate P k a h)

level-IsConforming : IsConforming level
level-IsConforming = record {
  outputs = λ s ins outs n. length-replicate {A = List ℕ} (length outs) _;
  samples = λ s ins outs n h. All-replicate (HasLength n) (length outs) _ (length-replicate n _);
}

level-IsRepresentable : IsRepresentable level
level-IsRepresentable = record {
  samples = λ s ins outs n.
      All-replicate (All IsU32) (length outs) _ (All-replicate IsU32 n (s % 2 ^ 32) (omega arith));
  values = λ v. omega arith;
}

abbrev stereo : List (List ℕ)
stereo = (1 ∷ 2 ∷ 3 ∷ []) ∷ (4 ∷ 5 ∷ 6 ∷ []) ∷ []

stereo-FitsFrame : FitsFrame stereo
unfolding sample_count
stereo-FitsFrame = omega arith

abbrev requests : List Request
requests = set_value 0 7 ∷ audio stereo ∷ get_value 0 ∷ []

requests-Fit : All Fits requests
requests-Fit = (omega arith, (stereo-FitsFrame, (omega arith, tt)))

exchange_example :
    let (r, c) = run level 3 0 (chan (encode_all requests) []) in
    (r ≡ ok (answer_all level 0 requests).0)
    × (c.input ≡ [])
    × (drain (length c.output) c.output
        ≡ record { messages = replies_all level 0 requests; buffer = [] })
exchange_example = exchange level level-IsConforming level-IsRepresentable requests 0 requests-Fit

-- The page learns of the constant channels and of the parameter's value.
replies_run :
    replies_all level 0 requests
    ≡ process_resp ((7 ∷ 7 ∷ 7 ∷ []) ∷ (7 ∷ 7 ∷ 7 ∷ []) ∷ []) ∷ param_value 0 7 ∷ []
unfolding replies_all answer silence sample_count
replies_run = refl

run_serves_example :
    run level 4 0 (chan (encode_all requests ++ (0x05 ∷ [])) (9 ∷ []))
    ≡ run level 1
        (answer_all level 0 requests).0
        (chan (0x05 ∷ []) (9 ∷ (answer_all level 0 requests).1))
run_serves_example =
    run_serves level level-IsConforming requests 1 0 (0x05 ∷ []) (9 ∷ []) requests-Fit

run_ends_example :
    (e : Fault) × (c : Channel) × (run level 3 0 (chan (0x05 ∷ 1 ∷ []) []) ≡ (err e, c))
run_ends_example = run_ends level 3 0 (0x05 ∷ 1 ∷ []) [] (omega arith)

too_few_samples_example :
    round level 0 (chan (process_frame 2 2 12 (float_bytes (1 ∷ 2 ∷ 3 ∷ [])) ++ []) [])
    ≡ (err out_of_bounds, chan [] [])
too_few_samples_example =
    too_few_samples [] [] level 0 2 2 (1 ∷ 2 ∷ 3 ∷ []) (omega arith) (omega arith) (omega arith)
      (omega arith) (omega arith) (omega arith)

gather-flatten_example : gather (1 ∷ 2 ∷ 3 ∷ 4 ∷ 5 ∷ 6 ∷ []) 3 2 0 ≡ some stereo
unfolding flatten
gather-flatten_example = gather-flatten 3 stereo (omega arith) (omega arith)

-- One library opens, and has an entry point under the old name.
abbrev world : World ℕ
world = record {
  plugin = level;
  loader = record {
    Handle = Unit {0};
    Entry = Unit {0};
    lib_open = λ path. if text_eq path (codes "/p.dll") then some tt else none;
    lib_sym = λ handle name. if text_eq name (codes "main") then some tt else none;
    entry = λ e. some 1;
  };
  create_module = λ path. true;
}

world-Opens : Opens true world (codes "/p.dll") 1
unfolding text_eq find_entry
world-Opens = record { library = tt; symbol = tt; opened = refl; entered = refl; effect = refl }

dll-is_vst3 : is_vst3 (codes "/p.dll") ≡ false
unfolding is_vst3
dll-is_vst3 = refl

main-session_example :
    main true world 3 (chan (encode_load (codes "/p.dll") ++ encode_all requests) []) ≡ (
      ok tt,
      chan []
          (log_frame 1 host_name loaded_text ++ (answer_all level (activate level 1) requests).1),
    )
main-session_example =
    main-session true world (codes "/p.dll") 1 requests world-Opens level-IsConforming dll-is_vst3
      (omega arith) requests-Fit
