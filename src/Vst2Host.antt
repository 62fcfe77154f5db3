-- ===== src/Vst2Host.antt =====
-- src/host/vst2/vst2-host.{h,cpp}: the loop that serves a VST2 plugin over a `SerialChannel`. The
-- plugin is no part of the repository: its entry points, and the machine's conversions between
-- floats and doubles, are the parameter `Plugin` over the plugin's state.
pub mod Gather
pub mod Loop
pub mod Service
pub mod Faults
pub mod Exchange
use wasivst.Prelude.{
  ℕ, zero, suc, ◌+◌, ◌*◌, ◌%◌, ◌^◌, Option, none, some, List, [], ◌∷◌, get_elem?, replicate, ◌==◌,
  if◌then◌else◌,
}
use wasivst.Prelude.Text.{codes}
use wasivst.Serial.Action.{
  Io, out_of_bounds, lib_open_failed, no_entry_point, null_effect, pure, raise, ◌>>=◌, ◌>>◌,
}
use wasivst.Serial.{
  FrameTag, process, set_param, get_param, ProcessFrame, ParamFrame, read_next_tag,
  read_process_frame_body, read_set_param_frame_body, read_get_param_frame_body, write_process_resp,
  write_get_param_resp, write_log,
}

-- `AEffect`. A channel is a list of float patterns; `process_replacing` gets the input and the
-- output buffers and the sample count, and returns the output buffers as it leaves them. An `int`
-- argument is its bit pattern.
pub record Plugin (S : Type 0) : Type 0 where
  pub dispatcher : S → ℕ → ℕ → ℕ → S
  pub process_replacing : S → List (List ℕ) → List (List ℕ) → ℕ → S × List (List ℕ)
  pub set_parameter : S → ℕ → ℕ → S
  pub get_parameter : S → ℕ → S × ℕ
  pub to_float : ℕ → ℕ
  pub to_double : ℕ → ℕ

abbrev pub eff_open : ℕ
eff_open = 0

abbrev pub eff_close : ℕ
eff_close = 1

abbrev pub eff_set_sample_rate : ℕ
eff_set_sample_rate = 10

abbrev pub eff_set_block_size : ℕ
eff_set_block_size = 11

abbrev pub eff_mains_changed : ℕ
eff_mains_changed = 12

-- `44100.0f`, as its bit pattern.
abbrev sample_rate : ℕ
sample_rate = 0x472c4400

-- `audio_master_callback`: what the plugin may ask of the host.
unfoldable pub audio_master_callback : ℕ → ℕ
audio_master_callback opcode =
    if opcode == 1 then 2400 else if opcode == 16 then 44100 else if opcode == 17 then 512 else 0

-- `in_bufs[c][s] = frame.samples[c * n + s]` for the `k` samples from `s` on; the index is computed
-- in 32 bits. A read beside the samples is `none`.
unfoldable pub gather_channel : List ℕ → ℕ → ℕ → ℕ → ℕ → Option (List ℕ)
gather_channel samples n c zero s = some []
gather_channel samples n c (suc k) s =
    let rest = gather_channel samples n c k (s + 1) in
    elim (get_elem? samples ((c * n + s) % 2 ^ 32)) [
      | none ↦ none
      | some x ↦ elim rest [ none ↦ none | some xs ↦ some (x ∷ xs) ]
    ]

-- The input buffers of the `k` channels from `c` on.
unfoldable pub gather : List ℕ → ℕ → ℕ → ℕ → Option (List (List ℕ))
gather samples n zero c = some []
gather samples n (suc k) c =
    let rest = gather samples n k (c + 1) in
    elim (gather_channel samples n c n 0) [
      | none ↦ none
      | some b ↦ elim rest [ none ↦ none | some bs ↦ some (b ∷ bs) ]
    ]

-- The buffers that the outputs start from.
unfoldable pub silence : ℕ → ℕ → List (List ℕ)
silence ch n = replicate ch (replicate n 0)

abbrev pub host_name : List ℕ
host_name = codes "vst2-host"

abbrev pub loaded_text : List ℕ
loaded_text = codes "plugin loaded and activated"

abbrev pub unknown_text : List ℕ
unknown_text = codes "unknown frame tag"

-- What `dlopen` and `dlsym` answer, and the plugin that an entry point makes.
pub record Loader (S : Type 0) : Type 1 where
  pub Handle : Type 0
  pub Entry : Type 0
  pub lib_open : List ℕ → Option Handle
  pub lib_sym : Handle → List ℕ → Option Entry
  pub entry : Entry → Option S

-- The symbol `VSTPluginMain`, or else `main`.
unfoldable pub find_entry : {S : Type 0} (loader : Loader S) → loader.Handle → Option loader.Entry
find_entry loader handle = elim (loader.lib_sym handle (codes "VSTPluginMain")) [
  | none ↦ loader.lib_sym handle (codes "main")
  | some e ↦ some e
]

module _ {S : Type 0} (plugin : Plugin S) where
  -- The constructor, from an opened library on.
  unfoldable pub activate : S → S
  activate s =
      let s1 = plugin.dispatcher s eff_open 0 0 in
      let s2 = plugin.dispatcher s1 eff_set_sample_rate 0 sample_rate in
      let s3 = plugin.dispatcher s2 eff_set_block_size 512 0 in
      plugin.dispatcher s3 eff_mains_changed 1 0

  -- `Vst2Host::Vst2Host`: the entry point is `VSTPluginMain`, or else `main`.
  unfoldable pub vst2_host : Loader S → List ℕ → Io S
  unfolding activate
  vst2_host loader path = elim (loader.lib_open path) [
    | none ↦ raise lib_open_failed
    | some handle ↦ elim (find_entry loader handle) [
      | none ↦ raise no_entry_point
      | some e ↦ elim (loader.entry e) [
        | none ↦ raise null_effect
        | some s ↦ do write_log 1 host_name loaded_text; pure (activate s)
      ]
    ]
  ]

  -- `Vst2Host::~Vst2Host`, as far as the plugin sees it.
  unfoldable pub close : S → S
  close s = plugin.dispatcher (plugin.dispatcher s eff_mains_changed 0 0) eff_close 0 0

  -- `process_block` once the input buffers are filled.
  unfoldable pub process_inputs : S → ℕ → ℕ → Option (List (List ℕ)) → Io S
  unfolding silence
  process_inputs s n ch none = raise out_of_bounds
  process_inputs s n ch (some inputs) =
      let (s', outputs) = plugin.process_replacing s inputs (silence ch n) n in
      write_process_resp n ch outputs >> pure s'

  unfoldable pub process_block : S → ProcessFrame → Io S
  unfolding gather gather_channel process_inputs
  process_block s frame =
      let n = frame.sample_count in
      let ch = frame.channel_count in process_inputs s n ch (gather frame.samples n ch 0)

  unfoldable pub handle_set_param : S → ParamFrame → S
  handle_set_param s p = plugin.set_parameter s p.id (plugin.to_float p.value)

  unfoldable pub handle_get_param : S → ℕ → Io S
  handle_get_param s id =
      let (s', value) = plugin.get_parameter s id in
      write_get_param_resp id (plugin.to_double value) >> pure s'

  -- The cases of the loop's `switch`.
  unfoldable pub serve : S → FrameTag → Io S
  unfolding process_block handle_set_param handle_get_param
  serve s process = do frame ← read_process_frame_body; process_block s frame
  serve s set_param = do p ← read_set_param_frame_body; pure (handle_set_param s p)
  serve s get_param = do id ← read_get_param_frame_body; handle_get_param s id
  serve s _ = do write_log 3 host_name unknown_text; pure s

  -- One round of `while (true)`.
  unfoldable pub round : S → Io S
  unfolding serve
  round s = do tag ← read_next_tag; serve s tag

  -- `Vst2Host::run` for a number of rounds: the loop has no exit but a fault.
  unfoldable pub run : ℕ → S → Io S
  unfolding round
  run zero s = pure s
  run (suc rounds) s = round s >>= run rounds
