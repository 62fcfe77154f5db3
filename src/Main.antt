-- ===== src/Main.antt =====
-- src/host/main.cpp: the host process. The first frame names the plugin, and its name chooses the
-- host. `with_vst3` says whether the program is built with `WITH_VST3`.
pub mod Session
use wasivst.Prelude.{
  ℕ, ◌-◌, Bool, true, false, ◌&&◌, ◌==◌, List, [], ◌∷◌, leb, length, drop, if◌then◌else◌,
}
use wasivst.Prelude.Text.{codes, text_eq}
use wasivst.Serial.Action.{Io, expected_load, pure, raise, ◌>>=◌, ◌>>◌}
use wasivst.Serial.{FrameTag, load, read_next_tag, read_load_frame_body}
use wasivst.Vst2Host
use wasivst.Vst2Host.{Plugin, Loader}
use wasivst.Vst3Host

unfoldable pub is_vst3 : List ℕ → Bool
unfolding text_eq
is_vst3 path = leb 5 (length path) && text_eq (drop (length path - 5) path) (codes ".vst3")

-- What the process finds outside: a plugin behind a library, and the VST3 module loader.
pub record World (S : Type 0) : Type 1 where
  pub plugin : Plugin S
  pub loader : Loader S
  pub create_module : List ℕ → Bool

module _ {S : Type 0} (with_vst3 : Bool) (world : World S) where
  unfoldable pub run_vst3 : ℕ → List ℕ → Io (Unit {0})
  run_vst3 rounds path = Vst3Host.vst3_host world.create_module path >> Vst3Host.run rounds

  unfoldable pub run_vst2 : ℕ → List ℕ → Io (Unit {0})
  run_vst2 rounds path = do
    s ← Vst2Host.vst2_host world.plugin world.loader path
    s' ← Vst2Host.run world.plugin rounds s
    pure tt

  unfoldable pub start : ℕ → FrameTag → Io (Unit {0})
  unfolding run_vst3 run_vst2
  start rounds load = do
    path ← read_load_frame_body
    if with_vst3 && is_vst3 path then run_vst3 rounds path else run_vst2 rounds path
  start rounds _ = raise expected_load

  -- `main`, with a number of rounds for the loop of the host.
  unfoldable pub main : ℕ → Io (Unit {0})
  unfolding start
  main rounds = do tag ← read_next_tag; start rounds tag
