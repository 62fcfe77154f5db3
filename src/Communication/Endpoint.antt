-- ===== src/Communication/Endpoint.antt =====
-- The directory of a bridge's sockets: `generate_endpoint_base` (src/common/communication/common.cpp) and the
-- destructor of `Sockets` (src/common/communication/common.h). A path is its text. How a path is appended
-- to another, the random samples and the file system are parameters.
pub mod Lifetime
use wasivst.Prelude.{ℕ, zero, suc, Bool, true, false, Option, none, some, List, ◌++◌, if◌then◌else◌}
use wasivst.Prelude.Text.{codes}
use wasivst.Process.{starts_with}

-- `temp_directory / socket_name`, with the identifier that was sampled.
unfoldable pub candidate :
    (append : List ℕ → List ℕ → List ℕ) (temp_directory plugin_name random_id : List ℕ) → List ℕ
candidate append temp_directory plugin_name random_id =
    append temp_directory (codes "yabridge-" ++ (plugin_name ++ (codes "-" ++ random_id)))

module _ {D : Type 0} (append : List ℕ → List ℕ → List ℕ) (exists : List ℕ → D → Bool)
    (samples : ℕ → List ℕ) where
  -- The loop, whose rounds use the samples from the `i`-th on; `none` is a loop that has not ended when
  -- the fuel is used up.
  unfoldable pub generate_from :
      (fuel i : ℕ) (temp_directory plugin_name : List ℕ) → D → Option (List ℕ)
  unfolding candidate
  generate_from zero i temp name disk = none
  generate_from (suc fuel) i temp name disk =
      let path = candidate append temp name (samples i) in
      let rest = generate_from fuel (suc i) temp name disk in
      if exists path disk then rest else some path

  unfoldable pub generate_endpoint_base :
      (fuel : ℕ) (temp_directory plugin_name : List ℕ) → D → Option (List ℕ)
  unfolding generate_from
  generate_endpoint_base fuel temp name disk = generate_from fuel 0 temp name disk

-- What the destructor has done: the directory was removed, or the removal failed and was ignored, or
-- there was a warning in the log.
pub data Cleanup (D : Type 0) : Type 0 where
  removed : D → Cleanup D
  ignored warned : Cleanup D

removal : {D : Type 0} → Option D → Cleanup D
removal none = ignored
removal (some disk) = removed disk

unfoldable pub destroy_sockets :
    {D : Type 0} → (remove_all : List ℕ → D → Option D) (base_dir temp_dir : List ℕ) → D → Cleanup D
unfolding removal starts_with
destroy_sockets remove_all base_dir temp_dir disk =
    if starts_with base_dir temp_dir then removal (remove_all base_dir disk) else warned
