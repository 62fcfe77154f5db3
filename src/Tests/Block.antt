-- ===== src/Tests/Block.antt =====
-- The audio of a VST3 block (src/common/serialization/vst3/process-data.cpp) at concrete inputs.
use wasivst.Prelude.{
  ℕ, ◌≡◌, refl, some, List, [], ◌∷◌, inr, arith, length, take, drop, All, map, replicate,
}
use wasivst.Prelude.Vector.{copy_at}
use wasivst.Prelude.Region.{region}
use wasivst.Prelude.Copies.{Job}
use wasivst.Vst3.ProcessData.{
  HostBus, Bus, bus_of, repopulate_inputs, write_back_buses, channel_size, copy_in, copy_channels,
}
use wasivst.Vst3.ProcessData.Copies.{bus_jobs, jobs, kept_buses, repopulate_inputs-region}
use wasivst.Vst3.ProcessData.Outputs.{
  channel_regions, regions, of_channels, of_buses, write_back_buses-regions,
}

-- Two channels, with a sample of four bytes each and one byte more.
abbrev stereo : HostBus
stereo = record {
  host_channels = 2;
  host_silence = 0;
  channel_buffers = (1 ∷ 2 ∷ 3 ∷ 4 ∷ 9 ∷ []) ∷ (5 ∷ 6 ∷ 7 ∷ 8 ∷ 9 ∷ []) ∷ [];
}

-- The plugin has a third channel.
abbrev places : List (List ℕ)
places = (8 ∷ 0 ∷ 4 ∷ []) ∷ []

one_sample : channel_size 0 1 ≡ 4
unfolding channel_size
one_sample = refl

repopulate_inputs-region_example :
    (m' : List ℕ) × (repopulate_inputs 4 (stereo ∷ []) places (replicate 12 0)
      ≡ some (kept_buses (stereo ∷ []) places, m'))
    × (length m' ≡ 12)
    × All (λ (j : Job). region j.0 4 m' ≡ j.1) (jobs 4 (stereo ∷ []) places)
unfolding jobs bus_jobs bus_of
repopulate_inputs-region_example =
    repopulate_inputs-region 4 (stereo ∷ []) places (replicate 12 0) (omega arith, tt)
      ((refl, omega arith), ((refl, omega arith), tt)) ((inr (omega arith), tt), (tt, tt))

inputs_copied :
    repopulate_inputs 4 (stereo ∷ []) places (replicate 12 0)
    ≡ some (
      record { num_channels = 2; silence_flags = 0 } ∷ [],
      5 ∷ 6 ∷ 7 ∷ 8 ∷ 0 ∷ 0 ∷ 0 ∷ 0 ∷ 1 ∷ 2 ∷ 3 ∷ 4 ∷ [],
    )
unfolding repopulate_inputs copy_channels copy_in copy_at bus_of
inputs_copied = refl

abbrev silent : List Bus
silent = record { num_channels = 2; silence_flags = 3 } ∷ []

abbrev rendered : List ℕ
rendered = 21 ∷ 22 ∷ 23 ∷ 24 ∷ 0 ∷ 0 ∷ 0 ∷ 0 ∷ 11 ∷ 12 ∷ 13 ∷ 14 ∷ []

write_back_buses-regions_example :
    (hosts' : List HostBus) × (write_back_buses 4 silent places rendered (stereo ∷ [])
      ≡ some hosts')
    × (of_buses (λ b. take 4 b) silent hosts'
        ≡ (11 ∷ 12 ∷ 13 ∷ 14 ∷ []) ∷ (21 ∷ 22 ∷ 23 ∷ 24 ∷ []) ∷ [])
    × (of_buses (λ b. drop 4 b) silent hosts' ≡ (9 ∷ []) ∷ (9 ∷ []) ∷ [])
    × (map (λ (h : HostBus). h.host_silence) hosts' ≡ 3 ∷ [])
unfolding of_buses of_channels regions channel_regions
write_back_buses-regions_example =
    write_back_buses-regions 4 silent places rendered (stereo ∷ [])
      ((omega arith, omega arith, (omega arith, omega arith, tt)), tt)
