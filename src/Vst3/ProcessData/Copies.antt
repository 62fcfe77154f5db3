-- ===== src/Vst3/ProcessData/Copies.antt =====
-- The samples of a block's inputs, as src/common/serialization/vst3/process-data.cpp copies them into
-- shared memory.
use wasivst.Prelude.{
  ℕ, zero, suc, ◌+◌, ◌≡◌, ◌≤◌, refl, sym, some, List, [], ◌∷◌, ◌++◌, arith, length, take, min, All,
  le→leb, length-take,
}
use wasivst.Prelude.Vector.{copy_at, length-copy_at}
use wasivst.Prelude.Copies.{
  Job, Fits, AreApart, run, Fits-IsInside, All-Fits, length-run, run-append, All-left, regions-run,
}
use wasivst.Prelude.Region.{region}
use wasivst.Vst3.ProcessData.{HostBus, Bus, copy_in, copy_channels, bus_of, repopulate_inputs}

-- The channels that the host and the shared memory both have, of a bus and of all.
unfoldable pub bus_jobs : (n count : ℕ) → List (List ℕ) → List ℕ → List Job
bus_jobs n zero buffers offsets = []
bus_jobs n (suc k) (b ∷ bs) (o ∷ os) = (o, take n b) ∷ bus_jobs n k bs os
bus_jobs n (suc k) _ _ = []

unfoldable pub jobs : (n : ℕ) → List HostBus → List (List ℕ) → List Job
unfolding bus_jobs
jobs n [] offsets = []
jobs n (host ∷ hosts) [] = []
jobs n (host ∷ hosts) (os ∷ offsets) =
    bus_jobs n (min (length os) host.host_channels) host.channel_buffers os ++ jobs n hosts offsets

unfoldable pub kept_buses : List HostBus → List (List ℕ) → List Bus
kept_buses (host ∷ hosts) (os ∷ offsets) =
    record { num_channels = min (length os) host.host_channels; silence_flags = host.host_silence }
    ∷ kept_buses hosts offsets
kept_buses _ _ = []

-- There are offsets for each bus, and as many buffers as the host says.
abbrev pub IsShaped : List HostBus → List (List ℕ) → Type 0
IsShaped [] offsets = Unit
IsShaped (host ∷ hosts) [] = ⊥
IsShaped (host ∷ hosts) (os ∷ offsets) =
    (host.host_channels ≤ length host.channel_buffers) × IsShaped hosts offsets

copy_in_lem :
    (n y : ℕ) (x m : List ℕ)
    → n ≤ length x
    → y + n ≤ length m
    → copy_in n x y m ≡ some (copy_at y (take n x) m)
unfolding copy_in
copy_in_lem n y x m whole inside =
    rw (le→leb n (length x) whole, le→leb (y + n) (length m) inside) refl

pub copy_channels_lem :
    (n count : ℕ) (buffers : List (List ℕ)) (offsets m : List ℕ)
    → count ≤ length buffers
    → count ≤ length offsets
    → All (Fits n (length m)) (bus_jobs n count buffers offsets)
    → copy_channels n count buffers offsets m ≡ some (run (bus_jobs n count buffers offsets) m)
unfolding copy_channels bus_jobs run
copy_channels_lem n zero buffers offsets m b o h = refl
copy_channels_lem n (suc k) [] offsets m b o h = absurd (omega (arith, b))
copy_channels_lem n (suc k) (x ∷ xs) [] m b o h = absurd (omega (arith, o))
copy_channels_lem n (suc k) (x ∷ xs) (y ∷ ys) m b o ((size, inside), hs) =
    let whole : n ≤ length x = omega (arith, size, length-take n x) in
    let same = length-copy_at y (take n x) m (omega (arith, size, inside)) in
    rw (copy_in_lem n y x m whole inside, copy_channels)
      (copy_channels_lem n k xs ys (copy_at y (take n x) m) (omega (arith, b)) (omega (arith, o))
        (All-Fits n (bus_jobs n k xs ys) (sym same) hs))

repopulate_inputs_lem :
    (n : ℕ) (hosts : List HostBus) (offsets : List (List ℕ)) (m : List ℕ)
    → IsShaped hosts offsets
    → All (Fits n (length m)) (jobs n hosts offsets)
    → repopulate_inputs n hosts offsets m
      ≡ some (kept_buses hosts offsets, run (jobs n hosts offsets) m)
unfolding repopulate_inputs jobs kept_buses run bus_of
repopulate_inputs_lem n [] offsets m s h = refl
repopulate_inputs_lem n (host ∷ hosts) [] m s h = absurd s
repopulate_inputs_lem n (host ∷ hosts) (os ∷ offsets) m (buffers, s) h =
    let count = min (length os) host.host_channels in
    let mine = bus_jobs n count host.channel_buffers os in
    let (here, others) = All-left (Fits n (length m)) mine (jobs n hosts offsets) h in
    let m' = run mine m in
    let rest = repopulate_inputs_lem n hosts offsets m' s (
      All-Fits n (jobs n hosts offsets)
        (sym (length-run mine m (Fits-IsInside n (length m) mine here))) others) in
    rw
      (
        copy_channels_lem n count host.channel_buffers os m (omega (arith, buffers)) (omega arith)
            here,
        repopulate_inputs,
        rest,
        run-append mine (jobs n hosts offsets) m,
      )
      refl

-- The inputs of a block, with offsets for each bus and as many buffers as the host says. The channels
-- that the host and the shared memory both have: the buffers hold the samples of the block, and their
-- places in the memory are within it and apart from each other. Then the memory that the inputs are
-- copied into has its old size, at the place of each of these channels are its samples, and what is kept
-- of the buses are the lesser number of channels and the host's silence flags.
pub repopulate_inputs-region :
    (n : ℕ) (hosts : List HostBus) (offsets : List (List ℕ)) (m : List ℕ)
    → IsShaped hosts offsets
    → All (Fits n (length m)) (jobs n hosts offsets)
    → AreApart n (jobs n hosts offsets)
    → (m' : List ℕ) × (repopulate_inputs n hosts offsets m ≡ some (kept_buses hosts offsets, m'))
      × (length m' ≡ length m)
      × All (λ (j : Job). region j.0 n m' ≡ j.1) (jobs n hosts offsets)
repopulate_inputs-region n hosts offsets m s h a = (
  run (jobs n hosts offsets) m,
  repopulate_inputs_lem n hosts offsets m s h,
  length-run (jobs n hosts offsets) m (Fits-IsInside n (length m) (jobs n hosts offsets) h),
  regions-run n (jobs n hosts offsets) m h a,
)
