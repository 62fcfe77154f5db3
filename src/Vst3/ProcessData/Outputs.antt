-- ===== src/Vst3/ProcessData/Outputs.antt =====
-- The samples of a block's outputs, as src/common/serialization/vst3/process-data.cpp copies them out of
-- shared memory.
use wasivst.Prelude.{
  ℕ, zero, suc, ◌+◌, ◌≡◌, ◌≤◌, refl, sym, ap, ◌∙◌, some, List, [], ◌∷◌, ◌++◌, arith, length, take,
  drop, le→leb, length-take, length-drop, take-append_length, drop-append_length, map,
}
use wasivst.Prelude.Vector.{copy_at}
use wasivst.Prelude.Region.{region}
use wasivst.Vst3.ProcessData.{HostBus, Bus, copy_out, copy_out_channels, write_back_buses}

-- Some channels of a bus, each with a place within a memory and a buffer that is long enough.
abbrev pub AreReady : (n size count : ℕ) → List ℕ → List (List ℕ) → Type 0
AreReady n size zero offsets buffers = Unit
AreReady n size (suc k) (o ∷ os) (b ∷ bs) =
    (o + n ≤ size) × (n ≤ length b) × AreReady n size k os bs
AreReady n size (suc k) _ _ = ⊥

-- There are as many outputs as the host has, and all their channels are so.
abbrev pub IsReady : (n size : ℕ) → List Bus → List (List ℕ) → List HostBus → Type 0
IsReady n size [] offsets [] = Unit
IsReady n size (bus ∷ buses) (os ∷ offsets) (host ∷ hosts) =
    AreReady n size bus.num_channels os host.channel_buffers × IsReady n size buses offsets hosts
IsReady n size _ _ _ = ⊥

-- The memory at the places of all channels, in their order.
unfoldable pub channel_regions : (n count : ℕ) → List ℕ → List ℕ → List (List ℕ)
channel_regions n zero offsets m = []
channel_regions n (suc k) [] m = []
channel_regions n (suc k) (o ∷ os) m = region o n m ∷ channel_regions n k os m

unfoldable pub regions : ℕ → List Bus → List (List ℕ) → List ℕ → List (List ℕ)
unfolding channel_regions
regions n (bus ∷ buses) (os ∷ offsets) m =
    channel_regions n bus.num_channels os m ++ regions n buses offsets m
regions n _ _ m = []

-- What a function gives of the buffers of all channels, in their order.
unfoldable pub of_channels : (List ℕ → List ℕ) → ℕ → List (List ℕ) → List (List ℕ)
of_channels f zero buffers = []
of_channels f (suc k) [] = []
of_channels f (suc k) (b ∷ bs) = f b ∷ of_channels f k bs

unfoldable pub of_buses : (List ℕ → List ℕ) → List Bus → List HostBus → List (List ℕ)
unfolding of_channels
of_buses f (bus ∷ buses) (host ∷ hosts) =
    of_channels f bus.num_channels host.channel_buffers ++ of_buses f buses hosts
of_buses f _ _ = []

-- A buffer of which the front is replaced.
abbrev fronted : List ℕ → List ℕ → List ℕ
fronted r b = r ++ drop (length r) b

length-region : (o n : ℕ) (m : List ℕ) → o + n ≤ length m → length (region o n m) ≡ n
length-region o n m h = omega (arith, h, length-take n (drop o m), length-drop o m)

copy_out_lem :
    (n o : ℕ) (m b : List ℕ)
    → o + n ≤ length m
    → n ≤ length b
    → copy_out n o m b ≡ some (fronted (region o n m) b)
unfolding copy_out copy_at
copy_out_lem n o m b inside room =
    rw (le→leb n (length b) room, le→leb (o + n) (length m) inside)
      (ap (λ k. some (region o n m ++ drop k b)) (omega arith))

take-fronted : (n : ℕ) (r b : List ℕ) → length r ≡ n → take n (fronted r b) ≡ r
take-fronted n r b e =
    ap (λ k. take k (fronted r b)) (sym e) ∙ take-append_length r (drop (length r) b)

drop-fronted : (n : ℕ) (r b : List ℕ) → length r ≡ n → drop n (fronted r b) ≡ drop n b
drop-fronted n r b e =
    ap (λ k. drop k (fronted r b)) (sym e)
    ∙ (drop-append_length r (drop (length r) b) ∙ ap (λ k. drop k b) e)

-- Written back: the front of each buffer is the memory at its place, and the rest is as it was.
abbrev pub Channels : (n count : ℕ) → List ℕ → List ℕ → List (List ℕ) → Type 0
Channels n count offsets m buffers =
    (buffers' : List (List ℕ)) × (copy_out_channels n count offsets m buffers ≡ some buffers')
    × (of_channels (λ b. take n b) count buffers' ≡ channel_regions n count offsets m)
    × (of_channels (λ b. drop n b) count buffers' ≡ of_channels (λ b. drop n b) count buffers)

pub copy_out_channels_lem :
    (n count : ℕ) (offsets m : List ℕ) (buffers : List (List ℕ))
    → AreReady n (length m) count offsets buffers
    → Channels n count offsets m buffers
unfolding copy_out_channels channel_regions of_channels
copy_out_channels_lem n zero offsets m buffers h = (buffers, refl, refl, refl)
copy_out_channels_lem n (suc k) [] m buffers h = absurd h
copy_out_channels_lem n (suc k) (o ∷ os) m [] h = absurd h
copy_out_channels_lem n (suc k) (o ∷ os) m (b ∷ bs) (inside, room, hs) =
    let (bs', e, heads, tails) = copy_out_channels_lem n k os m bs hs in
    let r = region o n m in
    let size = length-region o n m inside in
    (
      fronted r b ∷ bs',
      rw (copy_out_lem n o m b inside room, copy_out_channels, e) refl,
      ap (λ x. x ∷ of_channels (λ c. take n c) k bs') (take-fronted n r b size)
          ∙ ap (λ xs. r ∷ xs) heads,
      ap (λ x. x ∷ of_channels (λ c. drop n c) k bs') (drop-fronted n r b size)
          ∙ ap (λ xs. drop n b ∷ xs) tails,
    )

-- The outputs of a block, as many as the host has, whose channels have places within the memory and
-- buffers of the host that are long enough. They are all written back: the front of each channel's
-- buffer is then the memory at its place, and the rest of it is as it was; the silence flags are those
-- of the outputs.
pub write_back_buses-regions :
    (n : ℕ) (buses : List Bus) (offsets : List (List ℕ)) (m : List ℕ) (hosts : List HostBus)
    → IsReady n (length m) buses offsets hosts
    → (hosts' : List HostBus) × (write_back_buses n buses offsets m hosts ≡ some hosts')
      × (of_buses (λ b. take n b) buses hosts' ≡ regions n buses offsets m)
      × (of_buses (λ b. drop n b) buses hosts' ≡ of_buses (λ b. drop n b) buses hosts)
      × (map (λ (h : HostBus). h.host_silence) hosts' ≡ map (λ (b : Bus). b.silence_flags) buses)
unfolding write_back_buses of_buses regions
write_back_buses-regions n [] offsets m [] h = ([], refl, refl, refl, refl)
write_back_buses-regions n [] offsets m (host ∷ hosts) h = absurd h
write_back_buses-regions n (bus ∷ buses) [] m hosts h = absurd h
write_back_buses-regions n (bus ∷ buses) (os ∷ offsets) m [] h = absurd h
write_back_buses-regions n (bus ∷ buses) (os ∷ offsets) m (host ∷ hosts) (h, hs) =
    let (bs, e, heads, tails) =
      copy_out_channels_lem n bus.num_channels os m host.channel_buffers h in
    let (hosts', f, heads', tails', flags) = write_back_buses-regions n buses offsets m hosts hs in
    (
      record host { host_silence = bus.silence_flags; channel_buffers = bs } ∷ hosts',
      rw (e, write_back_buses, f) refl,
      ap (λ xs. xs ++ of_buses (λ c. take n c) buses hosts') heads
          ∙ ap (λ ys. channel_regions n bus.num_channels os m ++ ys) heads',
      ap (λ xs. xs ++ of_buses (λ c. drop n c) buses hosts') tails
          ∙ ap (λ ys. of_channels (λ c. drop n c) bus.num_channels host.channel_buffers ++ ys)
              tails',
      ap (λ xs. bus.silence_flags ∷ xs) flags,
    )
