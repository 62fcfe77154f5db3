-- ===== src/Tests/Memory.antt =====
-- Shared memory (src/common/audio-shm.cpp) on a system that grants no locked memory.
use mathlib.Core.Option.{some-injective}
use wasivst.Prelude.{
  ap, ℕ, suc, ◌≡◌, refl, true, false, Bool, Option, none, some, List, [], ◌∷◌, arith,
}
use wasivst.Prelude.Text.{codes, text_eq}
use wasivst.AudioShm.{
  Config, AudioShmBuffer, SystemCalls, Outcome, audio_shm_buffer, resize, destroy, map_locked,
  map_unlocked, after_map, after_munmap, after_ftruncate, setup_mapping, opened,
}
use wasivst.AudioShm.System.{IsSystem}
use wasivst.AudioShm.Lifetime.{resizes, destroy-resizes}

-- The next address, and the mappings, of which the newest is unmapped.
abbrev Memory : Type 0
Memory = ℕ × List (ℕ × ℕ)

map_if : Bool → ℕ → Memory → Option ℕ × Memory
map_if true n k = (none, k)
map_if false n (i, ms) = (some i, (suc i, (i, n) ∷ ms))

unmap : List (ℕ × ℕ) → ℕ → Bool × Memory
unmap [] i = (false, (i, []))
unmap (m ∷ ms) i = (true, (i, ms))

abbrev small : SystemCalls Memory
small = record {
  shm_open = λ _ k. (true, k);
  ftruncate = λ _ k. (true, k);
  mmap = λ n locked k. map_if locked n k;
  mremap = λ _ _ _ k. (none, k);
  munmap = λ _ _ k. unmap k.1 k.0;
  close = λ k. k;
  shm_unlink = λ _ k. k;
}

maps :
    (n a : ℕ) (locked : Bool) (k : Memory)
    → (map_if locked n k).0 ≡ some a
    → (map_if locked n k).1.1 ≡ (a, n) ∷ k.1
unfolding map_if
maps n a true k e = absurd (cc e)
maps n a false (i, ms) e = ap (λ b. (b, n) ∷ ms) (some-injective i a e)

fails :
    (n : ℕ) (locked : Bool) (k : Memory)
    → (map_if locked n k).0 ≡ none
    → (map_if locked n k).1.1 ≡ k.1
unfolding map_if
fails n true k e = refl
fails n false k e = absurd (cc e)

unmaps :
    (m : ℕ × ℕ) (k : Memory)
    → k.1 ≡ m ∷ []
    → ((unmap k.1 k.0).0 ≡ true) × ((unmap k.1 k.0).1.1 ≡ [])
unfolding unmap
unmaps m k e = rw e (refl, refl)

nothing_left : (k : Memory) → k.1 ≡ [] → (unmap k.1 k.0).1.1 ≡ []
unfolding unmap
nothing_left k e = rw e refl

small-IsSystem : IsSystem small (λ k. k.1)
small-IsSystem = record {
  shm_open_keeps = λ _ _. refl;
  ftruncate_keeps = λ _ _. refl;
  mmap_maps = maps;
  mmap_fails = fails;
  mremap_maps = λ _ _ _ _ _ _ e. absurd (cc e);
  mremap_fails = λ _ _ _ _ _. refl;
  munmap_unmaps = λ a n k _ e. unmaps (a, n) k e;
  munmap_keeps = λ _ _ k e. nothing_left k e;
  close_keeps = λ _. refl;
  shm_unlink_keeps = λ _ _. refl;
}

abbrev sized : ℕ → Config
sized n = record { name = codes "a"; size = n; input_offsets = []; output_offsets = [] }

abbrev last : Outcome × AudioShmBuffer × Memory
last = resizes small (sized 8 ∷ []) (audio_shm_buffer small (sized 4) (0, []))

last_mapped : last.2 ≡ (2, (1, 8) ∷ [])
unfolding resizes audio_shm_buffer resize setup_mapping after_ftruncate map_locked after_map
    after_munmap map_unlocked opened map_if unmap text_eq
last_mapped = refl

destroy-resizes_example : (destroy small last.1 last.2).1 ≡ []
unfolding resizes audio_shm_buffer resize setup_mapping after_ftruncate map_locked after_map
    after_munmap map_unlocked opened map_if unmap text_eq
destroy-resizes_example =
    destroy-resizes small (λ k. k.1) small-IsSystem (sized 4) (sized 8 ∷ []) (0, []) (omega arith)
      (omega arith, tt) refl refl (λ e. absurd (cc e))
