-- ===== src/AudioShm/System.antt =====
-- What src/common/audio-shm.cpp relies on of the system.
use wasivst.Prelude.{ℕ, ◌≡◌, ◌<◌, Bool, true, none, some, List, [], ◌∷◌}
use wasivst.AudioShm.{Address, mapped, SystemCalls}

-- What the code relies on, for a process that has at most one mapping, as an address with a size:
-- `mmap` adds one, `mremap` replaces it, `munmap` removes it, and nothing else changes them.
pub record IsSystem {K : Type 0} (system : SystemCalls K) (mappings : K → List (ℕ × ℕ))
    : Type 0 where
  pub shm_open_keeps : (name : List ℕ) (k : K) → mappings (system.shm_open name k).1 ≡ mappings k
  pub ftruncate_keeps : (n : ℕ) (k : K) → mappings (system.ftruncate n k).1 ≡ mappings k
  pub mmap_maps :
      (n a : ℕ) (locked : Bool) (k : K)
      → (system.mmap n locked k).0 ≡ some a
      → mappings (system.mmap n locked k).1 ≡ (a, n) ∷ mappings k
  pub mmap_fails :
      (n : ℕ) (locked : Bool) (k : K)
      → (system.mmap n locked k).0 ≡ none
      → mappings (system.mmap n locked k).1 ≡ mappings k
  pub mremap_maps :
      (a b n m : ℕ) (k : K)
      → mappings k ≡ (a, n) ∷ []
      → (system.mremap (mapped a) n m k).0 ≡ some b
      → mappings (system.mremap (mapped a) n m k).1 ≡ (b, m) ∷ []
  pub mremap_fails :
      (a : Address) (n m : ℕ) (k : K)
      → (system.mremap a n m k).0 ≡ none
      → mappings (system.mremap a n m k).1 ≡ mappings k
  pub munmap_unmaps :
      (a n : ℕ) (k : K)
      → 0 < n
      → mappings k ≡ (a, n) ∷ []
      → ((system.munmap (mapped a) n k).0 ≡ true) × (mappings (system.munmap (mapped a) n k).1 ≡ [])
  pub munmap_keeps :
      (a : Address) (n : ℕ) (k : K) → mappings k ≡ [] → mappings (system.munmap a n k).1 ≡ []
  pub close_keeps : (k : K) → mappings (system.close k) ≡ mappings k
  pub shm_unlink_keeps : (name : List ℕ) (k : K) → mappings (system.shm_unlink name k) ≡ mappings k
