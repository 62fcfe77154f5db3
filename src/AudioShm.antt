-- ===== src/AudioShm.antt =====
-- `AudioShmBuffer` (src/common/audio-shm.{h,cpp}). The system calls are a parameter, as functions on a
-- state of the system. A thrown exception and a failed assertion are values.
pub mod System
pub mod Mappings
pub mod Lifetime
use wasivst.Prelude.{ℕ, Bool, true, false, Option, none, some, List, ltb, if◌then◌else◌}
use wasivst.Prelude.Text.{text_eq}

pub record Config : Type 0 where
  pub name : List ℕ
  pub size : ℕ
  pub input_offsets : List (List ℕ)
  pub output_offsets : List (List ℕ)

-- What a pointer to the shared memory holds.
pub data Address : Type 0 where
  nullptr : Address
  mapped : ℕ → Address
  map_failed : Address

pub record AudioShmBuffer : Type 0 where
  pub config : Config
  pub shm_bytes : Address
  pub shm_size : ℕ
  pub is_moved : Bool

-- The calls, on the state of the system. `none` is `MAP_FAILED`; the Boolean is whether a call succeeds.
pub record SystemCalls (K : Type 0) : Type 0 where
  pub shm_open : List ℕ → K → Bool × K
  pub ftruncate : ℕ → K → Bool × K
  pub mmap : (size : ℕ) (locked : Bool) → K → Option ℕ × K
  pub mremap : Address → (old_size new_size : ℕ) → K → Option ℕ × K
  pub munmap : Address → (size : ℕ) → K → Bool × K
  pub close : K → K
  pub shm_unlink : List ℕ → K → K

pub data Outcome : Type 0 where
  returned invalid_argument system_error assertion_failed : Outcome

-- `MAP_FAILED` is kept in the pointer, as the code does.
unfoldable pub address : Option ℕ → Address
address none = map_failed
address (some a) = mapped a

abbrev pub is_null : Address → Bool
is_null nullptr = true
is_null _ = false

module _ {K : Type 0} (system : SystemCalls K) where
  -- With the old mapping, if there is one.
  unfoldable pub map_locked : AudioShmBuffer → K → Option ℕ × K
  map_locked b k =
      if is_null b.shm_bytes
      then system.mmap b.config.size true k
      else system.mremap b.shm_bytes b.shm_size b.config.size k

  unfoldable pub map_unlocked : AudioShmBuffer → Option ℕ × K → Outcome × AudioShmBuffer × K
  map_unlocked b (some a, k) =
      (returned, record b { shm_bytes = mapped a; shm_size = b.config.size }, k)
  map_unlocked b (none, k) = (system_error, record b { shm_bytes = map_failed }, k)

  -- The assertion on `munmap`.
  unfoldable pub after_munmap : AudioShmBuffer → Bool × K → Outcome × AudioShmBuffer × K
  unfolding map_unlocked
  after_munmap b (true, k) = map_unlocked b (system.mmap b.config.size false k)
  after_munmap b (false, k) = (assertion_failed, record b { shm_bytes = map_failed }, k)

  -- The first try has failed or not.
  unfoldable pub after_map : AudioShmBuffer → Option ℕ × K → Outcome × AudioShmBuffer × K
  unfolding map_unlocked after_munmap
  after_map b (some a, k) =
      (returned, record b { shm_bytes = mapped a; shm_size = b.config.size }, k)
  after_map b (none, k) =
      if is_null b.shm_bytes
      then map_unlocked b (system.mmap b.config.size false k)
      else after_munmap b (system.munmap b.shm_bytes b.shm_size k)

  unfoldable pub after_ftruncate : AudioShmBuffer → Bool × K → Outcome × AudioShmBuffer × K
  unfolding map_locked after_map
  after_ftruncate b (true, k) = after_map b (map_locked b k)
  after_ftruncate b (false, k) = (assertion_failed, b, k)

  unfoldable pub setup_mapping : AudioShmBuffer → K → Outcome × AudioShmBuffer × K
  unfolding after_ftruncate
  setup_mapping b k =
      if ltb 0 b.config.size
      then after_ftruncate b (system.ftruncate b.config.size k)
      else (returned, record b { shm_size = b.config.size }, k)

  unfoldable pub opened : AudioShmBuffer → Bool × K → Outcome × AudioShmBuffer × K
  unfolding setup_mapping
  opened b (true, k) = setup_mapping b k
  opened b (false, k) = (system_error, b, k)

  -- The constructor; of the buffer nothing is left where it throws.
  unfoldable pub audio_shm_buffer : Config → K → Outcome × AudioShmBuffer × K
  unfolding opened
  audio_shm_buffer config k =
      opened (record { config = config; shm_bytes = nullptr; shm_size = 0; is_moved = false })
        (system.shm_open config.name k)

  unfoldable pub resize : Config → AudioShmBuffer → K → Outcome × AudioShmBuffer × K
  unfolding setup_mapping
  resize new_config b k =
      if text_eq new_config.name b.config.name
      then setup_mapping (record b { config = new_config }) k
      else (invalid_argument, b, k)

  -- The destructor.
  unfoldable pub destroy : AudioShmBuffer → K → K
  destroy b k =
      if b.is_moved
      then k
      else system.shm_unlink b.config.name
          (system.close (system.munmap b.shm_bytes b.config.size k).1)

-- The move constructor: the new buffer and the old one.
unfoldable pub move_buffer : AudioShmBuffer → AudioShmBuffer × AudioShmBuffer
move_buffer o = (record o { is_moved = false }, record o { is_moved = true })

-- The move assignment: the buffer assigned to and the source.
unfoldable pub assign_buffer : AudioShmBuffer → AudioShmBuffer → AudioShmBuffer × AudioShmBuffer
assign_buffer b o = (record o { is_moved = b.is_moved }, record o { is_moved = true })
