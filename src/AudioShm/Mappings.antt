-- ===== src/AudioShm/Mappings.antt =====
-- The mappings that a process has through an `AudioShmBuffer` (src/common/audio-shm.cpp).
use mathlib.Core.Path.{subst}
use wasivst.Prelude.{
  ℕ, ◌≡◌, ◌<◌, refl, sym, ap, ◌∙◌, Bool, true, false, Option, none, some, List, [], ◌∷◌, lt→ltb,
  ◌⊎◌, inl, inr, Bool-cases, arith,
}
use wasivst.Prelude.Text.{text_eq}
use wasivst.AudioShm.System.{IsSystem}
use wasivst.AudioShm.{
  Config, nullptr, mapped, AudioShmBuffer, SystemCalls, Outcome, returned, invalid_argument,
  system_error, assertion_failed, map_locked, map_unlocked, after_munmap, after_map,
  after_ftruncate, setup_mapping, opened, audio_shm_buffer, resize, destroy,
}

module _ {K : Type 0} (system : SystemCalls K) (mappings : K → List (ℕ × ℕ)) where
  -- The process has the mapping that the buffer holds, or none.
  unfoldable pub Held : AudioShmBuffer → K → Type 0
  Held b k =
      (b.is_moved ≡ false)
      × (((a : ℕ) × (b.shm_bytes ≡ mapped a)
            × (mappings k ≡ (a, b.shm_size) ∷ [])
            × (0 < b.shm_size)
            × (b.shm_size ≡ b.config.size))
          ⊎ ((b.shm_bytes ≡ nullptr) × (mappings k ≡ [])))

  -- With the size of the mapping that there is, whatever the configuration says.
  Mapped : AudioShmBuffer → K → Type 0
  Mapped b k =
      ((a : ℕ) × (b.shm_bytes ≡ mapped a) × (mappings k ≡ (a, b.shm_size) ∷ []) × (0 < b.shm_size))
      ⊎ ((b.shm_bytes ≡ nullptr) × (mappings k ≡ []))

  -- What holds after a call that ends in this way.
  unfoldable pub Left : Outcome × AudioShmBuffer × K → Type 0
  Left (returned, b, k) = Held b k
  Left (invalid_argument, b, k) = Held b k
  Left (system_error, b, k) = (b.is_moved ≡ false) × (mappings k ≡ [])
  Left (assertion_failed, b, k) = Unit

  module _ (lawful : IsSystem system mappings) (b : AudioShmBuffer) (here : b.is_moved ≡ false)
      (some_size : 0 < b.config.size) where
    map_unlocked-Left :
        (k : K) → mappings k ≡ [] → Left (map_unlocked system b (system.mmap b.config.size false k))
    unfolding map_unlocked Left Held
    map_unlocked-Left k empty = by_answer (system.mmap b.config.size false k).0 refl
      where
        by_answer :
            (o : Option ℕ)
            → (system.mmap b.config.size false k).0 ≡ o
            → Left (map_unlocked system b (system.mmap b.config.size false k))
        by_answer none e =
            rw (e, map_unlocked) (here, lawful.mmap_fails b.config.size false k e ∙ empty)
        by_answer (some a) e =
            rw (e, map_unlocked)
              (
                here,
                inl (
                  a,
                  refl,
                  lawful.mmap_maps b.config.size a false k e
                      ∙ ap (λ ms. (a, b.config.size) ∷ ms) empty,
                  some_size,
                  refl,
                ),
              )

    after_map-null :
        (k : K)
        → b.shm_bytes ≡ nullptr
        → mappings k ≡ []
        → Left (after_map system b (system.mmap b.config.size true k))
    unfolding after_map Left Held
    after_map-null k null empty = by_answer (system.mmap b.config.size true k).0 refl
      where
        by_answer :
            (o : Option ℕ)
            → (system.mmap b.config.size true k).0 ≡ o
            → Left (after_map system b (system.mmap b.config.size true k))
        by_answer none e =
            rw (e, after_map, null)
              (map_unlocked-Left (system.mmap b.config.size true k).1
                (lawful.mmap_fails b.config.size true k e ∙ empty))
        by_answer (some a) e =
            rw (e, after_map)
              (
                here,
                inl (
                  a,
                  refl,
                  lawful.mmap_maps b.config.size a true k e
                      ∙ ap (λ ms. (a, b.config.size) ∷ ms) empty,
                  some_size,
                  refl,
                ),
              )

    after_munmap-Left :
        (k : K) (a n : ℕ)
        → 0 < n
        → mappings k ≡ (a, n) ∷ []
        → Left (after_munmap system b (system.munmap (mapped a) n k))
    unfolding after_munmap
    after_munmap-Left k a n pos held =
        let (ok, empty) = lawful.munmap_unmaps a n k pos held in
        rw (ok, after_munmap) (map_unlocked-Left (system.munmap (mapped a) n k).1 empty)

    after_map-mapped :
        (k : K) (a : ℕ)
        → b.shm_bytes ≡ mapped a
        → mappings k ≡ (a, b.shm_size) ∷ []
        → 0 < b.shm_size
        → Left (after_map system b (system.mremap (mapped a) b.shm_size b.config.size k))
    unfolding after_map Left Held
    after_map-mapped k a at held pos =
        by_answer (system.mremap (mapped a) b.shm_size b.config.size k).0 refl
      where
        by_answer :
            (o : Option ℕ)
            → (system.mremap (mapped a) b.shm_size b.config.size k).0 ≡ o
            → Left (after_map system b (system.mremap (mapped a) b.shm_size b.config.size k))
        by_answer none e =
            rw (e, after_map, at)
              (after_munmap-Left (system.mremap (mapped a) b.shm_size b.config.size k).1 a
                b.shm_size pos (lawful.mremap_fails (mapped a) b.shm_size b.config.size k e ∙ held))
        by_answer (some c) e =
            rw (e, after_map)
              (
                here,
                inl (
                  c,
                  refl,
                  lawful.mremap_maps a c b.shm_size b.config.size k held e,
                  some_size,
                  refl,
                ),
              )

    map_locked-mapped :
        (k : K) (a : ℕ)
        → b.shm_bytes ≡ mapped a
        → map_locked system b k ≡ system.mremap (mapped a) b.shm_size b.config.size k
    unfolding map_locked
    map_locked-mapped k a at = rw at refl

    map_locked-null :
        (k : K) → b.shm_bytes ≡ nullptr → map_locked system b k ≡ system.mmap b.config.size true k
    unfolding map_locked
    map_locked-null k null = rw null refl

    setup_mapping-Left : (k : K) → Mapped b k → Left (setup_mapping system b k)
    unfolding setup_mapping after_ftruncate Left Mapped
    setup_mapping-Left k m =
        rw (lt→ltb 0 b.config.size some_size)
          (by_answer (system.ftruncate b.config.size k).0 refl m)
      where
        k' : K
        k' = (system.ftruncate b.config.size k).1

        kept : mappings k' ≡ mappings k
        kept = lawful.ftruncate_keeps b.config.size k

        by_answer :
            (ok : Bool)
            → (system.ftruncate b.config.size k).0 ≡ ok
            → Mapped b k
            → Left (after_ftruncate system b (system.ftruncate b.config.size k))
        by_answer false e m = rw (e, after_ftruncate) tt
        by_answer true e (inl (a, at, held, pos)) =
            rw (e, after_ftruncate)
              (subst (λ r. Left (after_map system b r)) (sym (map_locked-mapped k' a at))
                (after_map-mapped k' a at (kept ∙ held) pos))
        by_answer true e (inr (null, empty)) =
            rw (e, after_ftruncate)
              (subst (λ r. Left (after_map system b r)) (sym (map_locked-null k' null))
                (after_map-null k' null (kept ∙ empty)))

  module _ (lawful : IsSystem system mappings) where
    pub resize-Left :
        (c : Config) (b : AudioShmBuffer) (k : K)
        → 0 < c.size
        → Held b k
        → Left (resize system c b k)
    unfolding resize Left Held Mapped
    resize-Left c b k pos (here, h) = elim (Bool-cases (text_eq c.name b.config.name)) [
      | inl same ↦
          rw same (setup_mapping-Left lawful (record b { config = c }) here pos k (forget h))
      | inr other ↦ rw other (here, h)
    ]
      where
        forget :
            (((a : ℕ) × (b.shm_bytes ≡ mapped a)
                × (mappings k ≡ (a, b.shm_size) ∷ [])
                × (0 < b.shm_size)
                × (b.shm_size ≡ b.config.size))
              ⊎ ((b.shm_bytes ≡ nullptr) × (mappings k ≡ [])))
            → Mapped (record b { config = c }) k
        forget (inl (a, at, held, pos, _)) = inl (a, at, held, pos)
        forget (inr n) = inr n

    pub audio_shm_buffer-Left :
        (c : Config) (k : K)
        → 0 < c.size
        → mappings k ≡ []
        → ((system.shm_open c.name k).0 ≡ true)
        → Left (audio_shm_buffer system c k)
    unfolding audio_shm_buffer opened Mapped
    audio_shm_buffer-Left c k pos empty ok =
        rw (ok, opened)
          (setup_mapping-Left lawful
            (record { config = c; shm_bytes = nullptr; shm_size = 0; is_moved = false }) refl pos
            (system.shm_open c.name k).1 (inr (refl, lawful.shm_open_keeps c.name k ∙ empty)))

    -- The destructor leaves no mapping.
    pub destroy-Held : (b : AudioShmBuffer) (k : K) → Held b k → mappings (destroy system b k) ≡ []
    unfolding destroy Held
    destroy-Held b k (here, inl (a, at, held, pos, size)) =
        let unmapped : mappings (system.munmap (mapped a) b.config.size k).1 ≡ [] =
          (lawful.munmap_unmaps a b.config.size k (omega (arith, pos, size))
            (held ∙ ap (λ n. (a, n) ∷ []) size)).1 in
        rw (here, at) (lawful.shm_unlink_keeps _ _ ∙ (lawful.close_keeps _ ∙ unmapped))
    destroy-Held b k (here, inr (null, empty)) = rw here (
        lawful.shm_unlink_keeps _ _
        ∙ (lawful.close_keeps _ ∙ lawful.munmap_keeps b.shm_bytes b.config.size k empty))
