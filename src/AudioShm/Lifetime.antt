-- ===== src/AudioShm/Lifetime.antt =====
-- An `AudioShmBuffer` (src/common/audio-shm.cpp) from its constructor to its destructor.
use wasivst.Prelude.{ℕ, ◌≡◌, ◌≢◌, ◌<◌, refl, ◌∙◌, false, List, [], ◌∷◌, All, inl, inr, Bool-cases}
use wasivst.AudioShm.{
  Config, AudioShmBuffer, SystemCalls, Outcome, returned, invalid_argument, system_error,
  assertion_failed, opened, audio_shm_buffer, resize, destroy,
}
use wasivst.AudioShm.System.{IsSystem}
use wasivst.AudioShm.Mappings.{Left, resize-Left, audio_shm_buffer-Left, destroy-Held}

-- Reconfigured again and again, with an exception for a wrong name caught, until a call throws because
-- of the system.
unfoldable pub resizes :
    {K : Type 0}
    → SystemCalls K
    → List Config
    → Outcome × AudioShmBuffer × K
    → Outcome × AudioShmBuffer × K
resizes system [] r = r
resizes system (c ∷ cs) (returned, b, k) = resizes system cs (resize system c b k)
resizes system (c ∷ cs) (invalid_argument, b, k) = resizes system cs (resize system c b k)
resizes system (c ∷ cs) (o, b, k) = (o, b, k)

module _ {K : Type 0} (system : SystemCalls K) (mappings : K → List (ℕ × ℕ))
    (lawful : IsSystem system mappings) where
  resizes-Left :
      (cs : List Config) (r : Outcome × AudioShmBuffer × K)
      → All (λ c. 0 < c.size) cs
      → Left system mappings r
      → Left system mappings (resizes system cs r)
  unfolding resizes Left
  resizes-Left [] r pos l = l
  resizes-Left (c ∷ cs) (returned, b, k) (p, ps) l =
      resizes-Left cs (resize system c b k) ps (resize-Left system mappings lawful c b k p l)
  resizes-Left (c ∷ cs) (invalid_argument, b, k) (p, ps) l =
      resizes-Left cs (resize system c b k) ps (resize-Left system mappings lawful c b k p l)
  resizes-Left (c ∷ cs) (system_error, b, k) (p, ps) l = l
  resizes-Left (c ∷ cs) (assertion_failed, b, k) (p, ps) l = l

  destroy-Left :
      (r : Outcome × AudioShmBuffer × K)
      → Left system mappings r
      → r.0 ≢ assertion_failed
      → mappings (destroy system r.1 r.2) ≡ []
  unfolding Left destroy
  destroy-Left (returned, b, k) l ok = destroy-Held system mappings lawful b k l
  destroy-Left (invalid_argument, b, k) l ok = destroy-Held system mappings lawful b k l
  destroy-Left (assertion_failed, b, k) l ok = absurd (ok refl)
  destroy-Left (system_error, b, k) (here, empty) ok = rw here (
      lawful.shm_unlink_keeps _ _
      ∙ (lawful.close_keeps _ ∙ lawful.munmap_keeps b.shm_bytes b.config.size k empty))

  made-Left :
      (c : Config) (k : K)
      → 0 < c.size
      → mappings k ≡ []
      → (audio_shm_buffer system c k).0 ≡ returned
      → Left system mappings (audio_shm_buffer system c k)
  unfolding audio_shm_buffer opened
  made-Left c k pos empty made = elim (Bool-cases (system.shm_open c.name k).0) [
    | inl ok ↦ audio_shm_buffer-Left system mappings lawful c k pos empty ok
    | inr closed ↦ absurd (fails closed made)
  ]
    where
      fails : (system.shm_open c.name k).0 ≡ false → (audio_shm_buffer system c k).0 ≢ returned
      fails closed = rw (closed, opened) (λ e. absurd (cc e))

  -- A buffer is made, with a size that is not 0, by a process that has no mapping, and reconfigured any
  -- number of times with such sizes, whether the name is the right one or not and whether the system
  -- gives a mapping or not, until a call throws because of the system; no assertion fails. After its
  -- destructor the process has no mapping.
  pub destroy-resizes :
      (c : Config) (cs : List Config) (k : K)
      → 0 < c.size
      → All (λ d. 0 < d.size) cs
      → mappings k ≡ []
      → (audio_shm_buffer system c k).0 ≡ returned
      → (resizes system cs (audio_shm_buffer system c k)).0 ≢ assertion_failed
      → mappings (
          destroy system
            (resizes system cs (audio_shm_buffer system c k)).1
            (resizes system cs (audio_shm_buffer system c k)).2)
        ≡ []
  destroy-resizes c cs k pos all empty made ok =
      destroy-Left (resizes system cs (audio_shm_buffer system c k))
        (resizes-Left cs (audio_shm_buffer system c k) all (made-Left c k pos empty made)) ok
