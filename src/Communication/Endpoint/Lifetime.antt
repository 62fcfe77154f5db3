-- ===== src/Communication/Endpoint/Lifetime.antt =====
-- A directory that is generated for the sockets of a bridge is one that their destructor removes
-- (src/common/communication/common.{h,cpp}).
use wasivst.Prelude.{
  ℕ, zero, suc, ◌+◌, ◌≡◌, ◌<◌, refl, ap, ◌∙◌, Bool, true, false, Option, some, List, ◌++◌, arith,
  inl, inr, Bool-cases,
}
use wasivst.Prelude.Text.{codes}
use wasivst.Process.{starts_with}
use wasivst.Communication.Endpoint.{
  candidate, generate_from, generate_endpoint_base, removed, destroy_sockets, removal,
}

-- What is relied on: a path with a relative one appended starts with the path.
abbrev pub IsAppend : (List ℕ → List ℕ → List ℕ) → Type 0
IsAppend append =
    (path relative : List ℕ)
    → starts_with relative (codes "/") ≡ false
    → starts_with (append path relative) path ≡ true

module _ {D : Type 0} (append : List ℕ → List ℕ → List ℕ) (lawful : IsAppend append)
    (exists : List ℕ → D → Bool) (samples : ℕ → List ℕ) (temp name : List ℕ) where
  candidate-starts_with : (id : List ℕ) → starts_with (candidate append temp name id) temp ≡ true
  unfolding candidate starts_with
  candidate-starts_with id = lawful temp (codes "yabridge-" ++ (name ++ (codes "-" ++ id))) refl

  generate_from_lem :
      (fuel i k : ℕ) (disk : D)
      → k < fuel
      → exists (candidate append temp name (samples (i + k))) disk ≡ false
      → (path : List ℕ) × (generate_from append exists samples fuel i temp name disk ≡ some path)
        × (exists path disk ≡ false)
        × (starts_with path temp ≡ true)
  unfolding generate_from
  generate_from_lem zero i k disk h free = absurd (omega (arith, h))
  generate_from_lem (suc fuel) i zero disk h free =
      let path = candidate append temp name (samples i) in
      let here : exists path disk ≡ false =
        ap (λ j. exists (candidate append temp name (samples j)) disk) (omega arith) ∙ free in
      (path, rw (here) refl, here, candidate-starts_with (samples i))
  generate_from_lem (suc fuel) i (suc k) disk h free =
      let path = candidate append temp name (samples i) in
      let next : exists (candidate append temp name (samples (suc i + k))) disk ≡ false =
        ap (λ j. exists (candidate append temp name (samples j)) disk) (omega arith) ∙ free in
      let (found, e, absent, inside) =
        generate_from_lem fuel (suc i) k disk (omega (arith, h)) next in
      elim (Bool-cases (exists path disk)) [
        | inl taken ↦ (found, rw (taken) e, absent, inside)
        | inr here ↦ (path, rw (here) refl, here, candidate-starts_with (samples i))
      ]

  -- Where a path with a relative one appended starts with the path, and the `k`-th of the random
  -- identifiers gives a path that does not exist, the loop has ended after `k + 1` rounds, with a path
  -- that does not exist; the destructor of sockets with that directory, when the temporary directory is
  -- the same, has removed it wherever it can be removed.
  pub generate-destroy :
      (fuel k : ℕ) (disk : D)
      → k < fuel
      → exists (candidate append temp name (samples k)) disk ≡ false
      → (path : List ℕ) × (generate_endpoint_base append exists samples fuel temp name disk
          ≡ some path)
        × (exists path disk ≡ false)
        × ((remove_all : List ℕ → D → Option D) (used after : D)
            → remove_all path used ≡ some after
            → destroy_sockets remove_all path temp used ≡ removed after)
  unfolding generate_endpoint_base destroy_sockets removal
  generate-destroy fuel k disk h free =
      let same : exists (candidate append temp name (samples (0 + k))) disk ≡ false =
        ap (λ j. exists (candidate append temp name (samples j)) disk) (omega arith) ∙ free in
      let (path, e, absent, inside) = generate_from_lem fuel 0 k disk h same in
      (path, e, absent, λ remove_all used after gone. rw (inside, gone) refl)
