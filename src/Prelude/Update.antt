-- ===== src/Prelude/Update.antt =====
-- Functions on numbers that are changed at one place.
use mathlib.Core.Path.{subst}
use Prim.Native.Nat.{ℕ}
use mathlib.Core.Path.{◌≡◌, refl, sym}
use mathlib.Core.Bool.{false}
use mathlib.Core.Logic.{inl, inr}
use wasivst.Prelude.Tests.{◌==◌, if◌then◌else◌, Bool-cases, ==_iff}

abbrev pub update {ℓ} : {A : Type ℓ} → (ℕ → A) → ℕ → A → ℕ → A
update f i a j = if j == i then a else f j

pub same-update {ℓ} : {A : Type ℓ} → (f : ℕ → A) (i : ℕ) (a : A) → update f i a i ≡ a
same-update f i a = rw ((==_iff i i).1 refl) refl

pub other-update {ℓ} :
    {A : Type ℓ} → (f : ℕ → A) (i : ℕ) (a : A) (j : ℕ) → (j == i) ≡ false → update f i a j ≡ f j
other-update f i a j d = rw d refl

-- What holds of the value that is set and of the others holds of all after the update.
pub after_update {ℓ ℓ'} :
    {A : Type ℓ}
    → (Q : ℕ → A → Type ℓ') (f : ℕ → A) (i : ℕ) (a : A) → Q i a
    → ((j : ℕ) → (j == i) ≡ false → Q j (f j))
    → (j : ℕ) → Q j (update f i a j)
after_update Q f i a q others j = elim (Bool-cases (j == i)) [
  | inl e ↦
      subst (λ k. Q k (update f i a k)) (sym ((==_iff j i).0 e))
        (subst (Q i) (sym (same-update f i a)) q)
  | inr d ↦ subst (Q j) (sym (other-update f i a j d)) (others j d)
]
