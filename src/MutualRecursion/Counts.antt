-- ===== src/MutualRecursion/Counts.antt =====
-- How often a number stands in a list, for the stack and the queues of src/common/mutual-recursion.h.
use wasivst.Prelude.{
  ap, Bool-cases, inl, inr, ◌≤◌, ℕ, suc, ◌+◌, ◌-◌, ◌≡◌, ◌<◌, refl, false, some, List, [], ◌∷◌, ◌++◌,
  ◌==◌, ==_iff, arith,
}
use wasivst.MutualRecursion.{erase, back, count}

pub count-append : (c : ℕ) (xs ys : List ℕ) → count c (xs ++ ys) ≡ count c xs + count c ys
unfolding count
count-append c [] ys = omega arith
count-append c (x ∷ xs) ys = let ih = count-append c xs ys in ground arith

pub count_self : (c : ℕ) (xs : List ℕ) → count c (c ∷ xs) ≡ suc (count c xs)
unfolding count
count_self c xs = rw ((==_iff c c).1 refl) refl

pub count_other : (c x : ℕ) (xs : List ℕ) → (c == x) ≡ false → count c (x ∷ xs) ≡ count c xs
unfolding count
count_other c x xs d = rw d refl

pub count-erase_same : (c : ℕ) (xs : List ℕ) → count c (erase c xs) ≡ count c xs - 1
unfolding count erase
count-erase_same c [] = refl
count-erase_same c (x ∷ xs) = let ih = count-erase_same c xs in ground arith

pub count-erase_other :
    (j c : ℕ) (xs : List ℕ) → (j == c) ≡ false → count j (erase c xs) ≡ count j xs
unfolding count erase
count-erase_other j c [] d = refl
count-erase_other j c (x ∷ xs) d = let ih = count-erase_other j c xs d in ground arith

pub count-back : (xs : List ℕ) (c : ℕ) → back xs ≡ some c → 0 < count c xs
unfolding count back
count-back [] c e = absurd (cc e)
count-back (x ∷ []) c e = ground arith
count-back (x ∷ y ∷ ys) c e = let ih = count-back (y ∷ ys) c e in ground arith

pub count_tail : (j x : ℕ) (xs : List ℕ) → count j xs ≤ count j (x ∷ xs)
unfolding count
count_tail j x xs = ground arith

pub count-erase_le : (c : ℕ) (xs : List ℕ) (j : ℕ) → count j (erase c xs) ≤ count j xs
unfolding count erase
count-erase_le c [] j = omega arith
count-erase_le c (x ∷ xs) j = let ih = count-erase_le c xs j in ground arith

pub back_last : (xs : List ℕ) (x : ℕ) → back (xs ++ x ∷ []) ≡ some x
unfolding back
back_last [] x = refl
back_last (y ∷ []) x = refl
back_last (y ∷ z ∷ zs) x = back_last (z ∷ zs) x

-- Erased is what stands behind, where the front does not have it; and the front, where the rest does not.
pub erase-append_right :
    (c : ℕ) (xs ys : List ℕ) → count c xs ≡ 0 → erase c (xs ++ ys) ≡ xs ++ erase c ys
unfolding erase count
erase-append_right c [] ys h = refl
erase-append_right c (x ∷ xs) ys h = elim (Bool-cases (c == x)) [
  | inl e ↦ absurd (omega (arith, rw e at h))
  | inr d ↦ rw d (ap (λ zs. x ∷ zs) (erase-append_right c xs ys (rw d at h)))
]

erase_absent : (c : ℕ) (xs : List ℕ) → count c xs ≡ 0 → erase c xs ≡ xs
unfolding erase count
erase_absent c [] h = refl
erase_absent c (x ∷ xs) h = elim (Bool-cases (c == x)) [
  | inl e ↦ absurd (omega (arith, rw e at h))
  | inr d ↦ rw d (ap (λ zs. x ∷ zs) (erase_absent c xs (rw d at h)))
]

pub erase-append_left :
    (c : ℕ) (xs ys : List ℕ) → count c ys ≡ 0 → erase c (xs ++ ys) ≡ erase c xs ++ ys
unfolding erase
erase-append_left c [] ys h = erase_absent c ys h
erase-append_left c (x ∷ xs) ys h = elim (Bool-cases (c == x)) [
  | inl e ↦ rw e refl
  | inr d ↦ rw d (ap (λ zs. x ∷ zs) (erase-append_left c xs ys h))
]
