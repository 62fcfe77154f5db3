-- ===== src/Prelude/Region.antt =====
-- Regions of a memory: what is copied into one is found there, and a copy beside it leaves it as it was.
use Prim.Native.Nat.{ℕ, zero, suc, ◌+◌, ◌-◌, ◌≤◌}
use mathlib.Core.Path.{◌≡◌, sym, ap, ◌∙◌}
use mathlib.Core.Logic.{◌⊎◌, inl, inr}
use mathlib.Core.List.{List, [], ◌∷◌, ◌++◌}
use native.Mathlib.Omega.{arith}
use wasivst.Prelude.Lists.{
  length, take, drop, length-take, take-append_le, take-append-drop, take-append_length,
  drop-append_length, drop-append_add, drop-drop,
}
use wasivst.Prelude.Vector.{copy_at}

-- `n` bytes from `at` on.
abbrev pub region : (at n : ℕ) → List ℕ → List ℕ
region at n m = take n (drop at m)

region-append :
    (at n : ℕ) (xs ys : List ℕ) → at + n ≤ length xs → region at n (xs ++ ys) ≡ region at n xs
region-append zero n xs ys h = take-append_le n xs ys (omega (arith, h))
region-append (suc at) n [] ys h = absurd (omega (arith, h))
region-append (suc at) n (x ∷ xs) ys h = region-append at n xs ys (omega (arith, h))

pub region-copy_at :
    (at : ℕ) (bytes m : List ℕ)
    → at + length bytes ≤ length m
    → region at (length bytes) (copy_at at bytes m) ≡ bytes
unfolding copy_at
region-copy_at at bytes m h =
    let rest = bytes ++ drop (at + length bytes) m in
    let front : at ≡ length (take at m) = omega (arith, h, length-take at m) in
    ap (λ k. region k (length bytes) (take at m ++ rest)) front
    ∙ (ap (λ xs. take (length bytes) xs) (drop-append_length (take at m) rest)
        ∙ take-append_length bytes (drop (at + length bytes) m))

-- Of a region and a copy beside it.
abbrev pub Beside : (at n copied size : ℕ) → Type 0
Beside at n copied size = (at + n ≤ copied) ⊎ (copied + size ≤ at)

pub region-copy-Beside :
    (at n copied : ℕ) (bytes m : List ℕ)
    → copied + length bytes ≤ length m
    → Beside at n copied (length bytes)
    → region at n (copy_at copied bytes m) ≡ region at n m
unfolding copy_at
region-copy-Beside at n copied bytes m h (inl before) =
    let front : at + n ≤ length (take copied m) = omega (arith, h, before, length-take copied m) in
    region-append at n (take copied m) (bytes ++ drop (copied + length bytes) m) front
    ∙ (sym (region-append at n (take copied m) (drop copied m) front)
        ∙ ap (λ xs. region at n xs) (take-append-drop copied m))
region-copy-Beside at n copied bytes m h (inr behind) =
    let front = take copied m in
    let rest = drop (copied + length bytes) m in
    let k = at - (copied + length bytes) in
    let size : length front ≡ copied = omega (arith, h, length-take copied m) in
    let split : at ≡ length front + (length bytes + k) = omega (arith, size, behind) in
    ap (λ i. region i n (front ++ (bytes ++ rest))) split
    ∙ ap (λ xs. take n xs)
        (drop-append_add front (bytes ++ rest) (length bytes + k)
          ∙ (drop-append_add bytes rest k
              ∙ (drop-drop (copied + length bytes) k m
                  ∙ ap (λ i. drop i m) (omega (arith, behind)))))

-- What lies behind another part of a memory.
pub region-element :
    (at n : ℕ) (before d rest : List ℕ)
    → length before ≡ at
    → length d ≡ n
    → region at n (before ++ (d ++ rest)) ≡ d
region-element at n before d rest e h =
    ap (λ k. region k n (before ++ (d ++ rest))) (sym e)
    ∙ (ap (λ xs. take n xs) (drop-append_length before (d ++ rest))
        ∙ (ap (λ k. take k (d ++ rest)) (sym h) ∙ take-append_length d rest))
