-- ===== src/Prelude/Vector.antt =====
-- The operations of `std::vector` and `std::copy_n` on the bytes of a buffer.
use Prim.Native.Nat.{ℕ, zero, suc, ◌+◌, ◌-◌, ◌≤◌}
use mathlib.Core.Path.{◌≡◌, refl, sym, ap, ◌∙◌}
use mathlib.Core.List.{List, [], ◌∷◌, ◌++◌, append-nil, append_assoc}
use native.Mathlib.Omega.{arith}
use wasivst.Prelude.Lists.{
  length, take, drop, replicate, length-append, length-take, length-drop, length-replicate,
  take-append_le, take-append_length, drop-append_add,
}

-- `std::vector::resize`, which appends zeros.
unfoldable pub resize : ℕ → List ℕ → List ℕ
resize n xs = take n xs ++ replicate (n - length xs) 0

-- `std::copy_n(data, …, &buffer[at])` within the buffer.
unfoldable pub copy_at : ℕ → List ℕ → List ℕ → List ℕ
copy_at at bytes xs = take at xs ++ (bytes ++ drop (at + length bytes) xs)

pub length-resize : (n : ℕ) (xs : List ℕ) → length (resize n xs) ≡ n
unfolding resize
length-resize n xs = omega (
  arith,
  length-append (take n xs) (replicate (n - length xs) 0),
  length-take n xs,
  length-replicate {A = ℕ} (n - length xs) 0,
)

pub length-copy_at :
    (at : ℕ) (bytes xs : List ℕ)
    → at + length bytes ≤ length xs
    → length (copy_at at bytes xs) ≡ length xs
unfolding copy_at
length-copy_at at bytes xs h = omega (
  arith,
  length-append (take at xs) (bytes ++ drop (at + length bytes) xs),
  length-append bytes (drop (at + length bytes) xs),
  length-take at xs,
  length-drop (at + length bytes) xs,
)

take-take : (k n : ℕ) (xs : List ℕ) → k ≤ n → take k (take n xs) ≡ take k xs
take-take zero n xs h = refl
take-take (suc k) zero xs h = absurd (omega arith)
take-take (suc k) (suc n) [] h = refl
take-take (suc k) (suc n) (x ∷ xs) h = rw (take-take k n xs (omega arith)) refl

-- What lies in front of the new end and of the old one stays.
pub take-resize : (k n : ℕ) (xs : List ℕ) → k ≤ n → k ≤ length xs → take k (resize n xs) ≡ take k xs
unfolding resize
take-resize k n xs h1 h2 =
    take-append_le k (take n xs) _ (omega (arith, length-take n xs)) ∙ take-take k n xs h1

pub resize-shrink : (k : ℕ) (xs : List ℕ) → k ≤ length xs → resize k xs ≡ take k xs
unfolding resize
resize-shrink k xs h =
    let none_left : k - length xs ≡ 0 = omega arith in rw none_left (append-nil (take k xs))

pub take-append_add : (xs ys : List ℕ) (k : ℕ) → take (length xs + k) (xs ++ ys) ≡ xs ++ take k ys
take-append_add [] ys k = ap (λ n. take n ys) (omega arith)
take-append_add (x ∷ xs) ys k =
    let e : suc (length xs) + k ≡ suc (length xs + k) = omega arith in
    rw e (rw (take-append_add xs ys k) refl)

-- The bytes copied stand behind what lies in front of them.
pub take-copy_at :
    (at : ℕ) (bytes xs : List ℕ)
    → at ≤ length xs
    → take (at + length bytes) (copy_at at bytes xs) ≡ take at xs ++ bytes
unfolding copy_at
take-copy_at at bytes xs h =
    let front : length (take at xs) ≡ at = omega (arith, length-take at xs) in
    let rest = bytes ++ drop (at + length bytes) xs in
    ap (λ n. take (n + length bytes) (take at xs ++ rest)) (omega (arith, front))
    ∙ (take-append_add (take at xs) rest (length bytes)
        ∙ ap (λ ys. take at xs ++ ys) (take-append_length bytes _))

drop-append_le :
    {A : Type 0} (n : ℕ) (xs ys : List A) → n ≤ length xs → drop n (xs ++ ys) ≡ drop n xs ++ ys
drop-append_le zero xs ys h = refl
drop-append_le (suc n) [] ys h = absurd (omega (arith, h))
drop-append_le (suc n) (x ∷ xs) ys h = drop-append_le n xs ys (omega (arith, h))

-- A copy to behind the front of a vector leaves the front, and one into it leaves the rest.
pub copy_at-append_add :
    (k : ℕ) (bytes xs ys : List ℕ)
    → copy_at (length xs + k) bytes (xs ++ ys) ≡ xs ++ copy_at k bytes ys
unfolding copy_at
copy_at-append_add k bytes xs ys =
    let e : length xs + k + length bytes ≡ length xs + (k + length bytes) = omega arith in
    rw (take-append_add xs ys k, e, drop-append_add xs ys (k + length bytes))
      (append_assoc xs (take k ys) _)

pub copy_at-append_le :
    (at : ℕ) (bytes xs ys : List ℕ)
    → at + length bytes ≤ length xs
    → copy_at at bytes (xs ++ ys) ≡ copy_at at bytes xs ++ ys
unfolding copy_at
copy_at-append_le at bytes xs ys h =
    let n = at + length bytes in
    let split : drop n (xs ++ ys) ≡ drop n xs ++ ys = drop-append_le n xs ys h in
    rw (take-append_le at xs ys (omega (arith, h)), split)
      (sym (
        append_assoc (take at xs) (bytes ++ drop n xs) ys
        ∙ ap (λ zs. take at xs ++ zs) (append_assoc bytes (drop n xs) ys)))

pub copy_at-append :
    (at : ℕ) (bytes xs ys : List ℕ)
    → length xs ≡ at
    → copy_at at bytes (xs ++ ys) ≡ xs ++ (bytes ++ drop (length bytes) ys)
unfolding copy_at
copy_at-append at bytes xs ys e =
    ap (λ k. copy_at k bytes (xs ++ ys)) (sym e ∙ omega arith)
    ∙ (copy_at-append_add 0 bytes xs ys ∙ ap (λ k. xs ++ (bytes ++ drop k ys)) (omega arith))
