-- ===== src/Utils/Copy.antt =====
-- The bounded copy of src/common/utils.cpp.
use wasivst.Prelude.{
  ℕ, zero, suc, ◌+◌, ◌-◌, ◌≤◌, ◌<◌, ◌≡◌, ◌≢◌, refl, ap, ◌∙◌, List, [], ◌∷◌, ◌++◌, arith, length,
  take, drop, min, All, append_assoc, length-append, length-take, drop-drop, drop-append_add,
  take-min,
}
use wasivst.Prelude.Vector.{copy_at, length-copy_at}
use wasivst.Utils.{strlcpy_buffer}

-- The text of a C string: what stands before the first 0.
unfoldable pub c_string : List ℕ → List ℕ
c_string [] = []
c_string (zero ∷ cs) = []
c_string (suc c ∷ cs) = suc c ∷ c_string cs

pub c_string-append : (s rest : List ℕ) → All (λ c. c ≢ 0) s → c_string (s ++ 0 ∷ rest) ≡ s
unfolding c_string
c_string-append [] rest h = refl
c_string-append (zero ∷ s) rest (h, hs) = absurd (h refl)
c_string-append (suc c ∷ s) rest (h, hs) = ap (λ t. suc c ∷ t) (c_string-append s rest hs)

All-take : (P : ℕ → Type 0) (n : ℕ) (s : List ℕ) → All P s → All P (take n s)
All-take P zero s h = tt
All-take P (suc n) [] h = tt
All-take P (suc n) (c ∷ s) (h, hs) = (h, All-take P n s hs)

drop-overwritten :
    (bytes dst : List ℕ) (k : ℕ)
    → length bytes ≤ k
    → drop k (bytes ++ drop (0 + length bytes) dst) ≡ drop k dst
drop-overwritten bytes dst k h =
    let j = k - length bytes in
    let split : k ≡ length bytes + j = omega arith in
    ap (λ i. drop i (bytes ++ drop (0 + length bytes) dst)) split
    ∙ (drop-append_add bytes (drop (0 + length bytes) dst) j
        ∙ (drop-drop (0 + length bytes) j dst ∙ ap (λ i. drop i dst) (omega arith)))

-- Into a memory of at least `size` bytes, of which there is one, a text with no 0 in it is copied as a
-- C string of at most `size - 1` characters, the memory from `size` on stays as it was, and none is
-- written behind its end. What is returned is the length of the whole text.
pub strlcpy_buffer_bounds :
    (dst src : List ℕ) (size : ℕ)
    → All (λ c. c ≢ 0) src
    → 0 < size
    → size ≤ length dst
    → let (n, out) = strlcpy_buffer dst src size in
      (n ≡ length src)
      × (c_string out ≡ take (size - 1) src)
      × (drop size out ≡ drop size dst)
      × (length out ≡ length dst)
unfolding strlcpy_buffer copy_at
strlcpy_buffer_bounds dst src zero h some_room fits = absurd (omega arith)
strlcpy_buffer_bounds dst src (suc n) h some_room fits =
    let m = min n (length src) in
    let text = take m src in
    let count : length text ≡ m = omega (arith, length-take m src) in
    let written : length (text ++ 0 ∷ []) ≡ m + 1 =
      omega (arith, count, length-append text (0 ∷ [])) in
    (
      refl,
      ap c_string (append_assoc text (0 ∷ []) _)
          ∙ (c_string-append text _ (All-take (λ c. c ≢ 0) m src h)
              ∙ (take-min n src ∙ ap (λ k. take k src) (omega arith))),
      drop-overwritten (text ++ 0 ∷ []) dst (suc n) (omega (arith, written)),
      length-copy_at 0 (text ++ 0 ∷ []) dst (omega (arith, written)),
    )
