-- ===== src/Prelude/Copies.antt =====
-- Copies into a memory, one after the other: those whose places are apart are all found there.
use mathlib.Core.Path.{subst}
use wasivst.Prelude.{ℕ, ◌+◌, ◌≡◌, ◌≤◌, refl, sym, ap, ◌∙◌, List, [], ◌∷◌, ◌++◌, arith, length, All}
use wasivst.Prelude.Vector.{copy_at, length-copy_at}
use wasivst.Prelude.Region.{region, region-copy_at, Beside, region-copy-Beside}

-- An offset, and the bytes that are copied there.
abbrev pub Job : Type 0
Job = ℕ × List ℕ

-- The place of a job is within a memory, or beside that of another.
abbrev pub IsInside : (size : ℕ) → Job → Type 0
IsInside size j = j.0 + length j.1 ≤ size

abbrev pub IsApart : Job → Job → Type 0
IsApart j i = Beside j.0 (length j.1) i.0 (length i.1)

abbrev pub AreAllApart : List Job → Type 0
AreAllApart [] = Unit
AreAllApart (j ∷ js) = All (IsApart j) js × AreAllApart js

unfoldable pub run : List Job → List ℕ → List ℕ
run [] memory = memory
run (j ∷ js) memory = run js (copy_at j.0 j.1 memory)

pub copied-IsInside :
    (m : List ℕ) (j : Job) (js : List Job)
    → IsInside (length m) j
    → All (IsInside (length m)) js
    → All (IsInside (length (copy_at j.0 j.1 m))) js
copied-IsInside m j [] h hs = tt
copied-IsInside m j (i ∷ js) h (h', hs) =
    (omega (arith, h', length-copy_at j.0 j.1 m h), copied-IsInside m j js h hs)

pub length-run :
    (js : List Job) (m : List ℕ) → All (IsInside (length m)) js → length (run js m) ≡ length m
unfolding run
length-run [] m h = refl
length-run (j ∷ js) m (h, hs) =
    length-run js (copy_at j.0 j.1 m) (copied-IsInside m j js h hs) ∙ length-copy_at j.0 j.1 m h

pub run-append : (xs ys : List Job) (m : List ℕ) → run (xs ++ ys) m ≡ run ys (run xs m)
unfolding run
run-append [] ys m = refl
run-append (x ∷ xs) ys m = run-append xs ys (copy_at x.0 x.1 m)

pub All-left : (P : Job → Type 0) (xs ys : List Job) → All P (xs ++ ys) → All P xs × All P ys
All-left P [] ys h = (tt, h)
All-left P (x ∷ xs) ys (h, hs) = let (l, r) = All-left P xs ys hs in ((h, l), r)

region-run-Beside :
    (at n : ℕ) (js : List Job) (m : List ℕ)
    → All (IsInside (length m)) js
    → All (λ (i : Job). Beside at n i.0 (length i.1)) js
    → region at n (run js m) ≡ region at n m
unfolding run
region-run-Beside at n [] m h b = refl
region-run-Beside at n (j ∷ js) m (h, hs) (b, bs) =
    region-run-Beside at n js (copy_at j.0 j.1 m) (copied-IsInside m j js h hs) bs
    ∙ region-copy-Beside at n j.0 j.1 m h b

pub region-run :
    (js : List Job) (m : List ℕ)
    → All (IsInside (length m)) js
    → AreAllApart js
    → All (λ (j : Job). region j.0 (length j.1) (run js m) ≡ j.1) js
unfolding run
region-run [] m h a = tt
region-run (j ∷ js) m (h, hs) (b, bs) =
    let inside = copied-IsInside m j js h hs in
    (
      region-run-Beside j.0 (length j.1) js (copy_at j.0 j.1 m) inside b
          ∙ region-copy_at j.0 j.1 m h,
      region-run js (copy_at j.0 j.1 m) inside bs,
    )

-- The same for jobs that have `n` bytes each.
abbrev pub Fits : (n size : ℕ) → Job → Type 0
Fits n size j = (length j.1 ≡ n) × (j.0 + n ≤ size)

abbrev pub AreApart : (n : ℕ) → List Job → Type 0
AreApart n [] = Unit
AreApart n (j ∷ js) = All (λ (i : Job). Beside j.0 n i.0 n) js × AreApart n js

pub Fits-IsInside : (n size : ℕ) (js : List Job) → All (Fits n size) js → All (IsInside size) js
Fits-IsInside n size [] h = tt
Fits-IsInside n size (j ∷ js) ((e, h), hs) = (omega (arith, e, h), Fits-IsInside n size js hs)

pub All-Fits : (n : ℕ) {a b : ℕ} (js : List Job) → a ≡ b → All (Fits n a) js → All (Fits n b) js
All-Fits n [] e h = tt
All-Fits n (j ∷ js) e ((size, inside), hs) = ((size, omega (arith, inside, e)), All-Fits n js e hs)

AreApart-AreAllApart :
    (n size : ℕ) (js : List Job) → All (Fits n size) js → AreApart n js → AreAllApart js
AreApart-AreAllApart n size [] h a = tt
AreApart-AreAllApart n size (j ∷ js) ((e, _), hs) (b, bs) =
    (beside js hs b, AreApart-AreAllApart n size js hs bs)
  where
    beside :
        (is : List Job)
        → All (Fits n size) is
        → All (λ (i : Job). Beside j.0 n i.0 n) is
        → All (IsApart j) is
    beside [] h b = tt
    beside (i ∷ is) ((e', _), h) (b, bs) = (
      subst (λ k. Beside j.0 k i.0 (length i.1)) (sym e)
          (subst (λ k. Beside j.0 n i.0 k) (sym e') b),
      beside is h bs,
    )

pub regions-run :
    (n : ℕ) (js : List Job) (m : List ℕ)
    → All (Fits n (length m)) js
    → AreApart n js
    → All (λ (j : Job). region j.0 n (run js m) ≡ j.1) js
regions-run n js m h a =
    sized js h
      (region-run js m (Fits-IsInside n (length m) js h) (AreApart-AreAllApart n (length m) js h a))
  where
    sized :
        (is : List Job)
        → All (Fits n (length m)) is
        → All (λ (j : Job). region j.0 (length j.1) (run js m) ≡ j.1) is
        → All (λ (j : Job). region j.0 n (run js m) ≡ j.1) is
    sized [] h r = tt
    sized (i ∷ is) ((e, _), h) (r, rs) =
        (ap (λ k. region i.0 k (run js m)) (sym e) ∙ r, sized is h rs)
