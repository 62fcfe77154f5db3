-- ===== src/Process/Path.antt =====
-- The splitting of a search path (src/common/process.cpp) is undone by joining its segments.
use wasivst.Prelude.{
  ℕ, zero, suc, ◌≤◌, ◌<◌, ◌≡◌, ◌≢◌, refl, ap, ◌∙◌, false, none, some, List, [], ◌∷◌, ◌++◌, arith,
  length, length-append, All, ◌==◌,
}
use wasivst.Process.{find_colon, segments, split_path}

-- The segments with a colon between each two.
unfoldable pub join : List (List ℕ) → List ℕ
join [] = []
join (s ∷ []) = s
join (s ∷ t ∷ rest) = s ++ 58 ∷ join (t ∷ rest)

abbrev pub HasNoColon : List ℕ → Type 0
HasNoColon s = All (λ c. c ≢ 58) s

-- The last segment, if there is one, is not empty.
unfoldable pub EndsFull : List (List ℕ) → Type 0
EndsFull [] = Unit {0}
EndsFull (s ∷ []) = 0 < length s
EndsFull (s ∷ t ∷ rest) = EndsFull (t ∷ rest)

no_colon : (c : ℕ) → c ≢ 58 → (c == 58) ≡ false
no_colon c h = ground arith

find_colon_end : (s : List ℕ) → HasNoColon s → find_colon s ≡ (s, none)
unfolding find_colon
find_colon_end [] h = refl
find_colon_end (c ∷ s) (h, hs) = rw (no_colon c h, find_colon_end s hs) refl

find_colon_at : (s rest : List ℕ) → HasNoColon s → find_colon (s ++ 58 ∷ rest) ≡ (s, some rest)
unfolding find_colon
find_colon_at [] rest h = refl
find_colon_at (c ∷ s) rest (h, hs) = rw (no_colon c h, find_colon_at s rest hs) refl

segments_end : (k : ℕ) (s : List ℕ) → HasNoColon s → 0 < length s → segments (suc k) s ≡ s ∷ []
unfolding segments
segments_end k [] h full = absurd (omega arith)
segments_end k (c ∷ s) h full = rw (find_colon_end (c ∷ s) h, segments) refl

segments_at :
    (k : ℕ) (s rest : List ℕ)
    → HasNoColon s
    → segments (suc k) (s ++ 58 ∷ rest) ≡ s ∷ segments k rest
unfolding segments
segments_at k [] rest h = refl
segments_at k (c ∷ s) rest h = let e = find_colon_at (c ∷ s) rest h in rw (e, e, segments) refl

segments-join :
    (k : ℕ) (ss : List (List ℕ))
    → All HasNoColon ss
    → EndsFull ss
    → length (join ss) ≤ k
    → segments k (join ss) ≡ ss
unfolding join EndsFull
segments-join zero [] h full le = unfold segments in refl
segments-join (suc k) [] h full le = unfold segments in refl
segments-join zero (s ∷ []) h full le = absurd (omega arith)
segments-join (suc k) (s ∷ []) (h, _) full le = segments_end k s h full
segments-join zero (s ∷ t ∷ rest) h full le =
    absurd (omega (arith, length-append s (58 ∷ join (t ∷ rest))))
segments-join (suc k) (s ∷ t ∷ rest) (h, hs) full le =
    segments_at k s (join (t ∷ rest)) h
    ∙ ap (λ ss. s ∷ ss)
        (segments-join k (t ∷ rest) hs full (omega (arith, length-append s (58 ∷ join (t ∷ rest)))))

-- Segments without a colon, of which the last is not empty, joined by colons, are found again.
pub split_path-join :
    (ss : List (List ℕ)) → All HasNoColon ss → EndsFull ss → split_path (join ss) ≡ ss
unfolding split_path
split_path-join ss h full = segments-join (length (join ss)) ss h full (omega arith)
