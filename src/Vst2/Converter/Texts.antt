-- ===== src/Vst2/Converter/Texts.antt =====
-- The texts that src/common/communication/vst2.h reads from buffers and writes into them.
use wasivst.Prelude.{
  ℕ, zero, suc, ◌≡◌, refl, ap, ◌∙◌, Option, none, some, List, [], ◌∷◌, ◌++◌, ◌+◌, take, drop,
  length, ltb, leb, ltb→lt, le→leb, Bool-cases, inl, inr, arith, append_assoc, length-append, true,
  false, if◌then◌else◌,
}
use wasivst.Prelude.Vector.{copy_at}
use wasivst.Vst2.Passthrough.{c_string}
use wasivst.Vst2.Converter.{Data, write_string}

-- How many bytes stand before the first 0, and these bytes.
unfoldable pub find_zero : List ℕ → Option ℕ
find_zero [] = none
find_zero (zero ∷ bs) = some 0
find_zero (suc b ∷ bs) = elim (find_zero bs) [ none ↦ none | some k ↦ some (suc k) ]

unfoldable pub text_at : List ℕ → Option (List ℕ)
unfolding find_zero
text_at bs = elim (find_zero bs) [ none ↦ none | some k ↦ some (take k bs) ]

-- A text with a 0 at the start of a buffer that is longer than the text.
unfoldable pub placed : (text : List ℕ) → Data → Option Data
placed text none = none
placed text (some buffer) =
    if ltb (length text) (length buffer)
    then some (some (text ++ 0 ∷ drop (suc (length text)) buffer))
    else none

-- 64 bytes, of which the first 8 are 0.
unfoldable pub cleared : (uninitialized : List ℕ) → List ℕ
cleared uninitialized = 0 ∷ 0 ∷ 0 ∷ 0 ∷ 0 ∷ 0 ∷ 0 ∷ 0 ∷ take 56 uninitialized

pub c_string-text_at : (bs : List ℕ) → c_string bs ≡ text_at bs
unfolding c_string text_at find_zero
c_string-text_at [] = refl
c_string-text_at (zero ∷ bs) = refl
c_string-text_at (suc b ∷ bs) = rw (c_string-text_at bs) (go (find_zero bs))
  where
    go :
        (o : Option ℕ)
        → Path
            (Option (List ℕ))
            (elim (elim o as (λ _. Option (List ℕ)) [ none ↦ none | some k ↦ some (take k bs) ]) [
              | none ↦ none
              | some text ↦ some (suc b ∷ text)
            ])
            (elim (elim o as (λ _. Option ℕ) [ none ↦ none | some k ↦ some (suc k) ]) [
              | none ↦ none
              | some k ↦ some (take k (suc b ∷ bs))
            ])
    go none = refl
    go (some k) = refl

pub write_string-placed : (text : List ℕ) (dest : Data) → write_string text dest ≡ placed text dest
unfolding write_string placed copy_at
write_string-placed text none = refl
write_string-placed text (some buffer) = elim (Bool-cases (ltb (length text) (length buffer))) [
  | inl fits ↦
      let le : leb (length text + 1) (length buffer) ≡ true =
        le→leb (length text + 1) (length buffer)
          (omega (arith, ltb→lt (length text) (length buffer) fits)) in
      rw (le, fits)
        (ap (λ b. some (some b))
          (append_assoc text (0 ∷ []) _
            ∙ ap (λ k. text ++ 0 ∷ drop k buffer) {y = suc (length text)}
                (omega (arith, length-append text (0 ∷ [])))))
  | inr long ↦
      let gt : leb (length text + 1) (length buffer) ≡ false = ground arith in rw (gt, long) refl
]
