-- ===== src/Vst3/AttributeList/Laws.antt =====
-- Attributes that are written back by src/common/serialization/vst3/attribute-list.cpp are found again.
use wasivst.Prelude.{ℕ, ◌≡◌, ◌≢◌, false, Option, none, some, List, [], ◌∷◌, All}
use wasivst.Prelude.Text.{text_eq}
use wasivst.Vst3.AttributeList.{Key, put}

unfoldable pub or_else : {A : Type 0} → Option A → Option A → Option A
or_else none o = o
or_else (some a) o = some a

module _ {A : Type 0} where
  -- All keys are different.
  abbrev pub AreDistinct : List (Key × A) → Type 0
  AreDistinct [] = Unit
  AreDistinct ((k, a) ∷ m) = All (λ (x : Key × A). text_eq k x.0 ≡ false) m × AreDistinct m

  put_all : List (Key × A) → List (Key × A) → List (Key × A)
  put_all [] host = host
  put_all ((k, a) ∷ m) host = put_all m (put k a host)

-- Texts without a 0.
abbrev pub IsText : Key × List ℕ → Type 0
IsText x = All (λ c. c ≢ 0) x.1
