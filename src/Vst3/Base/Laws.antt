-- ===== src/Vst3/Base/Laws.antt =====
-- What crosses the bridge of identifiers and results (src/common/serialization/vst3/base.cpp).
use wasivst.Prelude.{
  ℕ, ◌≡◌, ◌≢◌, refl, sym, ap, ◌∙◌, List, [], ◌∷◌, ◌==◌, ◌⊎◌, inl, inr, Bool-cases, ==_iff,
}
use wasivst.Vst3.Base.{
  ArrayUid, get_native_uid, get_wine_uid, Value, k_no_interface, k_result_ok, k_result_false,
  k_invalid_argument, k_not_implemented, k_internal_error, k_not_initialized, k_out_of_memory,
  Platform, cases, switch, to_universal_result, to_tresult,
}

-- An identifier that is converted to the other side's order and back is unchanged, from either side.
pub get_native_uid-get_wine_uid :
    (uid : ArrayUid)
    → (get_native_uid (get_wine_uid uid) ≡ uid) × (get_wine_uid (get_native_uid uid) ≡ uid)
unfolding get_native_uid get_wine_uid
get_native_uid-get_wine_uid uid = (refl, refl)

-- The numbers of a platform are distinct, as the labels of a `switch` must be.
pub record IsDistinct (platform : Platform) : Type 0 where
  pub injective : (v w : Value) → platform.code v ≡ platform.code w → v ≡ w

OneOf : Value → List Value → Type 0
OneOf v [] = ⊥
OneOf v (w ∷ ws) = (v ≡ w) ⊎ OneOf v ws

all_cases : (v : Value) → OneOf v cases
unfolding OneOf
all_cases k_no_interface = inl refl
all_cases k_result_ok = inr (inl refl)
all_cases k_result_false = inr (inr (inl refl))
all_cases k_invalid_argument = inr (inr (inr (inl refl)))
all_cases k_not_implemented = inr (inr (inr (inr (inl refl))))
all_cases k_internal_error = inr (inr (inr (inr (inr (inl refl)))))
all_cases k_not_initialized = inr (inr (inr (inr (inr (inr (inl refl))))))
all_cases k_out_of_memory = inr (inr (inr (inr (inr (inr (inr (inl refl)))))))

switch_lem :
    (platform : Platform) (v : Value) (vs : List Value)
    → IsDistinct platform
    → OneOf v vs
    → switch platform (platform.code v) vs ≡ v
unfolding OneOf switch
switch_lem platform v [] distinct h = absurd h
switch_lem platform v (w ∷ ws) distinct (inl e) =
    rw ((==_iff (platform.code v) (platform.code w)).1 (ap platform.code e)) (sym e)
switch_lem platform v (w ∷ ws) distinct (inr rest) =
    elim (Bool-cases (platform.code v == platform.code w)) [
      | inl same ↦
          rw same
            (sym (distinct.injective v w ((==_iff (platform.code v) (platform.code w)).0 same)))
      | inr other ↦ rw other (switch_lem platform v ws distinct rest)
    ]

switch_none :
    (platform : Platform) (n : ℕ) (vs : List Value)
    → ((v : Value) → n ≢ platform.code v)
    → switch platform n vs ≡ k_invalid_argument
unfolding switch
switch_none platform n [] h = refl
switch_none platform n (v ∷ vs) h = elim (Bool-cases (n == platform.code v)) [
  | inl same ↦ absurd (h v ((==_iff n (platform.code v)).0 same))
  | inr other ↦ rw other (switch_none platform n vs h)
]

to_tresult_lem : (platform : Platform) (v : Value) → to_tresult platform v ≡ platform.code v
unfolding to_tresult
to_tresult_lem platform k_no_interface = refl
to_tresult_lem platform k_result_ok = refl
to_tresult_lem platform k_result_false = refl
to_tresult_lem platform k_invalid_argument = refl
to_tresult_lem platform k_not_implemented = refl
to_tresult_lem platform k_internal_error = refl
to_tresult_lem platform k_not_initialized = refl
to_tresult_lem platform k_out_of_memory = refl

-- From a platform whose numbers are distinct to any other, a result arrives as the number that the
-- other platform has for it.
pub to_tresult-to_universal_result :
    (from onto : Platform)
    → IsDistinct from
    → (v : Value) → to_tresult onto (to_universal_result from (from.code v)) ≡ onto.code v
unfolding to_universal_result
to_tresult-to_universal_result from onto distinct v =
    ap (to_tresult onto) (switch_lem from v cases distinct (all_cases v)) ∙ to_tresult_lem onto v

-- A number that is no result of the one platform arrives as the other's invalid argument.
pub unknown_tresult :
    (from onto : Platform) (n : ℕ)
    → ((v : Value) → n ≢ from.code v)
    → to_tresult onto (to_universal_result from n) ≡ onto.code k_invalid_argument
unfolding to_universal_result
unknown_tresult from onto n h =
    ap (to_tresult onto) (switch_none from n cases h) ∙ to_tresult_lem onto k_invalid_argument
