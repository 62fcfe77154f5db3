-- ===== src/Tests/Results.antt =====
-- Results that cross between two platforms, of which one numbers them from 0 and the other from
-- 0x80004001 on.
use wasivst.Prelude.{ℕ, [], ◌∷◌, ◌+◌, ◌≡◌, ◌==◌, if◌then◌else◌, refl, sym, ap, ◌∙◌}
use wasivst.Vst3.Base.{
  Value, k_no_interface, k_result_ok, k_result_false, k_invalid_argument, k_not_implemented,
  k_internal_error, k_not_initialized, k_out_of_memory, ArrayUid, get_native_uid, Platform,
}
use wasivst.Vst3.Base.Laws.{IsDistinct}

abbrev number : Value → ℕ
number k_no_interface = 0
number k_result_ok = 1
number k_result_false = 2
number k_invalid_argument = 3
number k_not_implemented = 4
number k_internal_error = 5
number k_not_initialized = 6
number k_out_of_memory = 7

abbrev value : ℕ → Value
value n =
    if n == 0
    then k_no_interface
    else if n == 1
    then k_result_ok
    else if n == 2
    then k_result_false
    else if n == 3
    then k_invalid_argument
    else if n == 4
    then k_not_implemented
    else if n == 5
    then k_internal_error
    else if n == 6
    then k_not_initialized
    else k_out_of_memory

value-number : (v : Value) → value (number v) ≡ v
value-number k_no_interface = refl
value-number k_result_ok = refl
value-number k_result_false = refl
value-number k_invalid_argument = refl
value-number k_not_implemented = refl
value-number k_internal_error = refl
value-number k_not_initialized = refl
value-number k_out_of_memory = refl

abbrev plain : Platform
plain = record { code = number }

abbrev wine : Platform
wine = record { code = λ v. number v + 0x80004001 }

plain-IsDistinct : IsDistinct plain
plain-IsDistinct = record {
  injective = λ v w e. sym (value-number v) ∙ (ap value e ∙ value-number w);
}

abbrev some_uid : ArrayUid
some_uid = record {
  b0 = 0;
  b1 = 1;
  b2 = 2;
  b3 = 3;
  b4 = 4;
  b5 = 5;
  b6 = 6;
  b7 = 7;
  last = 8 ∷ 9 ∷ 10 ∷ 11 ∷ 12 ∷ 13 ∷ 14 ∷ 15 ∷ [];
}

get_native_uid_run :
    get_native_uid some_uid
    ≡ record some_uid { b0 = 3; b1 = 2; b2 = 1; b3 = 0; b4 = 5; b5 = 4; b6 = 7; b7 = 6 }
unfolding get_native_uid
get_native_uid_run = refl
