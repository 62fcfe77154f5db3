-- ===== src/Vst3/Base.antt =====
-- src/common/serialization/vst3/base.{h,cpp}: interface identifiers, whose bytes stand in another order on
-- the Wine side, and results, whose numbers differ between platforms. The numbers are constants of
-- the SDK, and a parameter.
pub mod Laws
use wasivst.Prelude.{ℕ, List, [], ◌∷◌, ◌==◌, if◌then◌else◌}
use wasivst.Prelude.Text.{codes}

-- `ArrayUID`, with the last eight bytes together.
pub record ArrayUid : Type 0 where
  pub b0 : ℕ
  pub b1 : ℕ
  pub b2 : ℕ
  pub b3 : ℕ
  pub b4 : ℕ
  pub b5 : ℕ
  pub b6 : ℕ
  pub b7 : ℕ
  pub last : List ℕ

-- `WineUID::get_native_uid`
unfoldable pub get_native_uid : ArrayUid → ArrayUid
get_native_uid uid = record {
  b0 = uid.b3;
  b1 = uid.b2;
  b2 = uid.b1;
  b3 = uid.b0;
  b4 = uid.b5;
  b5 = uid.b4;
  b6 = uid.b7;
  b7 = uid.b6;
  last = uid.last;
}

-- `NativeUID::get_wine_uid`
unfoldable pub get_wine_uid : ArrayUid → ArrayUid
get_wine_uid uid = record {
  b0 = uid.b3;
  b1 = uid.b2;
  b2 = uid.b1;
  b3 = uid.b0;
  b4 = uid.b5;
  b5 = uid.b4;
  b6 = uid.b7;
  b7 = uid.b6;
  last = uid.last;
}

-- `UniversalTResult::Value`
pub data Value : Type 0 where
  k_no_interface k_result_ok k_result_false k_invalid_argument : Value
  k_not_implemented k_internal_error k_not_initialized k_out_of_memory : Value

-- The constants of a platform, as bit patterns.
pub record Platform : Type 0 where
  pub code : Value → ℕ

-- The cases of the `switch` in `to_universal_result`, in order.
abbrev pub cases : List Value
cases =
    k_no_interface ∷ k_result_ok ∷ k_result_false ∷ k_invalid_argument ∷ k_not_implemented
    ∷ k_internal_error ∷ k_not_initialized ∷ k_out_of_memory ∷ []

-- The first case with the number, or else the default.
unfoldable pub switch : Platform → ℕ → List Value → Value
switch platform n [] = k_invalid_argument
switch platform n (v ∷ vs) = if n == platform.code v then v else switch platform n vs

unfoldable pub to_universal_result : Platform → ℕ → Value
unfolding switch
to_universal_result platform n = switch platform n cases

-- `UniversalTResult::operator tresult`
unfoldable pub to_tresult : Platform → Value → ℕ
to_tresult platform k_no_interface = platform.code k_no_interface
to_tresult platform k_result_ok = platform.code k_result_ok
to_tresult platform k_result_false = platform.code k_result_false
to_tresult platform k_invalid_argument = platform.code k_invalid_argument
to_tresult platform k_not_implemented = platform.code k_not_implemented
to_tresult platform k_internal_error = platform.code k_internal_error
to_tresult platform k_not_initialized = platform.code k_not_initialized
to_tresult platform k_out_of_memory = platform.code k_out_of_memory

-- `UniversalTResult::string`
unfoldable pub string : Value → List ℕ
string k_no_interface = codes "kNoInterface"
string k_result_ok = codes "kResultOk"
string k_result_false = codes "kResultFalse"
string k_invalid_argument = codes "kInvalidArgument"
string k_not_implemented = codes "kNotImplemented"
string k_internal_error = codes "kInternalError"
string k_not_initialized = codes "kNotInitialized"
string k_out_of_memory = codes "kOutOfMemory"
