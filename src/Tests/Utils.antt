-- ===== src/Tests/Utils.antt =====
-- The copies and the escapes of src/common/utils.cpp at concrete inputs.
use wasivst.Prelude.{ℕ, ◌≡◌, refl, List, [], ◌∷◌, arith, length, take, drop, ◌-◌, false, some, none}
use wasivst.Prelude.Text.{codes, text_eq}
use wasivst.Utils.{
  strlcpy_buffer, xml_escape, url_encode_path, get_temporary_directory, is_watchdog_timer_disabled,
}
use wasivst.Utils.Copy.{c_string, strlcpy_buffer_bounds}

abbrev label : List ℕ
label = 65 ∷ 66 ∷ 67 ∷ 68 ∷ []

abbrev field : List ℕ
field = 1 ∷ 2 ∷ 3 ∷ 4 ∷ []

-- The label does not fit: three bytes are written, of which the last ends the text.
label_cut : strlcpy_buffer field label 3 ≡ (4, 65 ∷ 66 ∷ 0 ∷ 4 ∷ [])
unfolding strlcpy_buffer
label_cut = refl

strlcpy_buffer_bounds_example :
    let (n, out) = strlcpy_buffer field label 3 in
    (n ≡ 4)
    × (c_string out ≡ take (3 - 1) label)
    × (drop 3 out ≡ drop 3 field)
    × (length out ≡ length field)
strlcpy_buffer_bounds_example =
    strlcpy_buffer_bounds field label 3
      (
        (λ e. absurd (omega (arith, e))),
        (
          (λ e. absurd (omega (arith, e))),
          ((λ e. absurd (omega (arith, e))), ((λ e. absurd (omega (arith, e))), tt)),
        ),
      )
      (omega arith) (omega arith)

abbrev title : List ℕ
title = codes "<Tom & \"Jerry\">"

title_escaped : xml_escape title ≡ codes "&lt;Tom &amp; &quot;Jerry&quot;&gt;"
unfolding xml_escape
title_escaped = refl

abbrev path : List ℕ
path = codes "/home/me/100% (new)"

path_encoded : url_encode_path path ≡ codes "/home/me/100%25%20%28new%29"
unfolding url_encode_path
path_encoded = refl

temporary_directory_default : get_temporary_directory (λ _. none) (codes "/tmp") ≡ codes "/tmp"
unfolding get_temporary_directory
temporary_directory_default = refl

watchdog_on : is_watchdog_timer_disabled (λ _. some (codes "0")) ≡ false
unfolding is_watchdog_timer_disabled text_eq
watchdog_on = refl
