-- ===== src/Utils.antt =====
-- src/common/utils.{h,cpp}: directories and switches from the environment, a bounded copy of text, the
-- escapes for XML and for URLs, and the guard that flushes denormal numbers to zero. Text is a list
-- of character codes. `getenv` and what the system answers are parameters.
pub mod Copy
pub mod Escape
use wasivst.Prelude.{
  ℕ, zero, suc, Bool, true, false, Option, none, some, List, [], ◌∷◌, ◌++◌, length, take, min, ◌==◌,
  if◌then◌else◌,
}
use wasivst.Prelude.Vector.{copy_at}
use wasivst.Prelude.Text.{codes, text_eq}

unfoldable pub get_temporary_directory : (getenv : List ℕ → Option (List ℕ)) → List ℕ → List ℕ
get_temporary_directory getenv temp_directory_path = elim (getenv (codes "YABRIDGE_TEMP_DIR")) [
  | some directory ↦ directory
  | none ↦ elim (getenv (codes "XDG_RUNTIME_DIR")) [
    | some directory ↦ directory
    | none ↦ temp_directory_path
  ]
]

unfoldable pub is_watchdog_timer_disabled : (getenv : List ℕ → Option (List ℕ)) → Bool
is_watchdog_timer_disabled getenv = elim (getenv (codes "YABRIDGE_NO_WATCHDOG")) [
  | some value ↦ text_eq value (codes "1")
  | none ↦ false
]

-- The size that is returned, and the memory at `dst`.
unfoldable pub strlcpy_buffer : (dst src : List ℕ) (size : ℕ) → ℕ × List ℕ
unfolding copy_at
strlcpy_buffer dst src zero = (length src, dst)
strlcpy_buffer dst src (suc n) =
    (length src, copy_at 0 (take (min n (length src)) src ++ 0 ∷ []) dst)

-- A case of a `switch` over characters, with the text that it appends.
pub record Case : Type 0 where
  pub character : ℕ
  pub appended : List ℕ

-- The first case with the character; the default appends the character itself.
unfoldable pub replacement : List Case → ℕ → List ℕ
replacement [] c = c ∷ []
replacement (k ∷ ks) c = if c == k.character then k.appended else replacement ks c

-- The loop over the characters.
unfoldable pub escaped : List Case → List ℕ → List ℕ
unfolding replacement
escaped ks [] = []
escaped ks (c ∷ cs) = replacement ks c ++ escaped ks cs

abbrev pub xml_cases : List Case
xml_cases =
    record { character = b'&'; appended = codes "&amp;" }
    ∷ record { character = b'"'; appended = codes "&quot;" }
    ∷ record { character = 39; appended = codes "&apos;" }
    ∷ record { character = b'<'; appended = codes "&lt;" }
    ∷ record { character = b'>'; appended = codes "&gt;" }
    ∷ []

unfoldable pub xml_escape : List ℕ → List ℕ
unfolding escaped
xml_escape string = escaped xml_cases string

abbrev pub url_cases : List Case
url_cases =
    record { character = b' '; appended = codes "%20" }
    ∷ record { character = b'!'; appended = codes "%21" }
    ∷ record { character = b'#'; appended = codes "%23" }
    ∷ record { character = b'$'; appended = codes "%24" }
    ∷ record { character = b'%'; appended = codes "%25" }
    ∷ record { character = b'&'; appended = codes "%26" }
    ∷ record { character = 39; appended = codes "%27" }
    ∷ record { character = b'('; appended = codes "%28" }
    ∷ record { character = b')'; appended = codes "%29" }
    ∷ record { character = b'*'; appended = codes "%2A" }
    ∷ record { character = b'+'; appended = codes "%2B" }
    ∷ record { character = b','; appended = codes "%2C" }
    ∷ record { character = b':'; appended = codes "%3A" }
    ∷ record { character = b';'; appended = codes "%3B" }
    ∷ record { character = b'='; appended = codes "%3D" }
    ∷ record { character = b'?'; appended = codes "%3F" }
    ∷ record { character = b'@'; appended = codes "%40" }
    ∷ record { character = b'['; appended = codes "%5B" }
    ∷ record { character = b']'; appended = codes "%5D" }
    ∷ []

unfoldable pub url_encode_path : List ℕ → List ℕ
unfolding escaped
url_encode_path path = escaped url_cases path

-- `ScopedFlushToZero`, whose mode is that of the processor when it was made; `none` once it is moved
-- from. The second number is the mode of the processor, of which 1 stands for `_MM_FLUSH_ZERO_ON`.
unfoldable pub flush_to_zero : ℕ → Option ℕ × ℕ
flush_to_zero mode = (some mode, 1)

unfoldable pub restore : Option ℕ → ℕ → ℕ
restore none mode = mode
restore (some old_ftz_mode) mode = old_ftz_mode

-- The move constructor: the new guard and the old one.
unfoldable pub move_guard : Option ℕ → Option ℕ × Option ℕ
move_guard o = (o, none)
