-- ===== src/Plugins.antt =====
-- src/common/plugins.cpp: the architecture of a library, from its header, and the names of the types of
-- plugins. A file is its bytes.
use wasivst.Prelude.{
  ℕ, ◌+◌, ◌≡◌, refl, Option, none, some, List, [], ◌∷◌, length, leb, ◌==◌, if◌then◌else◌,
}
use wasivst.Prelude.Bytes.{le_value}
use wasivst.Prelude.Text.{codes, text_eq}
use wasivst.Prelude.Region.{region}

pub data LibArchitecture : Type 0 where
  dll_32 dll_64 : LibArchitecture

pub data Architecture : Type 0 where
  found : LibArchitecture → Architecture
  runtime_error : Architecture
  unread : Architecture  -- the file ends before, and a variable without a value is used

-- `seekg` and `read`.
unfoldable pub read_at : (offset n : ℕ) → List ℕ → Option ℕ
read_at offset n file =
    if leb (offset + n) (length file) then some (le_value (region offset n file)) else none

unfoldable pub of_machine : ℕ → Architecture
of_machine machine_type =
    if machine_type == 0x014c
    then found dll_32
    else if machine_type == 0x8664
    then found dll_64
    else if machine_type == 0
    then found dll_64
    else runtime_error

unfoldable pub signed : (pe_signature machine_type : Option ℕ) → Architecture
unfolding of_machine
signed (some s) (some machine_type) =
    if s == le_value (b'P' ∷ b'E' ∷ 0 ∷ 0 ∷ []) then of_machine machine_type else runtime_error
signed _ _ = unread

unfoldable pub at_signature : Option ℕ → List ℕ → Architecture
unfolding read_at signed
at_signature none file = unread
at_signature (some offset) file = signed (read_at offset 4 file) (read_at (offset + 4) 2 file)

unfoldable pub find_dll_architecture : List ℕ → Architecture
unfolding at_signature read_at
find_dll_architecture file = at_signature (read_at 0x3c 4 file) file

pub data PluginType : Type 0 where
  clap vst2 vst3 unknown : PluginType

unfoldable pub plugin_type_from_string : List ℕ → PluginType
unfolding text_eq
plugin_type_from_string plugin_type =
    if text_eq plugin_type (codes "CLAP")
    then clap
    else if text_eq plugin_type (codes "VST2")
    then vst2
    else if text_eq plugin_type (codes "VST3")
    then vst3
    else unknown

unfoldable pub plugin_type_to_string : PluginType → List ℕ
plugin_type_to_string clap = codes "CLAP"
plugin_type_to_string vst2 = codes "VST2"
plugin_type_to_string vst3 = codes "VST3"
plugin_type_to_string unknown = codes "<unknown>"

-- The name of a type is read as the type.
plugin_type_from_string-plugin_type_to_string :
    (t : PluginType) → plugin_type_from_string (plugin_type_to_string t) ≡ t
unfolding plugin_type_from_string plugin_type_to_string text_eq
plugin_type_from_string-plugin_type_to_string clap = refl
plugin_type_from_string-plugin_type_to_string vst2 = refl
plugin_type_from_string-plugin_type_to_string vst3 = refl
plugin_type_from_string-plugin_type_to_string unknown = refl
