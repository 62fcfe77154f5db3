-- ===== src/Configuration.antt =====
-- `Configuration` (src/common/configuration.{h,cpp}): the options of the first section of a file that
-- matches a plugin. The parser of TOML, paths, `fnmatch` and the conversions of numbers are parameters.
pub mod Section
use wasivst.Prelude.{
  ℕ, Bool, true, false, Option, none, some, List, [], ◌∷◌, ◌++◌, leb, if◌then◌else◌,
}
use wasivst.Prelude.Text.{codes, text_eq}
use wasivst.Utils.{get_temporary_directory}

abbrev pub Text : Type 0
Text = List ℕ

-- A value in a section. A double is its bit pattern, an integer its two's complement.
pub data Value : Type 0 where
  string : Text → Value
  boolean : Bool → Value
  floating_point integer : ℕ → Value
  other_value : Value

abbrev pub Section : Type 0
Section = List (Text × Value)

-- An entry of the file, with the line of its key.
pub record Entry : Type 0 where
  pub pattern : Text
  pub line : ℕ
  pub table : Option Section  -- `none` where the entry is no table

pub record Libraries : Type 0 where
  pub parse_file : Text → Option (List Entry)  -- `none` where it throws
  pub parent_path : Text → Text
  pub lexically_relative : Text → Text → Text
  pub append : Text → Text → Text  -- `operator/` of paths
  pub matches : (pattern path : Text) → Bool  -- `fnmatch` with the flags of the code returns 0
  pub getenv : Text → Option Text
  pub temp_directory_path : Text
  pub float_of_double : ℕ → ℕ
  pub float_of_integer : ℕ → ℕ

pub record Configuration : Type 0 where
  pub group : Option Text
  pub disable_pipes : Option Text
  pub editor_coordinate_hack : Bool
  pub editor_force_dnd : Bool
  pub editor_xembed : Bool
  pub frame_rate : Option ℕ
  pub hide_daw : Bool
  pub editor_disable_host_scaling : Bool
  pub vst3_prefer_32bit : Bool
  pub matched_file : Option Text
  pub matched_pattern : Option Text
  pub invalid_options : List Text
  pub unknown_options : List Text

abbrev pub defaults : Configuration
defaults = record {
  group = none;
  disable_pipes = none;
  editor_coordinate_hack = false;
  editor_force_dnd = false;
  editor_xembed = false;
  frame_rate = none;
  hide_daw = false;
  editor_disable_host_scaling = false;
  vst3_prefer_32bit = false;
  matched_file = none;
  matched_pattern = none;
  invalid_options = [];
  unknown_options = [];
}

-- `emplace_back` of a key whose value is not of its option's type.
unfoldable pub invalid : Text → Configuration → Configuration
invalid key c = record c { invalid_options = c.invalid_options ++ key ∷ [] }

-- The entries that are tables.
unfoldable pub tables : List Entry → List (Entry × Section)
tables [] = []
tables (e ∷ es) = elim (e.table) [ none ↦ tables es | some t ↦ (e, t) ∷ tables es ]

-- `std::sort` by the line.
unfoldable pub insert : Entry × Section → List (Entry × Section) → List (Entry × Section)
insert t [] = t ∷ []
insert t (u ∷ us) = if leb t.0.line u.0.line then t ∷ u ∷ us else u ∷ insert t us

unfoldable pub sort : List (Entry × Section) → List (Entry × Section)
unfolding insert
sort [] = []
sort (t ∷ ts) = insert t (sort ts)

module _ (lib : Libraries) where
  unfoldable pub set_group : Text → Value → Configuration → Configuration
  unfolding invalid
  set_group key (string s) c = record c { group = some s }
  set_group key _ c = invalid key c

  unfoldable pub set_disable_pipes : Text → Value → Configuration → Configuration
  unfolding invalid
  set_disable_pipes key (boolean true) c = record c {
    disable_pipes = some (
        lib.append (get_temporary_directory lib.getenv lib.temp_directory_path)
          (codes "yabridge-plugin-output.log"));
  }
  set_disable_pipes key (boolean false) c = record c { disable_pipes = none }
  set_disable_pipes key (string s) c = record c { disable_pipes = some s }
  set_disable_pipes key _ c = invalid key c

  -- The options that are a boolean; `set` is the assignment.
  unfoldable pub set_boolean :
      (set : Bool → Configuration) → Text → Value → Configuration → Configuration
  unfolding invalid
  set_boolean set key (boolean b) c = set b
  set_boolean set key _ c = invalid key c

  unfoldable pub set_frame_rate : Text → Value → Configuration → Configuration
  unfolding invalid
  set_frame_rate key (floating_point d) c = record c { frame_rate = some (lib.float_of_double d) }
  set_frame_rate key (integer i) c = record c { frame_rate = some (lib.float_of_integer i) }
  set_frame_rate key _ c = invalid key c

  -- The body of the loop over a section.
  unfoldable pub set_option : Text → Value → Configuration → Configuration
  unfolding set_group set_disable_pipes set_boolean set_frame_rate text_eq
  set_option key value c =
      if text_eq key (codes "group")
      then set_group key value c
      else if text_eq key (codes "disable_pipes")
      then set_disable_pipes key value c
      else if text_eq key (codes "editor_coordinate_hack")
      then set_boolean (λ b. record c { editor_coordinate_hack = b }) key value c
      else if text_eq key (codes "editor_disable_host_scaling")
      then set_boolean (λ b. record c { editor_disable_host_scaling = b }) key value c
      else if text_eq key (codes "editor_force_dnd")
      then set_boolean (λ b. record c { editor_force_dnd = b }) key value c
      else if text_eq key (codes "editor_xembed")
      then set_boolean (λ b. record c { editor_xembed = b }) key value c
      else if text_eq key (codes "frame_rate")
      then set_frame_rate key value c
      else if text_eq key (codes "hide_daw")
      then set_boolean (λ b. record c { hide_daw = b }) key value c
      else if text_eq key (codes "vst3_prefer_32bit")
      then set_boolean (λ b. record c { vst3_prefer_32bit = b }) key value c
      else record c { unknown_options = c.unknown_options ++ key ∷ [] }

  unfoldable pub set_options : Section → Configuration → Configuration
  unfolding set_option
  set_options [] c = c
  set_options ((key, value) ∷ options) c = set_options options (set_option key value c)

  -- The loop over the sorted tables, which ends after the first that matches.
  unfoldable pub first_match :
      (config_path relative_path : Text) → List (Entry × Section) → Configuration
  unfolding set_options
  first_match config_path relative_path [] = defaults
  first_match config_path relative_path ((e, t) ∷ ts) =
      if lib.matches e.pattern relative_path
      then set_options t
          (record defaults { matched_file = some config_path; matched_pattern = some e.pattern })
      else first_match config_path relative_path ts

  from_entries : (config_path yabridge_path : Text) → Option (List Entry) → Option Configuration
  unfolding tables sort first_match
  from_entries config_path yabridge_path none = none
  from_entries config_path yabridge_path (some es) = some (
      first_match config_path (lib.lexically_relative yabridge_path (lib.parent_path config_path))
        (sort (tables es)))

  -- The constructor; `none` is an exception of the parser.
  unfoldable pub configuration : (config_path yabridge_path : Text) → Option Configuration
  unfolding from_entries
  configuration config_path yabridge_path =
      from_entries config_path yabridge_path (lib.parse_file config_path)
