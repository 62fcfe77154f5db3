-- ===== src/Tests/Configuration.antt =====
-- A configuration file (src/common/configuration.cpp) with three sections, of which two match.
use wasivst.Prelude.{not, ℕ, ◌≡◌, refl, true, some, none, [], ◌∷◌}
use wasivst.Prelude.Text.{codes, text_eq}
use wasivst.Configuration.{
  Text, Section, Entry, Libraries, defaults, boolean, integer, string, set_options, set_option,
  set_boolean, set_group, set_disable_pipes, set_frame_rate, invalid,
}

abbrev options : Section
options =
    (codes "editor_xembed", boolean true)
    ∷ (codes "frame_rate", integer 30)
    ∷ (codes "group", boolean true)
    ∷ (codes "vst3", string (codes "x"))
    ∷ []

abbrev entry : Text → ℕ → Section → Entry
entry pattern line table = record { pattern = pattern; line = line; table = some table }

-- The parser gives the entries in the order of their keys.
abbrev libraries : Libraries
libraries = record {
  parse_file = λ _. some (
      entry (codes "*") 9 []
      ∷ entry (codes "a") 1 []
      ∷ entry (codes "b*") 5 options
      ∷ record { pattern = codes "c"; line = 12; table = none }
      ∷ []);
  parent_path = λ p. p;
  lexically_relative = λ p _. p;
  append = λ p _. p;
  matches = λ pattern _. not (text_eq pattern (codes "a"));
  getenv = λ _. none;
  temp_directory_path = codes "/tmp";
  float_of_double = λ d. d;
  float_of_integer = λ i. i;
}

options_set : set_options libraries options defaults ≡ record defaults {
  editor_xembed = true;
  frame_rate = some 30;
  invalid_options = codes "group" ∷ [];
  unknown_options = codes "vst3" ∷ [];
}
unfolding set_options set_option set_boolean set_group set_frame_rate set_disable_pipes invalid
    text_eq
options_set = refl
