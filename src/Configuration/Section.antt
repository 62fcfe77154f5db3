-- ===== src/Configuration/Section.antt =====
-- The section of a file that `Configuration` (src/common/configuration.cpp) takes its options from.
use wasivst.Prelude.{◌≡◌, ◌≤◌, ◌<◌, true, Option, some, List, [], ◌∷◌, All, ◌⊎◌}
use wasivst.Configuration.{Text, Section, Entry, Libraries, Configuration, defaults, set_options}

abbrev Table : Type 0
Table = Entry × Section

-- That the entry is one of those.
abbrev pub Among : Entry → List Entry → Type 0
Among e [] = ⊥
Among e (f ∷ fs) = (f ≡ e) ⊎ Among e fs

Has : Entry → List Table → Type 0
Has e [] = ⊥
Has e (u ∷ us) = (u.0 ≡ e) ⊎ Has e us

Sorted : List Table → Type 0
Sorted [] = Unit
Sorted (u ∷ us) = All (λ w. u.0.line ≤ w.0.line) us × Sorted us

module _ (lib : Libraries) (path : Text) (e : Entry) (t : Section) (found : e.table ≡ some t) where
  -- A table that, if it matches, is the one of the entry or has a later line.
  Later : Entry → Type 0
  Later f = lib.matches f.pattern path ≡ true → (f ≡ e) ⊎ (e.line < f.line)

  Allowed : Table → Type 0
  Allowed u = (u.0.table ≡ some u.1) × Later u.0

  module _ (config_path : Text) (hit : lib.matches e.pattern path ≡ true) where
    abbrev Chosen : Configuration
    Chosen =
        set_options lib t
          (record defaults { matched_file = some config_path; matched_pattern = some e.pattern })

-- The plugin's path, relative to the directory of the file.
abbrev pub relative_path : Libraries → (config_path yabridge_path : Text) → Text
relative_path lib config_path yabridge_path =
    lib.lexically_relative yabridge_path (lib.parent_path config_path)
