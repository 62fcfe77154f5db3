-- ===== src/Tests/Plugins.antt =====
-- The header of a 64-bit library (src/common/plugins.cpp).
use wasivst.Prelude.{ℕ, ◌≡◌, refl, List, [], ◌∷◌, ◌++◌, replicate}
use wasivst.Prelude.Bytes.{le_value}
use wasivst.Plugins.{
  found, dll_64, unread, read_at, of_machine, signed, at_signature, find_dll_architecture,
}

-- The signature follows the offset at once.
abbrev library : List ℕ
library = replicate 60 0 ++ (64 ∷ 0 ∷ 0 ∷ 0 ∷ b'P' ∷ b'E' ∷ 0 ∷ 0 ∷ 0x64 ∷ 0x86 ∷ [])

library_64 : find_dll_architecture library ≡ found dll_64
unfolding find_dll_architecture at_signature signed read_at of_machine le_value
library_64 = refl

short_file : find_dll_architecture (b'M' ∷ b'Z' ∷ []) ≡ unread
unfolding find_dll_architecture at_signature read_at
short_file = refl
