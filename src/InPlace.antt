-- ===== src/InPlace.antt =====
-- The serialization of optional values into values that exist already
-- (src/common/bitsery/ext/in-place-optional.h). The library that it extends is a parameter: how it writes
-- and reads a Boolean, with the alignment after it, and an object.
use wasivst.Prelude.{
  ℕ, ◌≡◌, refl, ap, ◌∙◌, Bool, true, false, Option, none, some, List, ◌++◌, append_assoc,
  if◌then◌else◌,
}

-- A value is read into an old one; what is left of the input comes with it.
pub record Serializer (A : Type 0) : Type 0 where
  pub write : A → List ℕ
  pub read_into : A → List ℕ → A × List ℕ
  pub create : A  -- `bitsery::Access::create`

-- What is read replaces whatever the old value was.
abbrev pub IsSerializer : {A : Type 0} → Serializer A → Type 0
IsSerializer {A} s = (old a : A) (rest : List ℕ) → s.read_into old (s.write a ++ rest) ≡ (a, rest)

module _ {A : Type 0} (bool_value : Serializer Bool) (trivial : Bool) (value : Serializer A) where
  unfoldable pub write_optional : Option A → List ℕ
  write_optional none = bool_value.write false
  write_optional (some a) = bool_value.write true ++ value.write a

  -- A value of a type that is trivial is made anew.
  read_value : Option A → List ℕ → Option A × List ℕ
  read_value none input = let (a, rest) = value.read_into value.create input in (some a, rest)
  read_value (some old) input =
      let (a, rest) = value.read_into (if trivial then value.create else old) input in
      (some a, rest)

  read_exists : Option A → Bool × List ℕ → Option A × List ℕ
  unfolding read_value
  read_exists obj (true, input) = read_value obj input
  read_exists obj (false, input) = (none, input)

  unfoldable pub read_optional : Option A → List ℕ → Option A × List ℕ
  unfolding read_exists
  read_optional obj input = read_exists obj (bool_value.read_into false input)

  -- An optional value that was written is read back, whether there was an old value or not, and what
  -- follows it is left.
  pub read_optional-write_optional :
      IsSerializer bool_value
      → IsSerializer value
      → (old o : Option A) (rest : List ℕ)
      → read_optional old (write_optional o ++ rest) ≡ (o, rest)
  unfolding read_optional write_optional read_exists read_value
  read_optional-write_optional b v old none rest = ap (read_exists old) (b false false rest)
  read_optional-write_optional b v old (some a) rest =
      ap (read_optional old) (append_assoc (bool_value.write true) (value.write a) rest)
      ∙ (ap (read_exists old) (b false true (value.write a ++ rest)) ∙ read_in old)
    where
      read_in : (old : Option A) → read_value old (value.write a ++ rest) ≡ (some a, rest)
      read_in none = rw (v value.create a rest) refl
      read_in (some c) = rw (v (if trivial then value.create else c) a rest) refl
