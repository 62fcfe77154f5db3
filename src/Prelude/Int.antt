-- ===== src/Prelude/Int.antt =====
-- Signed integers over the native numbers, as far as the signed arguments of the sources need them.
use Prim.Native.Nat.{ℕ, suc, ◌+◌, ◌-◌, min, max}
use wasivst.Prelude.Tests.{ltb, if◌then◌else◌}

-- `negsuc n` is -(n + 1).
pub data ℤ : Type 0 where
  pos : ℕ → ℤ
  negsuc : ℕ → ℤ

-- The difference of two sizes, as a signed number.
abbrev pub sub_ℕ : ℕ → ℕ → ℤ
sub_ℕ a b = if ltb a b then negsuc (b - a - 1) else pos (a - b)

-- A position moved by a signed offset.
abbrev pub add_offset : ℕ → ℤ → ℤ
add_offset p (pos n) = pos (p + n)
add_offset p (negsuc n) = sub_ℕ p (suc n)

-- `std::min`
abbrev pub min_ℤ : ℤ → ℤ → ℤ
min_ℤ (pos a) (pos b) = pos (min a b)
min_ℤ (pos a) (negsuc b) = negsuc b
min_ℤ (negsuc a) (pos b) = negsuc a
min_ℤ (negsuc a) (negsuc b) = negsuc (max a b)

-- `std::clamp(x, 0, size)`
abbrev pub clamp : ℤ → ℕ → ℕ
clamp (pos n) size = min n size
clamp (negsuc n) size = 0
