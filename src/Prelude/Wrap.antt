-- ===== src/Prelude/Wrap.antt =====
-- Sizes that are computed with numbers of a fixed width.
use Prim.Native.Nat.{ℕ, ◌+◌, ◌-◌, ◌*◌, ◌/◌, ◌%◌, ◌≤◌, ◌<◌}
use mathlib.Core.Path.{◌≡◌, sym, ap, ◌∙◌}
use native.Mathlib.Nat.{add-mul-mod_self_left, mod-eq_of_lt, mod-add-div, add-mul, mul_assoc}
use native.Mathlib.Omega.{arith}

-- The size of a struct with `k` elements in it that has `n`, each of size `w`: the difference of the two
-- may wrap, and the sum wraps back.
pub size_wrap :
    (m w base n k : ℕ)
    → k ≤ m
    → k * w ≤ base
    → base + n * w - k * w < m
    → (base + ((n + (m - k)) % m) * w) % m ≡ base + n * w - k * w
size_wrap m w base n k in_width in_base small =
    let x = n + (m - k) in
    let whole : (x % m) * w + m * (x / m * w) ≡ x * w =
      ap (λ y. (x % m) * w + y) (sym (mul_assoc m (x / m) w))
      ∙ (sym (add-mul (x % m) (m * (x / m)) w) ∙ ap (λ y. y * w) (mod-add-div x m)) in
    let parts : x * w ≡ n * w + (m - k) * w = add-mul n (m - k) w in
    let behind : (m - k) * w + k * w ≡ m * w =
      sym (add-mul (m - k) k w) ∙ ap (λ y. y * w) (omega (arith, in_width)) in
    let total : base + (x % m) * w + m * (x / m * w) ≡ base + n * w - k * w + m * w =
      omega (arith, whole, parts, behind, in_base) in
    sym (add-mul-mod_self_left (base + (x % m) * w) m (x / m * w))
    ∙ (ap (λ y. y % m) total
        ∙ (add-mul-mod_self_left (base + n * w - k * w) m w ∙ mod-eq_of_lt small))
