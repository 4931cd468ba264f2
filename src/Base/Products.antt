-- ===== src/Base/Products.antt =====
-- Products of numbers that are not numerals.
use Prim.Native.Nat.{ℕ, zero, suc, ◌+◌, ◌*◌, ◌≤◌, ◌<◌}
use mathlib.Core.Path.{◌≡◌, refl}
use mathlib.Core.Bool.{false}
use native.Mathlib.Omega.{arith}
use cue_pool.Base.Tests.{◌==◌}

pub zero_times : (c : ℕ) → 0 ≡ 0 * c
zero_times c = grind arith

pub add_mul : (a b c : ℕ) → (a + b) * c ≡ a * c + b * c
add_mul a b c = grind arith

pub no_product : (k c : ℕ) → k * c ≡ 0 → 0 < c → k ≡ 0
no_product zero c h g = refl
no_product (suc k) c h g = absurd (grind arith)

pub a_product : (k c : ℕ) → (k * c == 0) ≡ false → 0 < k
a_product zero c h = absurd (grind (arith, zero_times c))
a_product (suc k) c h = omega arith

pub some_product : (k c : ℕ) → 0 < k → 0 < c → 0 < k * c
some_product k c h g = grind arith

pub mul_mono : (f g c : ℕ) → f ≤ g → f * c ≤ g * c
mul_mono f g c h = grind arith
