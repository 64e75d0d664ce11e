-- ===== src/Prelude/Division.antt =====
-- Division of BigInt: towards zero.
use native.Mathlib.Nat.{div-add-mod}
use agrocylo_pip.Prelude.{ℕ, suc, ◌+◌, ◌*◌, ◌/◌, ◌≤◌, ◌<◌, arith}
use agrocylo_pip.Prelude.Int.{ℤ, pos, negsuc, negated}

-- `a / b` for `b` other than 0n, at which the source would throw and never divides.
infixl 70 ◌/ℤ◌
unfoldable pub ◌/ℤ◌ : ℤ → ℤ → ℤ
pos a /ℤ pos b = pos (a / b)
pos a /ℤ negsuc b = negated (a / suc b)
negsuc a /ℤ pos b = negated (suc a / b)
negsuc a /ℤ negsuc b = pos (suc a / suc b)

-- A quotient times its divisor misses the dividend by less than the divisor.
pub div-mul_bounds : (a t : ℕ) → 0 < t → (a / t * t ≤ a) × (a < a / t * t + t)
div-mul_bounds a t h = grind (arith, div-add-mod a t)
