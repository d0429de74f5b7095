-- ===== src/Prelude/Arith.antt =====
-- Quotients and remainders by a variable.
use Prim.Native.Nat.{ℕ, ◌+◌, ◌*◌, ◌/◌, ◌%◌, ◌<◌}
use mathlib.Core.Path.{◌≡◌, ◌∙◌, ap}
use native.Mathlib.Nat.{
  mod-eq_of_lt, add-mul-mod_self_right, add-mul-div_right, div-eq_of_lt, div-add-mod', mod-lt,
}
use native.Mathlib.Omega.{arith}

-- A number is read by its quotient and its remainder.
pub mod_of_parts : (q r d n : ℕ) → r < d → n ≡ r + q * d → n % d ≡ r
mod_of_parts q r d n h e = ap (λ k. k % d) e ∙ add-mul-mod_self_right r q d ∙ mod-eq_of_lt h

pub div_of_parts : (q r d n : ℕ) → r < d → n ≡ r + q * d → n / d ≡ q
div_of_parts q r d n h e =
    ap (λ k. k / d) e ∙ add-mul-div_right r q (omega arith) ∙ omega (arith, div-eq_of_lt h)

-- Division with its remainder, as facts for `omega`.
pub div_mod_parts : (n d : ℕ) → n / d * d + n % d ≡ n
div_mod_parts n d = div-add-mod' n d

pub mod_bound : (n d : ℕ) → 0 < d → n % d < d
mod_bound n d h = mod-lt n h
