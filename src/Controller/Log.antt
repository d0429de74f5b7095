-- ===== src/Controller/Log.antt =====
-- `_nvm_b2log` is the logarithm.
use u_gds.Prelude.{
  ℕ, zero, suc, ◌+◌, ◌-◌, ◌*◌, ◌/◌, ◌%◌, ◌^◌, ◌≤◌, ◌<◌, ◌≡◌, refl, ap, sym, ◌∙◌, Bool-cases, inl,
  inr, ltb, u32_mod, arith,
}
use u_gds.Prelude.{false}
use native.Mathlib.Numerals.{towards_suc}
use u_gds.Controller.{bit_count, b2log}

pow_suc : (k : ℕ) → 2 ^ (k + 1) ≡ 2 * 2 ^ k
pow_suc k = simp towards_suc (omega arith)

no_bits : (fuel n : ℕ) → n ≡ 0 → bit_count fuel n ≡ 0
unfolding bit_count
no_bits zero n e = refl
no_bits (suc fuel) n e = let none_left : ltb 0 n ≡ false = ground arith in rw none_left refl

upper :
    (fuel n : ℕ)
    → 0 < n
    → (0 < n / 2 → 2 ^ bit_count fuel (n / 2) ≤ 2 * (n / 2))
    → 2 ^ (bit_count fuel (n / 2) + 1) ≤ 2 * n
upper fuel n p h = elim (Bool-cases (ltb 0 (n / 2))) [
  | inl more ↦ omega (arith, pow_suc (bit_count fuel (n / 2)), h (ground arith))
  | inr last ↦
      let one : bit_count fuel (n / 2) ≡ 0 = no_bits fuel (n / 2) (ground arith) in
      rw one (omega arith)
]

-- the bits counted are enough, and none too many
bit_count_bounds :
    (fuel n : ℕ)
    → n < 2 ^ fuel
    → (n < 2 ^ bit_count fuel n)
      × (0 < n → 2 ^ bit_count fuel n ≤ 2 * n)
      × (bit_count fuel n ≤ fuel)
      × (0 < n → 0 < bit_count fuel n)
unfolding bit_count
bit_count_bounds zero n h =
    (omega arith, λ p. absurd (omega arith), omega arith, λ p. absurd (omega arith))
bit_count_bounds (suc fuel) n h = elim (Bool-cases (ltb 0 n)) [
  | inr none_left ↦
      rw none_left
        (ground arith, λ p. absurd (ground arith), omega arith, λ p. absurd (ground arith))
  | inl more ↦
      let grow : suc fuel ≡ fuel + 1 = omega arith in
      let wide : 2 ^ suc fuel ≡ 2 * 2 ^ fuel = ap (λ k. 2 ^ k) grow ∙ pow_suc fuel in
      let half = bit_count_bounds fuel (n / 2) (omega arith) in
      let step : 2 ^ (bit_count fuel (n / 2) + 1) ≡ 2 * 2 ^ bit_count fuel (n / 2) =
        pow_suc (bit_count fuel (n / 2)) in
      let some_bit : 0 < n = ground arith in
      rw more (
        omega (arith, step, half.0),
        λ p. upper fuel n some_bit half.1,
        omega (arith, half.2),
        λ p. omega arith,
      )
]

-- For a 32-bit word that is not 0, `_nvm_b2log` is its logarithm to the base 2, rounded down.
pub b2log_lem :
    (n : ℕ) → 0 < n → n < u32_mod → (2 ^ b2log n ≤ n) × (n < 2 ^ (b2log n + 1)) × (b2log n < 32)
unfolding b2log
b2log_lem n p h =
    let bounds = bit_count_bounds 32 n h in
    let some_bit : 0 < bit_count 32 n = bounds.3 p in
    let less : bit_count 32 n ≤ 32 = bounds.2 in
    let value : (bit_count 32 n + u32_mod - 1) % u32_mod ≡ bit_count 32 n - 1 = omega arith in
    let back : bit_count 32 n - 1 + 1 ≡ bit_count 32 n = omega arith in
    let step : 2 ^ bit_count 32 n ≡ 2 * 2 ^ (bit_count 32 n - 1) =
      ap (λ k. 2 ^ k) (sym back) ∙ pow_suc (bit_count 32 n - 1) in
    rw value
      (omega (arith, step, bounds.1 p), omega (arith, ap (λ k. 2 ^ k) back, bounds.0), omega arith)
