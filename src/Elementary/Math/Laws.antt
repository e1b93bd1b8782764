-- ===== src/Elementary/Math/Laws.antt =====
-- What `align` and `log2_of_power_of_2` compute.
use native.Mathlib.Nat.{mod-lt, div-add-mod, pow-suc, mul-mod_right}
use iceoryx_in_rust.Prelude.{
  ℕ, zero, suc, ◌+◌, ◌-◌, ◌*◌, ◌/◌, ◌%◌, ◌^◌, ◌≤◌, ◌<◌, ◌≡◌, ◌∙◌, ap, arith, eq→==, ne→==,
  ℕ_discrete,
}
use iceoryx_in_rust.Elementary.Math.{align, log2_from, log2_of_power_of_2}

next_multiple :
    (value alignment : ℕ)
    → 0 < alignment
    → (value + alignment - value % alignment) % alignment
      ≡ alignment * (value / alignment + 1) % alignment
next_multiple value alignment h =
    ap (λ n. n % alignment) (omega (arith, div-add-mod value alignment, mod-lt value h))

-- The next multiple of a nonzero alignment: not below the value, less than one alignment above it.
pub align_lem :
    (value alignment : ℕ)
    → 0 < alignment
    → (value ≤ align value alignment)
      × (align value alignment < value + alignment)
      × (align value alignment % alignment ≡ 0)
unfolding align
align_lem value alignment h = elim (ℕ_discrete (value % alignment) 0) [
  | yes e ↦ rw (eq→== (value % alignment) 0 e) (omega arith, omega arith, e)
  | no ne ↦ rw (ne→== (value % alignment) 0 ne) (
    omega (arith, mod-lt value h),
    omega (arith, mod-lt value h),
    next_multiple value alignment h ∙ mul-mod_right alignment (value / alignment + 1),
  )
]

log2_from_pow : (rounds i k : ℕ) → k < rounds → log2_from rounds i (2 ^ k) ≡ i + k
unfolding log2_from
log2_from_pow zero i k h = absurd (omega arith)
log2_from_pow (suc rounds) i zero h = omega arith
log2_from_pow (suc rounds) i (suc k) h =
    let e : 2 ^ suc k ≡ 2 ^ k * 2 = pow-suc 2 k in
    let half : 2 ^ k * 2 / 2 ≡ 2 ^ k = omega arith in
    rw (e, ne→== (2 ^ k * 2) 1 (omega arith), half)
      (log2_from_pow rounds (i + 1) k (omega arith) ∙ omega arith)

-- On each power of two that `u64` holds, `log2_of_power_of_2` returns the exponent.
pub log2_of_power_of_2-pow : (k : ℕ) → k < 64 → log2_of_power_of_2 (2 ^ k) ≡ k
unfolding log2_of_power_of_2
log2_of_power_of_2-pow k h = log2_from_pow 64 0 k h ∙ omega arith
