-- ===== src/Elementary/Math.antt =====
-- elkodon_bb/elementary/src/math.rs: alignment and powers of two.
pub mod Laws
use iceoryx_in_rust.Prelude.{ℕ, zero, suc, ◌+◌, ◌-◌, ◌/◌, ◌%◌, ◌==◌, if◌then◌else◌}

-- An alignment is never zero, and an aligned address fits `usize`.
unfoldable pub align : ℕ → ℕ → ℕ
align value alignment =
    if value % alignment == 0 then value else value + alignment - value % alignment

-- The loop of `log2_of_power_of_2` from round `i` on.
pub log2_from : ℕ → ℕ → ℕ → ℕ
log2_from zero i bits = 0
log2_from (suc rounds) i bits =
    let rest = log2_from rounds (i + 1) (bits / 2) in if bits == 1 then i else rest

pub log2_of_power_of_2 : ℕ → ℕ
unfolding log2_from
log2_of_power_of_2 value = log2_from 64 0 value
