-- ===== src/SharedMemoryDirectory/DecisionCounter.antt =====
-- elkodon_cal/src/shared_memory_directory/decision_counter.rs: a word of 64 bits that is undecided, or
-- a number, where the smaller of two numbers wins. Each call returns the word that it leaves.
use iceoryx_in_rust.Prelude.{ℕ, ◌-◌, ◌^◌, Bool, true, false, ◌==◌, ltb, if◌then◌else◌}

abbrev pub undecided : ℕ
undecided = 2 ^ 64 - 1

abbrev pub lost : ℕ
lost = 2 ^ 64 - 1

unfoldable pub set : ℕ → ℕ → Bool × ℕ
set word value = if word == undecided then (true, value) else (false, word)

unfoldable pub does_value_win : ℕ → ℕ → Bool × ℕ
does_value_win word competing_value =
    if word == undecided then (true, lost) else (ltb competing_value word, word)
