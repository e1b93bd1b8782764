-- ===== src/Container/Queue/Fifo.antt =====
-- What a bounded first-in first-out queue promises: the values that it holds, oldest first.
use iceoryx_in_rust.Prelude.{
  ℕ, Bool, true, false, Option, none, some, List, [], ◌∷◌, ◌++◌, ◌==◌, if◌then◌else◌, length,
  get_elem?,
}
use iceoryx_in_rust.Outcome.{Outcome, done, panic}

module _ {A : Type 0} where
  unfoldable pub pop : List A → Option A × List A
  pop [] = (none, [])
  pop (x ∷ xs) = (some x, xs)

  unfoldable pub push : ℕ → List A → A → Bool × List A
  push cap xs v = if length xs == cap then (false, xs) else (true, xs ++ (v ∷ []))

  -- The oldest value makes room.
  unfoldable pub push_with_overflow : ℕ → List A → A → Option A × List A
  unfolding pop
  push_with_overflow cap xs v =
      if length xs == cap then ((pop xs).0, (pop xs).1 ++ (v ∷ [])) else (none, xs ++ (v ∷ []))

  -- Counted from the oldest value; there is none at an index out of range.
  unfoldable pub get : List A → ℕ → Outcome A
  get xs index = elim (get_elem? xs index) [ none ↦ panic | some a ↦ done a ]
