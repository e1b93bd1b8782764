-- ===== src/Container/Vec/Bounded.antt =====
-- What a vector of fixed capacity promises, on the list of its values.
use iceoryx_in_rust.Prelude.{
  ℕ, ◌-◌, Bool, true, false, Option, none, List, [], ◌∷◌, ◌++◌, leb, ◌==◌, if◌then◌else◌, length,
  get_elem?, set, take,
}

module _ {A : Type 0} where
  unfoldable pub push : ℕ → List A → A → Bool × List A
  push capacity xs a = if length xs == capacity then (false, xs) else (true, xs ++ (a ∷ []))

  unfoldable pub pop : List A → Option A × List A
  pop xs =
      if length xs == 0 then (none, xs) else (get_elem? xs (length xs - 1), take (length xs - 1) xs)

  -- A write through the reference to the value at the index.
  unfoldable pub write_mut : List A → ℕ → A → Bool × List A
  write_mut xs index a = if leb (length xs) index then (false, xs) else (true, set xs index a)
