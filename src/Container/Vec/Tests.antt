-- ===== src/Container/Vec/Tests.antt =====
-- The laws of the vector at a vector of capacity 3.
use iceoryx_in_rust.Prelude.{ℕ, ◌≡◌, refl, true, none, some, [], ◌∷◌, ◌++◌, arith, replicate}
use iceoryx_in_rust.Outcome.{done}
use iceoryx_in_rust.Container.Vec.{Vec, push, fill, write_mut}
use iceoryx_in_rust.Container.Vec.Bounded
use iceoryx_in_rust.Container.Vec.Refine.{
  Represents, Refines, vec_push-Refines, fill_total, write_mut-Refines,
}

abbrev two : Vec ℕ
two = record { cells = some 5 ∷ some 6 ∷ none ∷ []; capacity = 3; len = 2; is_initialized = true }

two-Represents : Represents two (5 ∷ 6 ∷ [])
two-Represents = record { room = refl; ready = refl; count = refl; fits = omega arith; held = refl }

vec_push-Refines_example : Refines two (push two 9) (Bounded.push 3 (5 ∷ 6 ∷ []) 9)
vec_push-Refines_example = vec_push-Refines two (5 ∷ 6 ∷ []) 9 two-Represents

fill_total_example :
    (v : Vec ℕ) × (fill two 9 ≡ done v) × Represents v ((5 ∷ 6 ∷ []) ++ replicate 1 9) × (v.len ≡ 3)
fill_total_example = fill_total two (5 ∷ 6 ∷ []) 9 two-Represents

write_mut-Refines_example : Refines two (write_mut two 1 9) (Bounded.write_mut (5 ∷ 6 ∷ []) 1 9)
write_mut-Refines_example = write_mut-Refines two (5 ∷ 6 ∷ []) 1 9 two-Represents
