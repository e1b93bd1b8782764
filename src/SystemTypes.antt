-- ===== src/SystemTypes.antt =====
-- elkodon_bb/system_types/src: the rules of the names of files, paths, users and groups, each as those of
-- a semantic string. `any_byte` is the loop of their `invalid_characters`.
pub mod Pointwise
pub mod FileName
pub mod UserName
pub mod Paths
pub mod FilePath
mod Tests
use iceoryx_in_rust.Prelude.{ℕ, Bool, true, false, List, [], ◌∷◌, ◌||◌}

unfoldable pub any_byte : (ℕ → Bool) → List ℕ → Bool
any_byte p [] = false
any_byte p (c ∷ cs) = p c || any_byte p cs
