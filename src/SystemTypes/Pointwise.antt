-- ===== src/SystemTypes/Pointwise.antt =====
-- A rule on each byte is kept by the parts of a text and by two texts put together.
use iceoryx_in_rust.Prelude.{
  ℕ, zero, suc, ◌≡◌, refl, Bool, true, false, List, [], ◌∷◌, ◌++◌, ◌||◌, take, drop,
}
use iceoryx_in_rust.Container.SemanticString.Rules.{IsPointwise}
use iceoryx_in_rust.SystemTypes.{any_byte}

or_left : (a b : Bool) → (a || b) ≡ false → a ≡ false
or_left false b e = refl
or_left true b e = e

or_right : (a b : Bool) → (a || b) ≡ false → b ≡ false
or_right false b e = e
or_right true b e = absurd (cc)

or_both : (a b : Bool) → a ≡ false → b ≡ false → (a || b) ≡ false
or_both false b e f = f
or_both true b e f = absurd (cc)

module _ (p : ℕ → Bool) where
  any_byte-append :
      (xs ys : List ℕ)
      → any_byte p xs ≡ false
      → any_byte p ys ≡ false
      → any_byte p (xs ++ ys) ≡ false
  unfolding any_byte
  any_byte-append [] ys e f = f
  any_byte-append (c ∷ cs) ys e f =
      or_both (p c) (any_byte p (cs ++ ys)) (or_left (p c) (any_byte p cs) e)
        (any_byte-append cs ys (or_right (p c) (any_byte p cs) e) f)

  any_byte-take : (n : ℕ) (xs : List ℕ) → any_byte p xs ≡ false → any_byte p (take n xs) ≡ false
  unfolding any_byte
  any_byte-take zero xs e = refl
  any_byte-take (suc n) [] e = refl
  any_byte-take (suc n) (c ∷ cs) e =
      or_both (p c) (any_byte p (take n cs)) (or_left (p c) (any_byte p cs) e)
        (any_byte-take n cs (or_right (p c) (any_byte p cs) e))

  any_byte-drop : (n : ℕ) (xs : List ℕ) → any_byte p xs ≡ false → any_byte p (drop n xs) ≡ false
  unfolding any_byte
  any_byte-drop zero xs e = e
  any_byte-drop (suc n) [] e = refl
  any_byte-drop (suc n) (c ∷ cs) e = any_byte-drop n cs (or_right (p c) (any_byte p cs) e)

  pub any_byte-IsPointwise :
      (invalid : List ℕ → Bool)
      → IsPointwise
          (record { is_invalid_content = invalid; does_contain_invalid_characters = any_byte p })
  any_byte-IsPointwise invalid = record {
    together = any_byte-append;
    front = any_byte-take;
    rear = any_byte-drop;
  }
