-- ===== src/Ring.antt =====
-- The cells of a ring buffer: the positions count up without end, and position `p` lies in the cell
-- `p % cap`. All queues of the repository are laid out like this.
use native.Mathlib.Nat.{mod-add-mod, mod-eq_of_lt, mod-eq-sub-mod, mod-lt}
use iceoryx_in_rust.Prelude.{
  ℕ, zero, suc, ◌+◌, ◌-◌, ◌%◌, ◌≤◌, ◌<◌, ◌≡◌, ◌≢◌, sym, ◌∙◌, ap, List, [], ◌∷◌, ◌++◌, arith, length,
  get_or, set, get_or-set_self, get_or-set_ne, dec_lt,
}

-- Fewer than `cap` positions further on lies another cell.
pub mod-ne : (a b cap : ℕ) → a < b → b < a + cap → b % cap ≢ a % cap
mod-ne a b cap h k e = absurd (omega (arith, residue, other))
  where
    d : ℕ
    d = b - a

    r : ℕ
    r = a % cap

    residue : r < cap
    residue = mod-lt a (omega arith)

    split : b % cap ≡ (r + d) % cap
    split = ap (λ k. k % cap) (omega arith) ∙ sym (mod-add-mod a cap d)

    other : b % cap ≢ r
    other = elim (dec_lt (r + d) cap) [
      | yes below ↦ omega (arith, split, mod-eq_of_lt below)
      | no above ↦ omega (
        arith,
        split,
        mod-eq-sub-mod {n = r + d} {m = cap} (omega arith),
        mod-eq_of_lt {n = r + d - cap} {m = cap} (omega (arith, residue)),
      )
    ]

module _ {ℓ} {A : Type ℓ} (d : A) where
  -- From position `pos` on the cells hold `xs`.
  abbrev pub Holds : List A → ℕ → ℕ → List A → Type ℓ
  Holds cells cap pos [] = Unit
  Holds cells cap pos (x ∷ xs) = (get_or cells (pos % cap) d ≡ x) × Holds cells cap (pos + 1) xs

  -- A write to a cell that no position of `xs` lies in.
  pub Holds-set_ne :
      (cells : List A) (cap pos at : ℕ) (v : A) (xs : List A)
      → ((i : ℕ) → pos ≤ i → i < pos + length xs → at % cap ≢ i % cap)
      → Holds cells cap pos xs
      → Holds (set cells (at % cap) v) cap pos xs
  Holds-set_ne cells cap pos at v [] other h = tt
  Holds-set_ne cells cap pos at v (x ∷ xs) other h = (
    get_or-set_ne cells (at % cap) (pos % cap) v d (other pos (omega arith) (omega arith)) ∙ h.0,
    Holds-set_ne cells cap (pos + 1) at v xs (λ i p q. other i (omega arith) (omega arith)) h.1,
  )

  pub Holds-append :
      (cells : List A) (cap pos : ℕ) (xs ys : List A)
      → Holds cells cap pos xs
      → Holds cells cap (pos + length xs) ys
      → Holds cells cap pos (xs ++ ys)
  Holds-append cells cap pos [] ys h k = let e : pos + 0 ≡ pos = omega arith in rw e at k
  Holds-append cells cap pos (x ∷ xs) ys h k =
      let e : pos + suc (length xs) ≡ pos + 1 + length xs = omega arith in
      (h.0, Holds-append cells cap (pos + 1) xs ys h.1 (rw e at k))

  -- A write behind `xs`, with fewer than `cap` positions taken, keeps them and adds its value.
  pub Holds-push :
      (cells : List A) (cap pos : ℕ) (xs : List A) (v : A)
      → length cells ≡ cap
      → length xs < cap
      → Holds cells cap pos xs
      → Holds (set cells ((pos + length xs) % cap) v) cap pos (xs ++ (v ∷ []))
  Holds-push cells cap pos xs v room less h =
      Holds-append _ cap pos xs (v ∷ [])
        (Holds-set_ne cells cap pos (pos + length xs) v xs
          (λ i p q. mod-ne i (pos + length xs) cap (omega arith) (omega arith)) h)
        (get_or-set_self cells ((pos + length xs) % cap) v d inside, tt)
    where
      inside : (pos + length xs) % cap < length cells
      inside = rw room (mod-lt (pos + length xs) (omega arith))

  -- The cell of the first position may be overwritten once that position is given up.
  pub Holds-clear :
      (cells : List A) (cap pos : ℕ) (xs : List A) (v : A)
      → length xs < cap
      → Holds cells cap (pos + 1) xs
      → Holds (set cells (pos % cap) v) cap (pos + 1) xs
  Holds-clear cells cap pos xs v less h =
      Holds-set_ne cells cap (pos + 1) pos v xs
        (λ i p q e. mod-ne pos i cap (omega arith) (omega arith) (sym e)) h

  -- Which value lies at the `k`-th position.
  pub Holds-get :
      (cells : List A) (cap pos k p : ℕ) (xs : List A)
      → k < length xs
      → p ≡ pos + k
      → Holds cells cap pos xs
      → get_or cells (p % cap) d ≡ get_or xs k d
  Holds-get cells cap pos k p [] h e held = absurd (omega arith)
  Holds-get cells cap pos zero p (x ∷ xs) h e held = let f : p ≡ pos = omega arith in rw f held.0
  Holds-get cells cap pos (suc k) p (x ∷ xs) h e held =
      Holds-get cells cap (pos + 1) k p xs (omega arith) (omega arith) held.1
