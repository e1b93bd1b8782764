-- ===== src/LockFree/Container/Entries.antt =====
-- The values of a container as one list with a place for each index, and how it changes.
use iceoryx_in_rust.Prelude.{
  ℕ, zero, suc, ◌+◌, ◌<◌, ◌≡◌, ◌≢◌, replicate, refl, sym, subst, ◌∙◌, ap, Bool, true, false, Option,
  none, some, List, [], ◌∷◌, arith, length, get_or, set, get_or-set_ne, get_or-set_self, ℕ_discrete,
}
use iceoryx_in_rust.Outcome.{done, assume_init}
use iceoryx_in_rust.LockFree.Container.{copy_entry, copy_entries, for_each_from}
use iceoryx_in_rust.LockFree.UniqueIndexSet.FreeList.{NotIn}

module _ {A : Type 0} where
  -- The value of each active place.
  abbrev pub entries : List Bool → List (Option A) → List (Option A)
  entries (true ∷ bs) (d ∷ ds) = d ∷ entries bs ds
  entries (false ∷ bs) (d ∷ ds) = none ∷ entries bs ds
  entries _ _ = []

  -- The arrays are equally long, and each active place holds a value.
  abbrev pub Filled : List Bool → List (Option A) → Type 0
  Filled [] [] = Unit
  Filled (true ∷ bs) (some v ∷ ds) = Filled bs ds
  Filled (false ∷ bs) (d ∷ ds) = Filled bs ds
  Filled _ _ = ⊥

  -- The values with their places, from place `i` on.
  abbrev pub listed : ℕ → List (Option A) → List (ℕ × A)
  listed i [] = []
  listed i (some v ∷ cells) = (i, v) ∷ listed (i + 1) cells
  listed i (none ∷ cells) = listed (i + 1) cells

  pub length-entries :
      (bs : List Bool) (ds : List (Option A))
      → Filled bs ds
      → (length (entries bs ds) ≡ length bs) × (length ds ≡ length bs)
  length-entries [] [] h = (refl, refl)
  length-entries (true ∷ bs) (some v ∷ ds) h =
      let (e, f) = length-entries bs ds h in (omega (arith, e), omega (arith, f))
  length-entries (false ∷ bs) (d ∷ ds) h =
      let (e, f) = length-entries bs ds h in (omega (arith, e), omega (arith, f))
  length-entries [] (d ∷ ds) h = absurd h
  length-entries (true ∷ bs) (none ∷ ds) h = absurd h
  length-entries (true ∷ bs) [] h = absurd h
  length-entries (false ∷ bs) [] h = absurd h

  pub activate :
      (bs : List Bool) (ds : List (Option A)) (i : ℕ) (v : A)
      → Filled bs ds
      → Filled (set bs i true) (set ds i (some v))
        × (entries (set bs i true) (set ds i (some v)) ≡ set (entries bs ds) i (some v))
  activate [] [] i v h = (tt, refl)
  activate (true ∷ bs) (some d ∷ ds) zero v h = (h, refl)
  activate (true ∷ bs) (some d ∷ ds) (suc i) v h =
      let (f, e) = activate bs ds i v h in (f, ap (λ xs. some d ∷ xs) e)
  activate (false ∷ bs) (d ∷ ds) zero v h = (h, refl)
  activate (false ∷ bs) (d ∷ ds) (suc i) v h =
      let (f, e) = activate bs ds i v h in (f, ap (λ xs. none ∷ xs) e)
  activate [] (d ∷ ds) i v h = absurd h
  activate (true ∷ bs) (none ∷ ds) i v h = absurd h
  activate (true ∷ bs) [] i v h = absurd h
  activate (false ∷ bs) [] i v h = absurd h

  pub deactivate :
      (bs : List Bool) (ds : List (Option A)) (i : ℕ)
      → Filled bs ds
      → Filled (set bs i false) ds × (entries (set bs i false) ds ≡ set (entries bs ds) i none)
  deactivate [] [] i h = (tt, refl)
  deactivate (true ∷ bs) (some d ∷ ds) zero h = (h, refl)
  deactivate (true ∷ bs) (some d ∷ ds) (suc i) h =
      let (f, e) = deactivate bs ds i h in (f, ap (λ xs. some d ∷ xs) e)
  deactivate (false ∷ bs) (d ∷ ds) zero h = (h, refl)
  deactivate (false ∷ bs) (d ∷ ds) (suc i) h =
      let (f, e) = deactivate bs ds i h in (f, ap (λ xs. none ∷ xs) e)
  deactivate [] (d ∷ ds) i h = absurd h
  deactivate (true ∷ bs) (none ∷ ds) i h = absurd h
  deactivate (true ∷ bs) [] i h = absurd h
  deactivate (false ∷ bs) [] i h = absurd h

  -- A copy of all entries shows the values with their places.
  pub copied :
      (i : ℕ) (bs : List Bool) (ds : List (Option A)) (olds : List (Option (ℕ × A)))
      → Filled bs ds
      → length olds ≡ length bs
      → (es : List (Option (ℕ × A))) × (copy_entries i bs ds olds ≡ done es)
        × (for_each_from bs es ≡ done (listed i (entries bs ds)))
        × (length es ≡ length bs)
  unfolding copy_entries copy_entry for_each_from assume_init
  copied i [] [] olds h k = ([], refl, refl, refl)
  copied i (true ∷ bs) (some v ∷ ds) (old ∷ olds) h k =
      let (es, e, f, l) = copied (i + 1) bs ds olds h (omega (arith, k)) in
      (some (i, v) ∷ es, rw e refl, rw f refl, omega (arith, l))
  copied i (false ∷ bs) (d ∷ ds) (old ∷ olds) h k =
      let (es, e, f, l) = copied (i + 1) bs ds olds h (omega (arith, k)) in
      (old ∷ es, rw e refl, f, omega (arith, l))
  copied i [] (d ∷ ds) olds h k = absurd h
  copied i (true ∷ bs) (none ∷ ds) olds h k = absurd h
  copied i (true ∷ bs) [] olds h k = absurd h
  copied i (false ∷ bs) [] olds h k = absurd h
  copied i (true ∷ bs) (some v ∷ ds) [] h k = absurd (omega (arith, k))
  copied i (false ∷ bs) (d ∷ ds) [] h k = absurd (omega (arith, k))

  -- The free indices have no value.
  abbrev pub Vacant : List (Option A) → List ℕ → Type 0
  Vacant cells [] = Unit
  Vacant cells (x ∷ xs) = (get_or cells x none ≡ none) × Vacant cells xs

  pub Vacant-set :
      (cells : List (Option A)) (free : List ℕ) (i : ℕ) (v : A)
      → NotIn i free
      → Vacant cells free
      → Vacant (set cells i (some v)) free
  Vacant-set cells [] i v out h = tt
  Vacant-set cells (x ∷ xs) i v out h =
      (rw (get_or-set_ne cells i x (some v) none out.0) h.0, Vacant-set cells xs i v out.1 h.1)

  pub Vacant-clear :
      (cells : List (Option A)) (free : List ℕ) (i : ℕ)
      → i < length cells
      → Vacant cells free
      → Vacant (set cells i none) free
  Vacant-clear cells [] i inside h = tt
  Vacant-clear cells (x ∷ xs) i inside h = (
    elim (ℕ_discrete i x) [
      | yes same ↦
          subst (λ j. get_or (set cells i none) j none ≡ none) same
            (get_or-set_self cells i none none inside)
      | no other ↦ rw (get_or-set_ne cells i x none none other) h.0
    ],
    Vacant-clear cells xs i inside h.1,
  )

  -- An index with a value is in range, and not free.
  pub occupied-inside :
      (cells : List (Option A)) (i : ℕ) (v : A) → get_or cells i none ≡ some v → i < length cells
  occupied-inside [] i v h = absurd (cc)
  occupied-inside (x ∷ xs) zero v h = omega arith
  occupied-inside (x ∷ xs) (suc i) v h = omega (arith, occupied-inside xs i v h)

  pub occupied-NotIn :
      (cells : List (Option A)) (free : List ℕ) (i : ℕ) (v : A)
      → get_or cells i none ≡ some v
      → Vacant cells free
      → NotIn i free
  occupied-NotIn cells [] i v h k = tt
  occupied-NotIn cells (x ∷ xs) i v h k = (
    λ same. absurd (some≢none (sym h ∙ ap (λ j. get_or cells j none) same ∙ k.0)),
    occupied-NotIn cells xs i v h k.1,
  )
    where
      some≢none : some v ≢ none
      some≢none e = cc

  pub entries-replicate :
      (n : ℕ) → entries (replicate n false) (replicate {A = Option A} n none) ≡ replicate n none
  entries-replicate zero = refl
  entries-replicate (suc n) = ap (λ xs. none ∷ xs) (entries-replicate n)

  pub for_each_from-replicate :
      (i n : ℕ)
      → for_each_from (replicate n false) (replicate {A = Option (ℕ × A)} n none)
        ≡ done (listed i (replicate {A = Option A} n none))
  unfolding for_each_from
  for_each_from-replicate i zero = refl
  for_each_from-replicate i (suc n) = for_each_from-replicate (i + 1) n

module _ (A : Type 0) where
  pub Filled-replicate : (n : ℕ) → Filled (replicate n false) (replicate {A = Option A} n none)
  Filled-replicate zero = tt
  Filled-replicate (suc n) = Filled-replicate n

  pub Vacant-replicate : (n : ℕ) (free : List ℕ) → Vacant (replicate {A = Option A} n none) free
  Vacant-replicate n [] = tt
  Vacant-replicate n (x ∷ xs) = (empty n x, Vacant-replicate n xs)
    where
      empty : (n i : ℕ) → get_or (replicate {A = Option A} n none) i none ≡ none
      empty zero i = refl
      empty (suc n) zero = refl
      empty (suc n) (suc i) = empty n i
