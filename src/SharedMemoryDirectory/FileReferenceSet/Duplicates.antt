-- ===== src/SharedMemoryDirectory/FileReferenceSet/Duplicates.antt =====
-- The search of `insert` for another entry with the name.
use iceoryx_in_rust.Prelude.{
  ℕ, zero, suc, ◌+◌, ◌≤◌, ◌<◌, ◌≡◌, ◌≢◌, ◌⊎◌, inl, inr, refl, sym, subst, ℕ_discrete, eq→==, ne→==,
  lt→ltb, le→ltb, ap, true, false, none, some, List, [], ◌∷◌, arith, if◌then◌else◌, length, get_or,
  set, get_or-set_self, set-get_or, length-set,
}
use iceoryx_in_rust.Outcome.{done}
use iceoryx_in_rust.Container.ByteString.{ByteString, eq}
use iceoryx_in_rust.SharedMemoryDirectory.ReferenceCounter.{
  exists, details, increment_ref_counter_when_exist,
}
use iceoryx_in_rust.SharedMemoryDirectory.ReferenceCounter.Flags.{
  when_exists, when_not_exists, existing_kept,
}
use iceoryx_in_rust.SharedMemoryDirectory.DecisionCounter.{undecided, does_value_win}
use iceoryx_in_rust.SharedMemoryDirectory.FileReferenceSet.{
  Entry, FileReferenceSet, entry_at, read_entry, decrement_ref_counter, CreateFileError,
  does_exist_already, being_created, inserted, not_inserted, check_duplicate, check_duplicates,
}
use iceoryx_in_rust.SharedMemoryDirectory.FileReferenceSet.Find.{
  IsFileSet, word_at, counted, dropped, on_counter_lem, Bool-cases,
}
use iceoryx_in_rust.SharedMemoryDirectory.FileReferenceSet.Borrow.{on_decision_lem}

-- An entry that does not stand in the way of a new one, and one that does: it exists with all that it
-- needs, and the number of its decision is not larger.
abbrev pub Distinct : FileReferenceSet → ByteString → ℕ → Type 0
Distinct s name i =
    (exists (word_at s i) ≡ false)
    ⊎ ((e : Entry) × (entry_at s.entries i ≡ done e) × (eq e.name name ≡ false))

pub entry_at-set :
    (es : List Entry) (x j : ℕ) (entry : Entry)
    → x ≢ j
    → entry_at (set es x entry) j ≡ entry_at es j
unfolding entry_at
entry_at-set [] x j entry other = refl
entry_at-set (e ∷ es) zero zero entry other = absurd (other refl)
entry_at-set (e ∷ es) zero (suc j) entry other = refl
entry_at-set (e ∷ es) (suc x) zero entry other = refl
entry_at-set (e ∷ es) (suc x) (suc j) entry other =
    entry_at-set es x j entry (λ k. other (ap suc k))

pub entry_at-set_self :
    (es : List Entry) (x : ℕ) (entry : Entry)
    → x < length es
    → entry_at (set es x entry) x ≡ done entry
unfolding entry_at
entry_at-set_self [] x entry inside = absurd (omega arith)
entry_at-set_self (e ∷ es) zero entry inside = refl
entry_at-set_self (e ∷ es) (suc x) entry inside = entry_at-set_self es x entry (omega arith)

module _ (t : FileReferenceSet) (well : IsFileSet t) (name : ByteString) (id count : ℕ) where
  given_back :
      (i : ℕ)
      → i < 512
      → exists (word_at t i) ≡ true
      → decrement_ref_counter (counted t i) i ≡ done t
  unfolding decrement_ref_counter
  given_back i inside there =
      rw (dropped t well name i inside, existing_kept (word_at t i) there) refl

  check_duplicate-Distinct :
      (i : ℕ)
      → i < 512
      → ((i ≢ id) → Distinct t name i)
      → check_duplicate t id i name count ≡ done (none, t)
  unfolding check_duplicate read_entry
  check_duplicate-Distinct i inside distinct =
      let here : i < length t.counter = omega (arith, inside, well.counters) in
      let (word, room) = well.words i inside in
      let first = on_counter_lem increment_ref_counter_when_exist t i here in
      elim (ℕ_discrete i id) [
        | yes own ↦ rw (eq→== i id own) refl
        | no other ↦ elim (Bool-cases (exists (word_at t i))) [
          | inr gone ↦
              rw
                (
                  ne→== i id other,
                  first,
                  when_not_exists (word_at t i) gone,
                  set-get_or t.counter i 0,
                )
                refl
          | inl there ↦ elim (distinct other) [
            | inl gone ↦ absurd (cc)
            | inr (e, f, differs) ↦
                rw
                  (
                    ne→== i id other,
                    first,
                    when_exists (word_at t i) word room there,
                    f,
                    differs,
                    given_back i inside there,
                  )
                  refl
          ]
        ]
      ]

  pub check_duplicates-Distinct :
      (rounds i : ℕ)
      → i + rounds ≡ 512
      → ((j : ℕ) → i ≤ j → j < 512 → j ≢ id → Distinct t name j)
      → check_duplicates rounds i t id name count ≡ done (inserted id, t)
  unfolding check_duplicates
  check_duplicates-Distinct zero i e distinct = refl
  check_duplicates-Distinct (suc rounds) i e distinct =
      rw
        (check_duplicate-Distinct i (omega (arith, e))
          (distinct i (omega arith) (omega (arith, e))))
        (check_duplicates-Distinct rounds (i + 1) (omega (arith, e))
          (λ j above below other. distinct j (omega (arith, above)) below other))

  -- The entry `k` has the name already, and its decision was made before the new one.
  pub record Duplicate (k : ℕ) : Type 0 where
    pub another : k ≢ id
    pub inside : k < 512
    pub there : exists (word_at t k) ≡ true
    pub entry : Entry
    pub at_k : entry_at t.entries k ≡ done entry
    pub same_name : eq entry.name name ≡ true
    pub decided : get_or t.decision_counter k 0 < undecided
    pub earlier : get_or t.decision_counter k 0 ≤ count

  abbrev pub error_of : ℕ → CreateFileError
  error_of k =
      if (details (word_at t k + 1)).is_initialized then does_exist_already else being_created

  check_duplicate-Duplicate :
      (k : ℕ)
      → length t.decision_counter ≡ 512
      → Duplicate k
      → check_duplicate t id k name count ≡ done (some (error_of k), counted t k)
  unfolding check_duplicate read_entry does_value_win
  check_duplicate-Duplicate k decisions d =
      let here : k < length t.counter = omega (arith, d.inside, well.counters) in
      let (word, room) = well.words k d.inside in
      let first = on_counter_lem increment_ref_counter_when_exist t k here in
      let own : ℕ = get_or t.decision_counter k 0 in
      let second =
        on_decision_lem (λ w. does_value_win w count) (counted t k) k
          (omega (arith, d.inside, decisions)) in
      rw
        (
          ne→== k id d.another,
          first,
          when_exists (word_at t k) word room d.there,
          d.at_k,
          d.same_name,
          second,
          ne→== own undecided (λ e. omega (arith, e, d.decided)),
          le→ltb count own d.earlier,
          set-get_or t.decision_counter k 0,
          lt→ltb k (length (set t.counter k (word_at t k + 1)))
              (omega (arith, here, length-set t.counter k (word_at t k + 1))),
          get_or-set_self t.counter k (word_at t k + 1) 0 here,
        )
        refl

  pub check_duplicates-Duplicate :
      (rounds i k : ℕ)
      → i + rounds ≡ 512
      → i ≤ k
      → ((j : ℕ) → i ≤ j → j < k → j ≢ id → Distinct t name j)
      → length t.decision_counter ≡ 512
      → Duplicate k
      → check_duplicates rounds i t id name count ≡ done (not_inserted (error_of k), counted t k)
  unfolding check_duplicates
  check_duplicates-Duplicate zero i k e above distinct decisions d =
      absurd (omega (arith, e, above, d.inside))
  check_duplicates-Duplicate (suc rounds) i k e above distinct decisions d = elim (ℕ_discrete i k) [
    | yes now ↦
        subst
          (λ j.
            check_duplicates (suc rounds) j t id name count
            ≡ done (not_inserted (error_of k), counted t k))
          (sym now) (rw (check_duplicate-Duplicate k decisions d) refl)
    | no later ↦
        rw
          (check_duplicate-Distinct i (omega (arith, e))
            (distinct i (omega arith) (omega (arith, above, later))))
          (check_duplicates-Duplicate rounds (i + 1) k (omega (arith, e))
            (omega (arith, above, later))
            (λ j from below other. distinct j (omega (arith, from)) below other) decisions d)
  ]
