-- ===== src/SharedMemoryDirectory/FileReferenceSet/Borrow.antt =====
-- What the calls that look a file up leave behind.
use iceoryx_in_rust.Prelude.{
  ℕ, ◌+◌, ◌%◌, ◌^◌, ◌<◌, ◌≡◌, ◌≢◌, ◌⊎◌, inl, inr, refl, sym, subst, ℕ_discrete, eq→==, ne→==,
  lt→ltb, true, false, none, some, List, arith, ◌==◌, if◌then◌else◌, length, get_or, set,
  get_or-set_self, get_or-set_ne,
}
use iceoryx_in_rust.Outcome.{done}
use iceoryx_in_rust.Container.ByteString.{ByteString}
use iceoryx_in_rust.SharedMemoryDirectory.ReferenceCounter
use iceoryx_in_rust.SharedMemoryDirectory.ReferenceCounter.{
  is_available, details, set_persistency_bit,
}
use iceoryx_in_rust.SharedMemoryDirectory.ReferenceCounter.Word.{available_kept}
use iceoryx_in_rust.SharedMemoryDirectory.ReferenceCounter.Flags.{hidden, nothing_available}
use iceoryx_in_rust.SharedMemoryDirectory.DecisionCounter.{undecided}
use iceoryx_in_rust.SharedMemoryDirectory.FileReferenceSet.{
  FileReferenceSet, decrement_ref_counter, drop_found, does_exist, borrow, release, remove_found,
  to_be_removed, remove_entry, on_decision, silent,
}
use iceoryx_in_rust.SharedMemoryDirectory.FileReferenceSet.Find.{
  IsFileSet, Matches, Passes, word_at, counted, dropped, on_counter-set, find_entry-IsFirst,
}
use iceoryx_in_rust.LockFree.UniqueIndexSet.{UniqueIndexSet}
use iceoryx_in_rust.LockFree.UniqueIndexSet.FreeList.{Represents, released, release-released}

pub on_decision_lem :
    {R : Type 0} (call : ℕ → R × ℕ) (s : FileReferenceSet) (i : ℕ)
    → i < length s.decision_counter
    → on_decision call s i
      ≡ done (
        (call (get_or s.decision_counter i 0)).0,
        record s {
          decision_counter = set s.decision_counter i (call (get_or s.decision_counter i 0)).1;
        },
      )
unfolding on_decision
on_decision_lem call s i inside = rw (lt→ltb i (length s.decision_counter) inside) refl

module _ (s : FileReferenceSet) (well : IsFileSet s) (name : ByteString) where
  given_back :
      (i : ℕ)
      → i < 512
      → is_available (word_at s i) ≡ true
      → decrement_ref_counter (counted s i) i ≡ done s
  unfolding decrement_ref_counter
  given_back i inside used =
      rw (dropped s well name i inside, available_kept (word_at s i) used) refl

  -- On a set in which each count has room for one reference more, `does_exist` tells whether an entry in
  -- use has the name, and leaves the set as it was; and if there is one, `release` of what `borrow`
  -- returns makes the set as it was.
  pub does_exist-unchanged :
      ((i : ℕ) × (i < 512)
        × Matches s name i
        × (does_exist s name ≡ done (true, s))
        × (borrow s name ≡ done (some i, counted s i))
        × (release (counted s i) i ≡ done s))
      ⊎ (((j : ℕ) → j < 512 → Passes s name j)
          × (does_exist s name ≡ done (false, s))
          × (borrow s name ≡ done (none, s)))
  unfolding does_exist drop_found borrow
  does_exist-unchanged = elim (find_entry-IsFirst s well name) [
    | inl (i, inside, matches, before, e) ↦
        let back = given_back i inside matches.0 in
        inl (i, inside, matches, rw (e, back) refl, e, back)
    | inr (all, e) ↦ inr (all, rw e refl, e)
  ]

  -- What is left of the indices when the entry `i` has lost its last reference, or another one.
  abbrev pub ids_after : ℕ → UniqueIndexSet
  ids_after i = if word_at s i % 2 ^ 61 == 0 then released s.ids i else s.ids

  abbrev pub Hidden : ℕ → FileReferenceSet → Type 0
  Hidden i s' =
      (is_available (word_at s' i) ≡ false)
      × ((j : ℕ) → j ≢ i → word_at s' j ≡ word_at s j)
      × (s'.entries ≡ s.entries)
      × (s'.ids ≡ ids_after i)

  others_kept : (i w : ℕ) (j : ℕ) → j ≢ i → get_or (set s.counter i w) j 0 ≡ word_at s j
  others_kept i w j other = get_or-set_ne s.counter i j w 0 (λ e. other (sym e))

  module _ (free : List ℕ) (holds : Represents s.ids free) (full : s.ids.capacity ≡ 512)
      (decisions : length s.decision_counter ≡ 512) where
    remove_found-Hidden :
        (i : ℕ)
        → i < 512
        → (s' : FileReferenceSet) × (remove_found (some i, counted s i) ≡ done (true, s'))
          × Hidden i s'
    unfolding remove_found decrement_ref_counter remove_entry
    remove_found-Hidden i inside =
        let here : i < length s.counter = omega (arith, inside, well.counters) in
        let (word, room) = well.words i inside in
        let (w, e, gone) = hidden (word_at s i) word room in
        let one = on_counter-set (silent (set_persistency_bit false)) s i (word_at s i + 1) here in
        let two =
          on_counter-set (silent ReferenceCounter.to_be_removed) s i
            (set_persistency_bit false (word_at s i + 1)) here in
        let three =
          on_counter-set ReferenceCounter.decrement_ref_counter s i
            (ReferenceCounter.to_be_removed (set_persistency_bit false (word_at s i + 1))) here in
        elim (ℕ_discrete (word_at s i % 2 ^ 61) 0) [
          | yes last ↦
              let four = on_counter-set (silent (λ _. 0)) s i w here in
              let five =
                on_decision_lem (silent (λ _. undecided)) (record s { counter = set s.counter i 0 })
                  i (omega (arith, inside, decisions)) in
              (
                record s {
                  counter = set s.counter i 0;
                  decision_counter = set s.decision_counter i undecided;
                  ids = released s.ids i;
                },
                rw
                    (
                      one,
                      two,
                      three,
                      e,
                      eq→== (word_at s i % 2 ^ 61) 0 last,
                      four,
                      five,
                      release-released s.ids 0 i free holds
                          (omega (arith, inside, full, holds.room)),
                    )
                    refl,
                (
                  subst (λ n. is_available n ≡ false) (sym (get_or-set_self s.counter i 0 0 here))
                      nothing_available,
                  others_kept i 0,
                  refl,
                  rw (eq→== (word_at s i % 2 ^ 61) 0 last) refl,
                ),
              )
          | no another ↦ (
            record s { counter = set s.counter i w },
            rw (one, two, three, e, ne→== (word_at s i % 2 ^ 61) 0 another) refl,
            (
              subst (λ n. is_available n ≡ false) (sym (get_or-set_self s.counter i w 0 here)) gone,
              others_kept i w,
              refl,
              rw (ne→== (word_at s i % 2 ^ 61) 0 another) refl,
            ),
          )
        ]

    -- On a set whose arrays have 512 entries, in which each count has room for one reference more and
    -- whose ids are a valid index set of this capacity: if an entry in use has the name, `to_be_removed` makes the first such entry unavailable (each
    -- entry before it is not in use or has another name), keeps the counter of every other entry and all
    -- names, and gives the index back to the ids exactly if there was no reference to the entry; otherwise
    -- it returns `false` and changes nothing.
    pub to_be_removed-Hides :
        ((i : ℕ) × (i < 512)
          × Matches s name i
          × ((j : ℕ) → j < i → Passes s name j)
          × (s' : FileReferenceSet) × (to_be_removed s name ≡ done (true, s'))
          × Hidden i s')
        ⊎ (((j : ℕ) → j < 512 → Passes s name j) × (to_be_removed s name ≡ done (false, s)))
    unfolding to_be_removed remove_found
    to_be_removed-Hides = elim (find_entry-IsFirst s well name) [
      | inl (i, inside, matches, before, e) ↦
          let (s', f, hides) = remove_found-Hidden i inside in
          inl (i, inside, matches, before, s', rw e f, hides)
      | inr (all, e) ↦ inr (all, rw e refl)
    ]
