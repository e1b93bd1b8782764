-- ===== src/SharedMemoryDirectory/FileReferenceSet/Insert.antt =====
-- What `insert` does when no other entry has the name, and when one has it.
use iceoryx_in_rust.Prelude.{
  ℕ, ◌+◌, ◌%◌, ◌^◌, ◌<◌, ◌≡◌, ◌≢◌, inl, inr, refl, sym, subst, ℕ_discrete, eq→==, lt→ltb, ◌∙◌, ap,
  Bool, true, false, List, ◌∷◌, arith, length, get_or, set, get_or-set_self, get_or-set_ne,
  length-set,
}
use iceoryx_in_rust.Prelude.Word.{add_usize}
use iceoryx_in_rust.Outcome.{done}
use iceoryx_in_rust.Container.ByteString.{ByteString, eq}
use iceoryx_in_rust.Container.ByteString.Search.{eq_iff}
use iceoryx_in_rust.LockFree.UniqueIndexSet.FreeList.{
  Represents, acquired, acquire-acquired, acquired-Represents,
}
use iceoryx_in_rust.SharedMemoryDirectory.ReferenceCounter.{
  is_available, exists, set_persistency_bit, set_initialized_bit, increment_ref_counter,
}
use iceoryx_in_rust.SharedMemoryDirectory.ReferenceCounter.Flags.{
  first_word, first_word_lem, first_available,
}
use iceoryx_in_rust.SharedMemoryDirectory.DecisionCounter
use iceoryx_in_rust.SharedMemoryDirectory.DecisionCounter.{undecided, does_value_win}
use iceoryx_in_rust.SharedMemoryDirectory.FileReferenceSet.{
  Entry, FileReferenceSet, entry_at, write_entry, silent, CreateFileError, inserted, not_inserted,
  check_duplicates, insert_at, insert, finalize_initialization,
}
use iceoryx_in_rust.SharedMemoryDirectory.FileReferenceSet.Find.{
  IsFileSet, word_at, counted, on_counter_lem, on_counter-set,
}
use iceoryx_in_rust.SharedMemoryDirectory.FileReferenceSet.Borrow.{on_decision_lem}
use iceoryx_in_rust.SharedMemoryDirectory.FileReferenceSet.Duplicates.{
  Distinct, Duplicate, error_of, entry_at-set, entry_at-set_self, check_duplicates-Distinct,
  check_duplicates-Duplicate,
}

-- The set when the new entry has its index `x` and the search for duplicates begins.
abbrev pub placed : FileReferenceSet → ℕ → Entry → Bool → FileReferenceSet
placed s x entry persistent = record {
  entries = set s.entries x entry;
  counter = set s.counter x (first_word persistent);
  decision_counter = set s.decision_counter x s.global_decision_counter;
  ids = acquired s.ids x;
  global_decision_counter = add_usize s.global_decision_counter 1;
}

module _ (s : FileReferenceSet) (well : IsFileSet s) (x : ℕ) (xs : List ℕ) (entry : Entry)
    (persistent : Bool) (holds : Represents s.ids (x ∷ xs)) (full : s.ids.capacity ≡ 512)
    (decisions : length s.decision_counter ≡ 512) (unused : word_at s x ≡ 0)
    (open_decision : get_or s.decision_counter x 0 ≡ undecided) where
  index_inside : x < 512
  index_inside = omega (arith, holds.chain.1, full)

  insert-placed :
      insert s entry persistent
      ≡ check_duplicates 512 0 (placed s x entry persistent) x entry.name s.global_decision_counter
  unfolding insert insert_at write_entry DecisionCounter.set
  insert-placed =
      let here : x < length s.counter = omega (arith, index_inside, well.counters) in
      let mid : FileReferenceSet = record s {
        ids = acquired s.ids x;
        entries = set s.entries x entry;
      } in
      rw
        (
          acquire-acquired s.ids 0 x xs holds,
          lt→ltb x (length s.entries) (omega (arith, index_inside, well.names)),
          on_counter_lem (silent (set_persistency_bit persistent)) mid x here,
          on_counter-set increment_ref_counter mid x (set_persistency_bit persistent (word_at s x))
              here,
          unused,
          first_word_lem persistent,
          on_decision_lem (λ w. DecisionCounter.set w s.global_decision_counter)
              (record mid {
                counter = set s.counter x (first_word persistent);
                global_decision_counter = add_usize s.global_decision_counter 1;
              })
              x (omega (arith, index_inside, decisions)),
          eq→== (get_or s.decision_counter x 0) undecided open_decision,
        )
        refl

  module _ (j : ℕ) (other : j ≢ x) where
    word-placed : word_at (placed s x entry persistent) j ≡ word_at s j
    word-placed = get_or-set_ne s.counter x j (first_word persistent) 0 (λ e. other (sym e))

    Distinct-placed :
        (name : ByteString) → Distinct s name j → Distinct (placed s x entry persistent) name j
    Distinct-placed name (inl gone) = inl (ap exists word-placed ∙ gone)
    Distinct-placed name (inr (e, f, differs)) =
        inr (e, entry_at-set s.entries x j entry (λ k. other (sym k)) ∙ f, differs)

  placed-IsFileSet : IsFileSet (placed s x entry persistent)
  placed-IsFileSet = record {
    counters = length-set s.counter x (first_word persistent) ∙ well.counters;
    names = length-set s.entries x entry ∙ well.names;
    words = λ i inside. elim (ℕ_discrete i x) [
      | yes own ↦
          subst (λ w. (w < 2 ^ 64) × (w % 2 ^ 61 + 1 < 2 ^ 61)) (sym (own_word i own))
            (small persistent)
      | no other ↦
          subst (λ w. (w < 2 ^ 64) × (w % 2 ^ 61 + 1 < 2 ^ 61)) (sym (word-placed i other))
            (well.words i inside)
    ];
  }
    where
      own_word : (i : ℕ) → i ≡ x → word_at (placed s x entry persistent) i ≡ first_word persistent
      own_word i own =
          ap (λ k. word_at (placed s x entry persistent) k) own
          ∙ get_or-set_self s.counter x (first_word persistent) 0
              (omega (arith, index_inside, well.counters))

      small : (p : Bool) → (first_word p < 2 ^ 64) × (first_word p % 2 ^ 61 + 1 < 2 ^ 61)
      small true = (omega arith, omega arith)
      small false = (omega arith, omega arith)

  -- Let the arrays of the set have 512 entries, each count room for one reference more, and its ids be
  -- a valid index set of this capacity with `x` the first free index; and let the word of `x` be zero and its decision open. If every entry other
  -- than `x` that exists has another name, `insert` yields `x`; after `finalize_initialization` the entry
  -- at `x` is in use and is the new one, the counters of all other entries are as they were, and the
  -- other free indices are still free.
  pub insert-Adds :
      ((j : ℕ) → j < 512 → j ≢ x → Distinct s entry.name j)
      → (s' s'' : FileReferenceSet) × (insert s entry persistent ≡ done (inserted x, s'))
        × (finalize_initialization s' x ≡ done s'')
        × (is_available (word_at s'' x) ≡ true)
        × (entry_at s''.entries x ≡ done entry)
        × (eq entry.name entry.name ≡ true)
        × ((j : ℕ) → j ≢ x → word_at s'' j ≡ word_at s j)
        × Represents s''.ids xs
  unfolding finalize_initialization
  insert-Adds distinct =
      let here : x < length s.counter = omega (arith, index_inside, well.counters) in
      let w : ℕ = set_initialized_bit true (first_word persistent) in
      let base : FileReferenceSet = record (placed s x entry persistent) { counter = s.counter } in
      (
        placed s x entry persistent,
        record base { counter = set s.counter x w },
        insert-placed
            ∙ check_duplicates-Distinct (placed s x entry persistent) placed-IsFileSet entry.name x
                s.global_decision_counter 512 0 refl
                (λ j _ inside other. Distinct-placed j other entry.name (distinct j inside other)),
        rw (on_counter-set (silent (set_initialized_bit true)) base x (first_word persistent) here)
            refl,
        subst (λ n. is_available n ≡ true) (sym (get_or-set_self s.counter x w 0 here))
            (first_available persistent),
        entry_at-set_self s.entries x entry (omega (arith, index_inside, well.names)),
        (eq_iff entry.name entry.name).1 refl,
        (λ j other. get_or-set_ne s.counter x j w 0 (λ e. other (sym e))),
        acquired-Represents s.ids x xs holds,
      )

  -- Let the arrays of the set have 512 entries, each count room for one reference more, and its ids be
  -- a valid index set of this capacity with `x` the first free index; and let the word of `x` be zero and its decision open. Let another entry
  -- `k` exist and have the name of the new entry, with a decision that is made, by a number that is not
  -- larger than the global decision counter; and let each entry before `k` other than `x` not exist or
  -- have another name. Then `insert` fails, but the index `x` is not given back to the ids, its counter
  -- has the reference and the persistency bit of the new entry, and the counter of `k` has one reference
  -- more than before.
  pub insert_failure_leaks :
      (k : ℕ)
      → Duplicate s well entry.name x s.global_decision_counter k
      → ((j : ℕ) → j < k → j ≢ x → Distinct s entry.name j)
      → (s' : FileReferenceSet) × (error : CreateFileError) × (insert s entry persistent
          ≡ done (not_inserted error, s'))
        × Represents s'.ids xs
        × (word_at s' x ≡ first_word persistent)
        × (word_at s' k ≡ word_at s k + 1)
  insert_failure_leaks k d distinct =
      let p : FileReferenceSet = placed s x entry persistent in
      let well' : IsFileSet p = placed-IsFileSet in
      let there : word_at p k ≡ word_at s k = word-placed k d.another in
      let decision : get_or p.decision_counter k 0 ≡ get_or s.decision_counter k 0 =
        get_or-set_ne s.decision_counter x k s.global_decision_counter 0 (λ e. d.another (sym e)) in
      let d' : Duplicate p well' entry.name x s.global_decision_counter k = record {
        another = d.another;
        inside = d.inside;
        there = ap exists there ∙ d.there;
        entry = d.entry;
        at_k = entry_at-set s.entries x k entry (λ e. d.another (sym e)) ∙ d.at_k;
        same_name = d.same_name;
        decided = omega (arith, decision, d.decided);
        earlier = omega (arith, decision, d.earlier);
      } in
      (
        counted p k,
        error_of p well' entry.name x s.global_decision_counter k,
        insert-placed
            ∙ check_duplicates-Duplicate p well' entry.name x s.global_decision_counter 512 0 k refl
                (omega arith)
                (λ j _ below other. Distinct-placed j other entry.name (distinct j below other))
                (length-set s.decision_counter x s.global_decision_counter ∙ decisions) d',
        acquired-Represents s.ids x xs holds,
        get_or-set_ne p.counter k x (word_at p k + 1) 0 d.another
            ∙ get_or-set_self s.counter x (first_word persistent) 0
                (omega (arith, index_inside, well.counters)),
        get_or-set_self p.counter k (word_at p k + 1) 0 (omega (arith, d.inside, well'.counters))
            ∙ ap (λ n. n + 1) there,
      )
