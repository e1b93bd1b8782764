-- ===== src/SharedMemoryDirectory/FileReferenceSet/Tests.antt =====
-- A set without files, and a set with one file at the index 0.
use iceoryx_in_rust.Prelude.{
  ℕ, zero, suc, ◌+◌, ◌%◌, ◌^◌, ◌<◌, ◌≡◌, ◌≢◌, ◌⊎◌, inl, refl, sym, subst, ◌∙◌, ap, true, false,
  none, some, ◌∷◌, arith, length, get_or, replicate, length-replicate,
}
use iceoryx_in_rust.Outcome.{done}
use iceoryx_in_rust.Container.ByteString.{ByteString, eq}
use iceoryx_in_rust.Container.ByteString.Search.{eq_iff}
use iceoryx_in_rust.LockFree.UniqueIndexSet.{UniqueIndexSet}
use iceoryx_in_rust.LockFree.UniqueIndexSet.FreeList.{
  Represents, upto, init-Represents, acquire_raw_index_refines, take_first,
}
use iceoryx_in_rust.SharedMemoryDirectory.ReferenceCounter.{is_available, exists}
use iceoryx_in_rust.SharedMemoryDirectory.ReferenceCounter.Flags.{
  nothing_exists, one_reference, first_word,
}
use iceoryx_in_rust.SharedMemoryDirectory.DecisionCounter.{undecided}
use iceoryx_in_rust.SharedMemoryDirectory.FileReferenceSet.{
  Entry, FileReferenceSet, CreateFileError, inserted, not_inserted, entry_at, find_entry,
  does_exist, borrow, release, to_be_removed, insert, finalize_initialization,
}
use iceoryx_in_rust.SharedMemoryDirectory.FileReferenceSet.Find.{
  IsFileSet, Matches, Passes, word_at, counted, find_entry-IsFirst,
}
use iceoryx_in_rust.SharedMemoryDirectory.FileReferenceSet.Borrow.{
  does_exist-unchanged, to_be_removed-Hides, Hidden,
}
use iceoryx_in_rust.SharedMemoryDirectory.FileReferenceSet.Insert.{
  insert-Adds, insert_failure_leaks,
}
use iceoryx_in_rust.SharedMemoryDirectory.FileReferenceSet.Duplicates.{Duplicate}

abbrev name_a : ByteString
name_a = record { cap = 255; len = 1; cells = 97 ∷ replicate 254 0; terminator = 0 }

abbrev file_a : Entry
file_a = record { name = name_a; offset = 0; len = 64 }

get_or-replicate : (n i w : ℕ) → get_or (replicate n w) i w ≡ w
get_or-replicate zero i w = refl
get_or-replicate (suc n) zero w = refl
get_or-replicate (suc n) (suc i) w = get_or-replicate n i w

all_ids : (s : UniqueIndexSet) × Represents s (0 ∷ upto 1 511) × (s.capacity ≡ 512)
all_ids = let (s, _, h, same) = init-Represents 512 (omega arith) in (s, h, same)

abbrev no_files : FileReferenceSet
no_files = record {
  entries = replicate 512 file_a;
  counter = replicate 512 0;
  decision_counter = replicate 512 undecided;
  ids = all_ids.0;
  global_decision_counter = 0;
}

no_files-IsFileSet : IsFileSet no_files
no_files-IsFileSet = record {
  counters = length-replicate {A = ℕ} 512 0;
  names = length-replicate 512 file_a;
  words = λ i inside.
      subst (λ w. (w < 2 ^ 64) × (w % 2 ^ 61 + 1 < 2 ^ 61)) (sym (get_or-replicate 512 i 0))
        (omega arith, omega arith);
}

insert-Adds_example :
    (s' s'' : FileReferenceSet) × (insert no_files file_a true ≡ done (inserted 0, s'))
    × (finalize_initialization s' 0 ≡ done s'')
    × (is_available (word_at s'' 0) ≡ true)
    × (entry_at s''.entries 0 ≡ done file_a)
    × (eq name_a name_a ≡ true)
    × ((j : ℕ) → j ≢ 0 → word_at s'' j ≡ word_at no_files j)
    × Represents s''.ids (upto 1 511)
insert-Adds_example =
    insert-Adds no_files no_files-IsFileSet 0 (upto 1 511) file_a true all_ids.1 all_ids.2
      (length-replicate 512 undecided) refl refl
      (λ j inside other. inl (ap exists (get_or-replicate 512 j 0) ∙ nothing_exists))

other_ids : (s : UniqueIndexSet) × Represents s (1 ∷ upto 2 510) × (s.capacity ≡ 512)
unfolding take_first
other_ids =
    let (s, _, h, same) = acquire_raw_index_refines all_ids.0 (0 ∷ upto 1 511) 0 all_ids.1 in
    (s, h, same ∙ all_ids.2)

abbrev one_file : FileReferenceSet
one_file = record {
  entries = replicate 512 file_a;
  counter = (2 ^ 62 + 1) ∷ replicate 511 0;
  decision_counter = 0 ∷ replicate 511 undecided;
  ids = other_ids.0;
  global_decision_counter = 1;
}

one_file-IsFileSet : IsFileSet one_file
one_file-IsFileSet = record {
  counters = omega (arith, length-replicate {A = ℕ} 511 0);
  names = length-replicate 512 file_a;
  words = λ i inside. words i;
}
  where
    words : (i : ℕ) → (word_at one_file i < 2 ^ 64) × (word_at one_file i % 2 ^ 61 + 1 < 2 ^ 61)
    words zero = (omega arith, omega arith)
    words (suc i) =
        subst (λ w. (w < 2 ^ 64) × (w % 2 ^ 61 + 1 < 2 ^ 61)) (sym (get_or-replicate 511 i 0))
          (omega arith, omega arith)

find_entry-IsFirst_example :
    ((i : ℕ) × (i < 512)
      × Matches one_file name_a i
      × ((j : ℕ) → j < i → Passes one_file name_a j)
      × (find_entry one_file name_a ≡ done (some i, counted one_file i)))
    ⊎ (((j : ℕ) → j < 512 → Passes one_file name_a j)
        × (find_entry one_file name_a ≡ done (none, one_file)))
find_entry-IsFirst_example = find_entry-IsFirst one_file one_file-IsFileSet name_a

does_exist-unchanged_example :
    ((i : ℕ) × (i < 512)
      × Matches one_file name_a i
      × (does_exist one_file name_a ≡ done (true, one_file))
      × (borrow one_file name_a ≡ done (some i, counted one_file i))
      × (release (counted one_file i) i ≡ done one_file))
    ⊎ (((j : ℕ) → j < 512 → Passes one_file name_a j)
        × (does_exist one_file name_a ≡ done (false, one_file))
        × (borrow one_file name_a ≡ done (none, one_file)))
does_exist-unchanged_example = does_exist-unchanged one_file one_file-IsFileSet name_a

one_file_decisions : length one_file.decision_counter ≡ 512
one_file_decisions = omega (arith, length-replicate 511 undecided)

to_be_removed-Hides_example :
    ((i : ℕ) × (i < 512)
      × Matches one_file name_a i
      × ((j : ℕ) → j < i → Passes one_file name_a j)
      × (s' : FileReferenceSet) × (to_be_removed one_file name_a ≡ done (true, s'))
      × Hidden one_file one_file-IsFileSet name_a i s')
    ⊎ (((j : ℕ) → j < 512 → Passes one_file name_a j)
        × (to_be_removed one_file name_a ≡ done (false, one_file)))
to_be_removed-Hides_example =
    to_be_removed-Hides one_file one_file-IsFileSet name_a (1 ∷ upto 2 510) other_ids.1 other_ids.2
      one_file_decisions

first_file : entry_at one_file.entries 0 ≡ done file_a
unfolding entry_at
first_file = refl

same_file : Duplicate one_file one_file-IsFileSet name_a 1 1 0
same_file = record {
  another = λ e. omega (arith, e);
  inside = omega arith;
  there = one_reference;
  entry = file_a;
  at_k = first_file;
  same_name = (eq_iff name_a name_a).1 refl;
  decided = omega arith;
  earlier = omega arith;
}

insert_failure_leaks_example :
    (s' : FileReferenceSet) × (error : CreateFileError) × (insert one_file file_a true
      ≡ done (not_inserted error, s'))
    × Represents s'.ids (upto 2 510)
    × (word_at s' 1 ≡ first_word true)
    × (word_at s' 0 ≡ 2 ^ 62 + 1 + 1)
insert_failure_leaks_example =
    insert_failure_leaks one_file one_file-IsFileSet 1 (upto 2 510) file_a true other_ids.1
      other_ids.2 one_file_decisions refl refl 0 same_file
      (λ j below other. absurd (omega (arith, below)))
