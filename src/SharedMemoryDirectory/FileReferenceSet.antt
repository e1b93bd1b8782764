-- ===== src/SharedMemoryDirectory/FileReferenceSet.antt =====
-- elkodon_cal/src/shared_memory_directory/file_reference_set.rs: the files of a directory, each with a
-- name, its place, a reference counter and a decision counter, at the indices that a `UniqueIndexSet`
-- hands out. An index out of range of the arrays panics.
pub mod Find
pub mod Borrow
pub mod Duplicates
pub mod Insert
mod Tests
use iceoryx_in_rust.Prelude.{
  ℕ, zero, suc, ◌+◌, ◌^◌, Bool, true, false, not, Option, none, some, List, [], ◌∷◌, ◌++◌, ◌==◌,
  ltb, if◌then◌else◌, length, get_or, set, replicate,
}
use iceoryx_in_rust.Prelude.Word.{add_usize}
use iceoryx_in_rust.Outcome.{Outcome, done, panic, ◌>>=◌, ◌>>◌, read_at, write_at}
use iceoryx_in_rust.Container.ByteString.{ByteString, eq}
use iceoryx_in_rust.LockFree.UniqueIndexSet
use iceoryx_in_rust.LockFree.UniqueIndexSet.{UniqueIndexSet, acquire_raw_index, release_raw_index}
use iceoryx_in_rust.SharedMemoryDirectory.ReferenceCounter
use iceoryx_in_rust.SharedMemoryDirectory.ReferenceCounter.{
  increment_ref_counter, increment_ref_counter_when_initialized, increment_ref_counter_when_exist,
  set_persistency_bit, set_initialized_bit, details,
}
use iceoryx_in_rust.SharedMemoryDirectory.DecisionCounter
use iceoryx_in_rust.SharedMemoryDirectory.DecisionCounter.{undecided, does_value_win}

abbrev pub max_number_of_entries : ℕ
max_number_of_entries = 512

-- `name` is a `FileName`, which is a byte string and compares as one.
pub record Entry : Type 0 where
  pub name : ByteString
  pub offset : ℕ
  pub len : ℕ

pub record FileReferenceSet : Type 0 where
  pub entries : List Entry
  pub counter : List ℕ
  pub decision_counter : List ℕ
  pub ids : UniqueIndexSet
  pub global_decision_counter : ℕ

pub data CreateFileError : Type 0 where
  file_limit_exceeded being_created does_exist_already : CreateFileError

pub data Inserted : Type 0 where
  inserted : (id : ℕ) → Inserted
  not_inserted : CreateFileError → Inserted

pub entry_at : List Entry → ℕ → Outcome Entry
entry_at [] i = panic
entry_at (e ∷ es) zero = done e
entry_at (e ∷ es) (suc i) = entry_at es i

pub read_entry : FileReferenceSet → ℕ → Outcome Entry
unfolding entry_at
read_entry s id = entry_at s.entries id

pub write_entry : FileReferenceSet → ℕ → Entry → Outcome FileReferenceSet
write_entry s id e =
    if ltb id (length s.entries) then done (record s { entries = set s.entries id e }) else panic

-- A call of `self.counter[id]`, which returns a value and leaves a word.
pub on_counter : {R : Type 0} → (ℕ → R × ℕ) → FileReferenceSet → ℕ → Outcome (R × FileReferenceSet)
on_counter call s id = read_at s.counter id >>= λ word.
    (write_at s.counter id (call word).1 >>= λ words.
    done ((call word).0, record s { counter = words }))

pub on_decision : {R : Type 0} → (ℕ → R × ℕ) → FileReferenceSet → ℕ → Outcome (R × FileReferenceSet)
on_decision call s id = read_at s.decision_counter id >>= λ word.
    (write_at s.decision_counter id (call word).1 >>= λ words.
    done ((call word).0, record s { decision_counter = words }))

-- A call that returns nothing.
abbrev pub silent : (ℕ → ℕ) → ℕ → Unit {0} × ℕ
silent call word = (tt, call word)

-- The part of `decrement_ref_counter` that removes the entry.
pub remove_entry : FileReferenceSet → ℕ → Outcome FileReferenceSet
unfolding on_counter on_decision
remove_entry s id = on_counter (silent (λ word. 0)) s id >>= λ a.
    (on_decision (silent (λ word. undecided)) a.1 id >>= λ b.
    (release_raw_index 1 b.1.ids id >>= λ ids. done (record b.1 { ids = ids })))

pub decrement_ref_counter : FileReferenceSet → ℕ → Outcome FileReferenceSet
unfolding on_counter remove_entry
decrement_ref_counter s id = on_counter ReferenceCounter.decrement_ref_counter s id >>= λ r.
    (if r.0 then remove_entry r.1 id else done r.1)

-- One round of `find_entry`: whether the entry has the name. If not, its counter is as it was.
pub probe : FileReferenceSet → ByteString → ℕ → Outcome (Bool × FileReferenceSet)
unfolding on_counter read_entry
probe s name id = on_counter increment_ref_counter_when_initialized s id >>= λ r.
    (if r.0
      then (read_entry r.1 id >>= λ e.
          (if eq e.name name
            then done (true, r.1)
            else (on_counter ReferenceCounter.decrement_ref_counter r.1 id >>= λ q.
                done (false, q.1))))
      else done (false, r.1))

pub find_from : ℕ → ℕ → FileReferenceSet → ByteString → Outcome (Option ℕ × FileReferenceSet)
unfolding probe
find_from zero id s name = done (none, s)
find_from (suc rounds) id s name = probe s name id >>= λ r. elim r.0 [
  | true ↦ done (some id, r.1)
  | false ↦ find_from rounds (id + 1) r.1 name
]

pub find_entry : FileReferenceSet → ByteString → Outcome (Option ℕ × FileReferenceSet)
unfolding find_from
find_entry s name = find_from max_number_of_entries 0 s name

abbrev pub release : FileReferenceSet → ℕ → Outcome FileReferenceSet
release s id = decrement_ref_counter s id

pub finalize_initialization : FileReferenceSet → ℕ → Outcome FileReferenceSet
unfolding on_counter
finalize_initialization s id = on_counter (silent (set_initialized_bit true)) s id >>= λ r. done r.1

-- What `does_exist` does with an entry that was found.
pub drop_found : Option ℕ × FileReferenceSet → Outcome (Bool × FileReferenceSet)
unfolding decrement_ref_counter
drop_found (none, s) = done (false, s)
drop_found (some id, s) = decrement_ref_counter s id >>= λ s'. done (true, s')

pub does_exist : FileReferenceSet → ByteString → Outcome (Bool × FileReferenceSet)
unfolding find_entry drop_found
does_exist s name = find_entry s name >>= drop_found

pub remove_found : Option ℕ × FileReferenceSet → Outcome (Bool × FileReferenceSet)
unfolding on_counter decrement_ref_counter
remove_found (none, s) = done (false, s)
remove_found (some id, s) = on_counter (silent (set_persistency_bit false)) s id >>= λ a.
    (on_counter (silent ReferenceCounter.to_be_removed) a.1 id >>= λ b.
    (decrement_ref_counter b.1 id >>= λ c. done (true, c)))

pub to_be_removed : FileReferenceSet → ByteString → Outcome (Bool × FileReferenceSet)
unfolding find_entry remove_found
to_be_removed s name = find_entry s name >>= remove_found

-- The `id` of the `File` that is returned; dropping the `File` calls `release`.
pub borrow : FileReferenceSet → ByteString → Outcome (Option ℕ × FileReferenceSet)
unfolding find_entry
borrow s name = find_entry s name

pub is_persistent : FileReferenceSet → ℕ → Outcome Bool
is_persistent s id = read_at s.counter id >>= λ word. done (details word).is_persistent

-- The ids of the `File`s that are returned.
pub list_from : ℕ → ℕ → FileReferenceSet → Outcome (List ℕ × FileReferenceSet)
unfolding on_counter
list_from zero id s = done ([], s)
list_from (suc rounds) id s = on_counter increment_ref_counter_when_initialized s id >>= λ r.
    (list_from rounds (id + 1) r.1 >>= λ q. done (if r.0 then id ∷ q.0 else q.0, q.1))

pub list : FileReferenceSet → Outcome (List ℕ × FileReferenceSet)
unfolding list_from
list s = list_from max_number_of_entries 0 s

pub get_name : FileReferenceSet → ℕ → Outcome ByteString
unfolding read_entry
get_name s id = read_entry s id >>= λ e. done e.name

-- A set with the ids that `FixedSizeUniqueIndexSet::new` makes, and the default entry.
pub default : UniqueIndexSet → Entry → FileReferenceSet
default ids entry = record {
  entries = replicate max_number_of_entries entry;
  counter = replicate max_number_of_entries 0;
  decision_counter = replicate max_number_of_entries undecided;
  ids = ids;
  global_decision_counter = 0;
}

-- One round of the search for duplicates: the error, if the other entry wins. It keeps the count of the
-- other entry then.
pub check_duplicate :
    FileReferenceSet → ℕ → ℕ → ByteString → ℕ → Outcome (Option CreateFileError × FileReferenceSet)
unfolding on_counter on_decision read_entry decrement_ref_counter
check_duplicate s id i name count =
    if i == id
    then done (none, s)
    else (on_counter increment_ref_counter_when_exist s i >>= λ r.
        (if r.0
          then (read_entry r.1 i >>= λ e.
              (if eq e.name name
                then (on_decision (λ word. does_value_win word count) r.1 i >>= λ d.
                    (if d.0
                      then (decrement_ref_counter d.1 i >>= λ t. done (none, t))
                      else (read_at d.1.counter i >>= λ word. done (
                        some (
                            if (details word).is_initialized
                            then does_exist_already
                            else being_created),
                        d.1,
                      ))))
                else (decrement_ref_counter r.1 i >>= λ t. done (none, t))))
          else done (none, r.1)))

pub check_duplicates :
    ℕ → ℕ → FileReferenceSet → ℕ → ByteString → ℕ → Outcome (Inserted × FileReferenceSet)
unfolding check_duplicate
check_duplicates zero i s id name count = done (inserted id, s)
check_duplicates (suc rounds) i s id name count = check_duplicate s id i name count >>= λ r.
    elim r.0 [
      | none ↦ check_duplicates rounds (i + 1) r.1 id name count
      | some error ↦ done (not_inserted error, r.1)
    ]

-- `insert` with the index that was acquired.
pub insert_at : Option ℕ → FileReferenceSet → Entry → Bool → Outcome (Inserted × FileReferenceSet)
unfolding write_entry on_counter on_decision check_duplicates
insert_at none s entry persistent = done (not_inserted file_limit_exceeded, s)
insert_at (some id) s entry persistent = write_entry s id entry >>= λ a.
    (on_counter (silent (set_persistency_bit persistent)) a id >>= λ b.
    (on_counter increment_ref_counter b.1 id >>= λ c.
    (let count = c.1.global_decision_counter in
      let next = record c.1 { global_decision_counter = add_usize count 1 } in
      on_decision (λ word. DecisionCounter.set word count) next id >>= λ d.
      (if d.0
        then check_duplicates max_number_of_entries 0 d.1 id entry.name count
        else done (not_inserted does_exist_already, d.1)))))

pub insert : FileReferenceSet → Entry → Bool → Outcome (Inserted × FileReferenceSet)
unfolding insert_at
insert s entry persistent =
    acquire_raw_index 1 s.ids >>= λ r. insert_at r.0 (record s { ids = r.1 }) entry persistent
