-- ===== src/LockFree/UnrestrictedAtomic.antt =====
-- elkodon_bb/lock_free/src/spmc/unrestricted_atomic.rs: a value of any type in two cells, which one
-- producer stores and any number of consumers load. A value has two parts here, and a step reads or
-- writes one part, so that a copy may be torn.
pub mod Invariant
pub mod Register
pub mod Progress
mod Tests
use iceoryx_in_rust.Prelude.{
  ℕ, zero, suc, ◌+◌, ◌%◌, Bool, true, false, Option, none, some, List, [], ◌∷◌, ◌++◌, ◌==◌, ltb,
  if◌then◌else◌, replicate, length, get_or, set,
}
use iceoryx_in_rust.Prelude.Word.{add_usize, sub_usize}
use iceoryx_in_rust.Outcome.{Outcome, done, fault, ◌>>=◌, assume_init}

-- `MaybeUninit<T>`: each part holds a value or not.
abbrev pub Cell : Type 0 → Type 0 → Type 0
Cell A B = Option A × Option B

pub record UnrestrictedAtomic (A B : Type 0) : Type 0 where
  pub write_cell : ℕ
  pub data_cells : List (Cell A B)
  pub has_producer : Bool

-- The locals of a call of `store`, and those of a call of `load`.
pub data Producer (A B : Type 0) : Type 0 where
  idle : Producer A B
  starting : (a : A) → (b : B) → Producer A B
  writing : (a : A) → (b : B) → (write_cell : ℕ) → Producer A B
  written_first : (a : A) → (b : B) → (write_cell : ℕ) → Producer A B
  publishing : (a : A) → (b : B) → Producer A B

pub data Consumer (A B : Type 0) : Type 0 where
  resting : Consumer A B
  loading : Consumer A B
  reading : (read_cell : ℕ) → Consumer A B
  read_first : (read_cell : ℕ) → (a : A) → Consumer A B
  checking : (read_cell : ℕ) → (a : A) → (b : B) → Consumer A B

-- The calls that have returned.
pub data Call (A B : Type 0) : Type 0 where
  stored : (a : A) → (b : B) → Call A B
  loaded : (a : A) → (b : B) → Call A B

pub record System (A B : Type 0) : Type 0 where
  pub atomic : UnrestrictedAtomic A B
  pub producer : Producer A B
  pub consumers : List (Consumer A B)
  pub log : List (Call A B)

pub data Event (A B : Type 0) : Type 0 where
  store : A → B → Event A B
  producer_access : Event A B
  load : ℕ → Event A B
  consumer_access : ℕ → Event A B

module _ {A B : Type 0} where
  pub new : A → B → UnrestrictedAtomic A B
  new a b = record {
    has_producer = true;
    write_cell = 1;
    data_cells = (some a, some b) ∷ (none, none) ∷ [];
  }

  pub acquire_producer : UnrestrictedAtomic A B → Bool × UnrestrictedAtomic A B
  acquire_producer s =
      if s.has_producer then (true, record s { has_producer = false }) else (false, s)

  pub drop_producer : UnrestrictedAtomic A B → UnrestrictedAtomic A B
  drop_producer s = record s { has_producer = true }

  pub empty_cell : Cell A B
  empty_cell = (none, none)

  pub cell_at : UnrestrictedAtomic A B → ℕ → Cell A B
  unfolding empty_cell
  cell_at s index = get_or s.data_cells (index % 2) empty_cell

  pub write_first : UnrestrictedAtomic A B → ℕ → A → UnrestrictedAtomic A B
  unfolding cell_at
  write_first s index a = record s {
    data_cells = set s.data_cells (index % 2) (some a, (cell_at s index).1);
  }

  pub write_second : UnrestrictedAtomic A B → ℕ → B → UnrestrictedAtomic A B
  unfolding cell_at
  write_second s index b = record s {
    data_cells = set s.data_cells (index % 2) ((cell_at s index).0, some b);
  }

  -- One access of `store`.
  pub produce : Producer A B → System A B → System A B
  unfolding write_first write_second
  produce idle x = x
  produce (starting a b) x = record x { producer = writing a b x.atomic.write_cell }
  produce (writing a b w) x = record x {
    atomic = write_first x.atomic w a;
    producer = written_first a b w;
  }
  produce (written_first a b w) x = record x {
    atomic = write_second x.atomic w b;
    producer = publishing a b;
  }
  produce (publishing a b) x = record x {
    atomic = record x.atomic { write_cell = add_usize x.atomic.write_cell 1 };
    producer = idle;
    log = stored a b ∷ x.log;
  }

  -- One access of `load`.
  pub consume : UnrestrictedAtomic A B → Consumer A B → Outcome (Consumer A B × List (Call A B))
  unfolding cell_at
  consume s resting = done (resting, [])
  consume s loading = done (reading (sub_usize s.write_cell 1), [])
  consume s (reading r) = assume_init (cell_at s r).0 >>= λ a. done (read_first r a, [])
  consume s (read_first r a) = assume_init (cell_at s r).1 >>= λ b. done (checking r a b, [])
  consume s (checking r a b) =
      if sub_usize s.write_cell 1 == r
      then done (resting, loaded a b ∷ [])
      else done (reading (sub_usize s.write_cell 1), [])

  pub begin_store : Producer A B → A → B → Producer A B
  begin_store idle a b = starting a b
  begin_store t a b = t

  pub begin_load : Consumer A B → Consumer A B
  begin_load resting = loading
  begin_load t = t

  pub step : Event A B → System A B → Outcome (System A B)
  unfolding produce consume begin_store begin_load
  step (store a b) x = done (record x { producer = begin_store x.producer a b })
  step producer_access x = done (produce x.producer x)
  step (load i) x =
      done (record x { consumers = set x.consumers i (begin_load (get_or x.consumers i resting)) })
  step (consumer_access i) x = consume x.atomic (get_or x.consumers i resting) >>= λ r.
      done (record x { consumers = set x.consumers i r.0; log = r.1 ++ x.log })

  pub run : List (Event A B) → System A B → Outcome (System A B)
  unfolding step
  run [] x = done x
  run (e ∷ es) x = step e x >>= run es

  -- A new atomic and `n` consumers.
  pub start : ℕ → A → B → System A B
  unfolding new
  start n a b = record {
    atomic = new a b;
    producer = idle;
    consumers = replicate n resting;
    log = [];
  }
