-- ===== src/LockFree/UnrestrictedAtomic/Tests.antt =====
-- A producer that stores while a consumer copies.
use iceoryx_in_rust.Prelude.{ℕ, ◌≡◌, refl, true, false, List, [], ◌∷◌, arith}
use iceoryx_in_rust.Outcome.{Outcome, done, assume_init}
use iceoryx_in_rust.LockFree.UnrestrictedAtomic.{
  UnrestrictedAtomic, idle, Event, store, producer_access, load, consumer_access, Call, loaded,
  stored, System, acquire_producer, drop_producer, new, run, start, step, produce, consume,
  begin_store, begin_load, cell_at, write_first, write_second, empty_cell,
}
use iceoryx_in_rust.LockFree.UnrestrictedAtomic.Register.{load_is_atomic}
use iceoryx_in_rust.LockFree.UnrestrictedAtomic.Invariant.{Register}
use iceoryx_in_rust.LockFree.UnrestrictedAtomic.Progress.{
  NoStore, accesses, stores, store_wait_free,
}

abbrev begin : System ℕ ℕ
begin = start 1 1 2

-- The second store overwrites the first part of the cell while the consumer is between the parts.
abbrev overtaken : List (Event ℕ ℕ)
overtaken =
    load 0
    ∷ consumer_access 0
    ∷ consumer_access 0
    ∷ store 3 4
    ∷ producer_access
    ∷ producer_access
    ∷ producer_access
    ∷ producer_access
    ∷ store 5 6
    ∷ producer_access
    ∷ producer_access
    ∷ consumer_access 0
    ∷ producer_access
    ∷ producer_access
    ∷ consumer_access 0
    ∷ consumer_access 0
    ∷ consumer_access 0
    ∷ consumer_access 0
    ∷ []

load_is_atomic_example : (x : System ℕ ℕ) × (run overtaken begin ≡ done x) × Register (1, 2) x.log
load_is_atomic_example = load_is_atomic 1 1 2 overtaken (omega arith)

log_of : Outcome (System ℕ ℕ) → List (Call ℕ ℕ)
log_of (done x) = x.log
log_of _ = []

overtaken_log : log_of (run overtaken begin) ≡ (loaded 5 6 ∷ stored 5 6 ∷ stored 3 4 ∷ [])
unfolding log_of run start step produce consume begin_store begin_load cell_at write_first
    write_second empty_cell new assume_init
overtaken_log = refl

abbrev first : UnrestrictedAtomic ℕ ℕ
first = new 1 2

second_producer :
    ((acquire_producer (acquire_producer first).1).0 ≡ false)
    × ((acquire_producer (drop_producer (acquire_producer first).1)).0 ≡ true)
unfolding acquire_producer drop_producer new
second_producer = (refl, refl)

abbrev own : List (Event ℕ ℕ)
own =
    producer_access
    ∷ load 0
    ∷ producer_access
    ∷ consumer_access 0
    ∷ producer_access
    ∷ consumer_access 0
    ∷ producer_access
    ∷ []

own-NoStore : NoStore own
unfolding NoStore
own-NoStore = tt

own-accesses : accesses own ≡ 4
unfolding accesses
own-accesses = refl

nothing_run : run [] begin ≡ done begin
unfolding run
nothing_run = refl

start-idle : begin.producer ≡ idle
unfolding start
start-idle = refl

store_wait_free_example :
    (y : System ℕ ℕ) × (run (store 3 4 ∷ own) begin ≡ done y)
    × (y.producer ≡ idle)
    × (stores y.log ≡ (3, 4) ∷ stores begin.log)
store_wait_free_example =
    store_wait_free 1 1 2 [] own 3 4 begin (omega arith) nothing_run start-idle own-NoStore
      (omega (arith, own-accesses))
