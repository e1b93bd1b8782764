-- ===== src/LockFree/UniqueIndexSet/Threads/Ownership.antt =====
-- Who owns an index, after every schedule of the threads.
use iceoryx_in_rust.Prelude.{
  ℕ, suc, ◌+◌, ◌/◌, ◌^◌, ◌<◌, ◌≡◌, refl, sym, ap, Bool, true, List, [], ◌∷◌, arith, length, get_or,
  ltb, lt→ltb, le→ltb, dec_lt, if◌then◌else◌, replicate,
}
use iceoryx_in_rust.Outcome.{Outcome, done}
use iceoryx_in_rust.Sync.Family.{total, total-replicate, Every-replicate, step, run}
use iceoryx_in_rust.LockFree.UniqueIndexSet.{UniqueIndexSet, new_uninit, init}
use iceoryx_in_rust.LockFree.UniqueIndexSet.FreeList.{Chain, upto, init-Represents}
use iceoryx_in_rust.LockFree.UniqueIndexSet.Clients.{count, init-OneOwner}
use iceoryx_in_rust.LockFree.UniqueIndexSet.Threads.{Thread, outside, Event, act, run_threads}
use iceoryx_in_rust.LockFree.UniqueIndexSet.Threads.Invariant.{hd, owns, Ok, Inv}
use iceoryx_in_rust.LockFree.UniqueIndexSet.Threads.Accesses.{called}

step-Inv :
    {capacity steps : ℕ} (e : ℕ × Event) (x : UniqueIndexSet × List Thread)
    → steps + 1 < 2 ^ 32
    → Inv capacity steps x.0 x.1
    → Inv capacity (steps + 1) (step outside act e x).0 (step outside act e x).1
unfolding step
step-Inv (i, e) (s, ts) few inv = elim (dec_lt i (length ts)) [
  | yes there ↦
      rw (lt→ltb i (length ts) there) (called s ts i inv there e (get_or ts i outside) refl few)
  | no gone ↦ rw (le→ltb i (length ts) (omega (arith, gone))) (record {
    free = inv.free;
    same = inv.same;
    small = inv.small;
    room = inv.room;
    word = inv.word;
    counter = omega (arith, inv.counter);
    chain = inv.chain;
    owner = inv.owner;
    threads = inv.threads;
  })
]

run-Inv :
    {capacity : ℕ} (es : List (ℕ × Event)) (steps : ℕ) (x : UniqueIndexSet × List Thread)
    → steps + length es < 2 ^ 32
    → Inv capacity steps x.0 x.1
    → Inv capacity (steps + length es) (run_threads es x).0 (run_threads es x).1
unfolding run
run-Inv [] steps x few inv = let e : steps + 0 ≡ steps = omega arith in rw e inv
run-Inv (e ∷ es) steps x few inv =
    let f : steps + suc (length es) ≡ steps + 1 + length es = omega arith in
    rw f
      (run-Inv es (steps + 1) (step outside act e x) (omega arith) (step-Inv e x (omega arith) inv))

abbrev head_of : Outcome (Bool × UniqueIndexSet) → ℕ
head_of (done (granted, s)) = s.head
head_of _ = 0

initial_head :
    (capacity : ℕ) (s : UniqueIndexSet)
    → init (new_uninit capacity) true ≡ done (true, s)
    → s.head ≡ 0
unfolding init new_uninit
initial_head capacity s e = sym (ap head_of e)

-- Any number of threads acquire and release indices of an initialised set, in any interleaving of
-- their accesses, fewer than 2^32 of them. At every moment the links lead from the head through
-- the free indices to their end, and each index below the capacity is either free, once, or owned
-- by one thread; no other number is.
pub one_owner_at_a_time :
    (capacity n : ℕ) (schedule : List (ℕ × Event))
    → capacity + 1 < 2 ^ 32
    → length schedule < 2 ^ 32
    → (s : UniqueIndexSet) × (init (new_uninit capacity) true ≡ done (true, s))
      × (free : List ℕ) × Chain
          (run_threads schedule (s, replicate n outside)).0.next_free
          capacity
          (hd (run_threads schedule (s, replicate n outside)).0.head)
          free
      × ((i : ℕ)
          → count i free + total (owns i) (run_threads schedule (s, replicate n outside)).1
            ≡ (if ltb i capacity then 1 else 0))
one_owner_at_a_time capacity n schedule small few =
    let (s, e, r, c) = init-Represents capacity small in
    let inv =
      run-Inv schedule 0 (s, replicate n outside) (omega arith)
        (record {
          free = upto 0 capacity;
          same = c;
          small = small;
          room = omega (arith, r.room, c);
          word = r.word;
          counter = omega (arith, initial_head capacity s e);
          chain = rw (at_head s r.word) r.chain;
          owner =
              λ i. omega (arith, init-OneOwner capacity i, total-replicate (owns i) outside n refl);
          threads = Every-replicate (Ok s) outside n tt;
        }) in
    (s, e, inv.free, rw inv.same at inv.chain, inv.owner)
  where
    at_head : (s : UniqueIndexSet) → s.head < 2 ^ 64 → hd s.head ≡ s.head / 2 ^ 32
    at_head s h = omega arith
