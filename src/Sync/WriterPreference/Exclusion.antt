-- ===== src/Sync/WriterPreference/Exclusion.antt =====
-- That a writer holds the lock of `RwLockWriterPreference` alone.
use iceoryx_in_rust.Prelude.{
  ℕ, ◌+◌, ◌*◌, ◌≤◌, ◌<◌, ◌≡◌, ◌⊎◌, inl, inr, List, arith, ℕ_discrete, replicate, length-replicate,
}
use iceoryx_in_rust.Sync.Family.{total, Inv, run-Inv}
use iceoryx_in_rust.Sync.ReaderPreference.{write_locked, Event}
use iceoryx_in_rust.Sync.WriterPreference.{RwLockWriterPreference, new, outside, act, run_threads}
use iceoryx_in_rust.Sync.WriterPreference.Counts.{
  readers, writers, Ok, StateOk, readers_single, writers_single, outside_all,
}
use iceoryx_in_rust.Sync.WriterPreference.Accesses.{act-Kept}

run-Inv_threads :
    (n : ℕ) (schedule : List (ℕ × Event))
    → n < 2147483647
    → Inv readers writers Ok StateOk n (run_threads schedule (new, replicate n outside))
unfolding new
run-Inv_threads n schedule few =
    let (all, r, w) = outside_all n in
    run-Inv outside act readers writers readers_single writers_single Ok StateOk n
      (λ e q t i j room ok h. act-Kept e q t i j (omega arith) ok h) schedule
      (new, replicate n outside)
      (length-replicate n outside, all, (omega (arith, r, w), omega (arith, r, w), omega arith))

-- Whatever the schedule of fewer than 2^31 - 1 threads, either no thread holds the lock as a writer,
-- or just one does and none holds it as a reader; and the state in the lock is the writer's mark, or
-- twice the number of the readers and at most one more.
pub writer_preferred_alone :
    (n : ℕ) (schedule : List (ℕ × Event))
    → n < 2147483647
    → ((total writers (run_threads schedule (new, replicate n outside)).1 ≡ 0)
        × (2 * total readers (run_threads schedule (new, replicate n outside)).1
            ≤ (run_threads schedule (new, replicate n outside)).0.state)
        × ((run_threads schedule (new, replicate n outside)).0.state
            ≤ 2 * total readers (run_threads schedule (new, replicate n outside)).1 + 1))
      ⊎ ((total writers (run_threads schedule (new, replicate n outside)).1 ≡ 1)
          × (total readers (run_threads schedule (new, replicate n outside)).1 ≡ 0)
          × ((run_threads schedule (new, replicate n outside)).0.state ≡ write_locked))
writer_preferred_alone n schedule few =
    let (q, ts) = run_threads schedule (new, replicate n outside) in
    split q (total readers ts) (total writers ts) (run-Inv_threads n schedule few).2
  where
    split :
        (q : RwLockWriterPreference) (r w : ℕ)
        → StateOk q r w
        → ((w ≡ 0) × (2 * r ≤ q.state) × (q.state ≤ 2 * r + 1))
          ⊎ ((w ≡ 1) × (r ≡ 0) × (q.state ≡ write_locked))
    split q r w (a, b, c) = elim (ℕ_discrete w 0) [
      | yes free ↦ inl (free, omega (arith, a, free), omega (arith, b, free))
      | no taken ↦ inr (
        omega (arith, a, b, c, taken),
        omega (arith, a, b, c, taken),
        omega (arith, a, b, c, taken),
      )
    ]
