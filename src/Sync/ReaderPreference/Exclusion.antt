-- ===== src/Sync/ReaderPreference/Exclusion.antt =====
-- That a writer holds the lock of `RwLockReaderPreference` alone.
use iceoryx_in_rust.Prelude.{
  ℕ, ◌<◌, ◌≡◌, ◌⊎◌, inl, inr, List, arith, ℕ_discrete, replicate, length-replicate,
}
use iceoryx_in_rust.Sync.Family.{total, Inv, run-Inv}
use iceoryx_in_rust.Sync.ReaderPreference.{
  write_locked, RwLockReaderPreference, new, outside, Event, act, run_threads,
}
use iceoryx_in_rust.Sync.ReaderPreference.Counts.{
  readers, writers, Ok, StateOk, readers_single, writers_single, outside_all,
}
use iceoryx_in_rust.Sync.ReaderPreference.Accesses.{act-Kept}

run-Inv_threads :
    (n : ℕ) (schedule : List (ℕ × Event))
    → n < write_locked
    → Inv readers writers Ok StateOk n (run_threads schedule (new, replicate n outside))
unfolding new
run-Inv_threads n schedule few =
    let (all, r, w) = outside_all n in
    run-Inv outside act readers writers readers_single writers_single Ok StateOk n
      (λ e q t i j room ok h. act-Kept e q t i j (omega arith) ok h) schedule
      (new, replicate n outside)
      (length-replicate n outside, all, (omega (arith, r, w), omega arith))

-- Whatever the schedule of fewer than `u32::MAX` threads, either no thread holds the lock as a
-- writer, or just one does and none holds it as a reader; and the count in the lock is that of the
-- readers, or the writer's mark.
pub writer_alone :
    (n : ℕ) (schedule : List (ℕ × Event))
    → n < write_locked
    → ((total writers (run_threads schedule (new, replicate n outside)).1 ≡ 0)
        × ((run_threads schedule (new, replicate n outside)).0.reader_count
            ≡ total readers (run_threads schedule (new, replicate n outside)).1))
      ⊎ ((total writers (run_threads schedule (new, replicate n outside)).1 ≡ 1)
          × (total readers (run_threads schedule (new, replicate n outside)).1 ≡ 0)
          × ((run_threads schedule (new, replicate n outside)).0.reader_count ≡ write_locked))
writer_alone n schedule few = split (run-Inv_threads n schedule few).2
  where
    split :
        {q : RwLockReaderPreference} {r w : ℕ}
        → StateOk q r w
        → ((w ≡ 0) × (q.reader_count ≡ r)) ⊎ ((w ≡ 1) × (r ≡ 0) × (q.reader_count ≡ write_locked))
    split {q} {r} {w} h = elim (ℕ_discrete w 0) [
      | yes free ↦ inl (free, omega (arith, h.0, free))
      | no taken ↦ inr (
        omega (arith, h.0, h.1, taken),
        omega (arith, h.0, h.1, taken),
        omega (arith, h.0, h.1, taken),
      )
    ]
