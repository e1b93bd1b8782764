-- ===== src/Sync/ReaderPreference/Counts.antt =====
-- What the state says about the readers and writers, and what each thread relies on.
use iceoryx_in_rust.Prelude.{
  ℕ, ◌+◌, ◌*◌, ◌≤◌, ◌≡◌, ◌≢◌, refl, true, false, arith, replicate, zero, suc,
}
use iceoryx_in_rust.Sync.Family.{total, Every}
use iceoryx_in_rust.Sync.ReaderPreference.{
  write_locked, RwLockReaderPreference, Thread, outside, try_joining, joining, reader, writer,
  reader_unlocking, writer_unlocking, storing, subtracting,
}

abbrev pub readers : Thread → ℕ
readers reader = 1
readers reader_unlocking = 1
readers (storing false) = 1
readers (subtracting false) = 1
readers _ = 0

abbrev pub writers : Thread → ℕ
writers writer = 1
writers writer_unlocking = 1
writers (storing true) = 1
writers (subtracting true) = 1
writers _ = 0

abbrev pub Ok : Thread → Type 0
Ok (try_joining seen) = seen ≢ write_locked
Ok (joining seen spins keep_running) = seen ≢ write_locked
Ok (storing is_writer) = is_writer ≡ true
Ok (subtracting is_writer) = is_writer ≡ false
Ok _ = Unit

-- The count is that of the readers, or the mark of the one writer.
abbrev pub StateOk : RwLockReaderPreference → ℕ → ℕ → Type 0
StateOk q r w = (q.reader_count ≡ r + w * write_locked) × (q.reader_count ≤ write_locked)

abbrev pub Kept : RwLockReaderPreference → Thread → ℕ → ℕ → Type 0
Kept q t r w = Ok t × StateOk q (r + readers t) (w + writers t)

pub readers_single : (t : Thread) → readers t ≤ 1
readers_single reader = omega arith
readers_single reader_unlocking = omega arith
readers_single (storing false) = omega arith
readers_single (subtracting false) = omega arith
readers_single _ = omega arith

pub writers_single : (t : Thread) → writers t ≤ 1
writers_single writer = omega arith
writers_single writer_unlocking = omega arith
writers_single (storing true) = omega arith
writers_single (subtracting true) = omega arith
writers_single _ = omega arith

pub outside_all :
    (n : ℕ)
    → Every Ok (replicate n outside)
      × (total readers (replicate n outside) ≡ 0)
      × (total writers (replicate n outside) ≡ 0)
unfolding Every total
outside_all zero = (tt, refl, refl)
outside_all (suc n) =
    let (all, r, w) = outside_all n in ((tt, all), omega (arith, r), omega (arith, w))
