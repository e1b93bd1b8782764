-- ===== src/Sync/Barrier/Meeting.antt =====
-- That nobody passes the barrier before all have come.
use iceoryx_in_rust.Prelude.{
  ℕ, zero, suc, ◌+◌, ◌≤◌, ◌<◌, ◌≡◌, ◌⊎◌, inl, inr, refl, Bool, true, false, List, arith, ◌==◌,
  eq→==, ne→==, ℕ_discrete, if◌then◌else◌, replicate, length-replicate, ◌^◌,
}
use iceoryx_in_rust.Sync.Family.{total, Every, run-Inv}
use iceoryx_in_rust.Sync.ReaderPreference.{spin_repetitions}
use iceoryx_in_rust.Sync.Barrier.{
  Barrier, new, Thread, outside, arriving, spinning, looping, sleeping, passed, wait_arrive,
  wait_spin, wait_loop, Event, call_wait, access, act, run_threads,
}

-- The threads that have counted themselves off, and those that have returned.
abbrev pub arrived : Thread → ℕ
arrived outside = 0
arrived arriving = 0
arrived _ = 1

abbrev pub returned : Thread → ℕ
returned passed = 1
returned _ = 0

abbrev StateOk : ℕ → Barrier → ℕ → ℕ → Type 0
StateOk n b r w = (b.waiters + r ≡ n) × ((w ≡ 0) ⊎ (b.waiters ≡ 0))

abbrev Kept : ℕ → Barrier → Thread → ℕ → ℕ → Type 0
Kept n b t r w = Unit {0} × StateOk n b (r + arrived t) (w + returned t)

act-Kept :
    (n : ℕ) (e : Event) (b : Barrier) (t : Thread) (r w : ℕ)
    → r + 1 ≤ n
    → n < 2 ^ 32
    → StateOk n b (r + arrived t) (w + returned t)
    → Kept n (act e b t).1 (act e b t).0 r w
unfolding act wait_arrive wait_spin wait_loop
act-Kept n call_wait b outside r w room small h = (tt, h)
act-Kept n access b arriving r w room small h = elim (ℕ_discrete b.waiters 1) [
  | yes last ↦
      rw (eq→== b.waiters 1 last) (tt, (omega (arith, last, h.0), inr (omega (arith, last))))
  | no more ↦
      rw (ne→== b.waiters 1 more)
        (tt, (omega (arith, more, room, small, h.0), inl (omega (arith, room, h.0, h.1))))
]
act-Kept n access b (spinning retry_counter) r w room small h = elim (ℕ_discrete b.waiters 0) [
  | yes all ↦ rw (eq→== b.waiters 0 all) (tt, h)
  | no more ↦ rw (ne→== b.waiters 0 more) (go (spin_repetitions == retry_counter + 1))
]
  where
    go : (c : Bool) → Kept n b (if c then looping else spinning (retry_counter + 1)) r w
    go true = (tt, h)
    go false = (tt, h)
act-Kept n access b looping r w room small h = elim (ℕ_discrete b.waiters 0) [
  | yes all ↦ rw (eq→== b.waiters 0 all) (tt, (h.0, inr all))
  | no more ↦ rw (ne→== b.waiters 0 more) (tt, h)
]
act-Kept n access b (sleeping current_value) r w room small h = (tt, h)
act-Kept n _ b t r w room small h = (tt, h)

arrived_single : (t : Thread) → arrived t ≤ 1
arrived_single outside = omega arith
arrived_single arriving = omega arith
arrived_single _ = omega arith

returned_single : (t : Thread) → returned t ≤ 1
returned_single passed = omega arith
returned_single _ = omega arith

outside_all :
    (n : ℕ)
    → Every (λ t. Unit {0}) (replicate n outside)
      × (total arrived (replicate n outside) ≡ 0)
      × (total returned (replicate n outside) ≡ 0)
unfolding Every total
outside_all zero = (tt, refl, refl)
outside_all (suc n) =
    let (all, r, w) = outside_all n in ((tt, all), omega (arith, r), omega (arith, w))

-- Whatever the schedule of the `n` threads of a barrier for `n`, no thread has returned from `wait`
-- or all `n` threads have come to it.
pub all_or_none :
    (n : ℕ) (schedule : List (ℕ × Event))
    → n < 2 ^ 32
    → (total returned (run_threads schedule (new n, replicate n outside)).1 ≡ 0)
      ⊎ (total arrived (run_threads schedule (new n, replicate n outside)).1 ≡ n)
unfolding new
all_or_none n schedule small =
    let (all, r, w) = outside_all n in
    let (count, none_or_all) =
      (run-Inv outside act arrived returned arrived_single returned_single (λ t. Unit {0})
        (StateOk n) n (λ e b t i j room ok h. act-Kept n e b t i j room small h) schedule
        (new n, replicate n outside)
        (length-replicate n outside, all, (omega (arith, r), inl w))).2 in
    elim none_or_all [
      | inl nobody ↦ inl nobody
      | inr everybody ↦ inr (omega (arith, count, everybody))
    ]
