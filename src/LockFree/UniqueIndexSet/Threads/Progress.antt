-- ===== src/LockFree/UniqueIndexSet/Threads/Progress.antt =====
-- A call ends, if its thread runs alone from any point on.
use iceoryx_in_rust.Prelude.{
  ℕ, zero, suc, refl, eq→==, ne→==, le→leb, lt→leb, ℕ_discrete, dec_lt, arith, get_or, set,
}
use iceoryx_in_rust.LockFree.UniqueIndexSet.{UniqueIndexSet}
use iceoryx_in_rust.LockFree.UniqueIndexSet.Threads.{
  Thread, outside, acquiring, reading, exchanging, detaching, holding, releasing, linking,
  returning, acquire_test, acquire_exchange, release_exchange, advance,
}
use iceoryx_in_rust.LockFree.UniqueIndexSet.Threads.Invariant.{hd}

-- The next `k` accesses are those of one thread.
pub alone : ℕ → UniqueIndexSet → Thread → Thread × UniqueIndexSet
alone zero s t = (t, s)
alone (suc k) s t = alone k (advance s t).1 (advance s t).0

-- The thread is in no call.
abbrev pub IsResting : Thread → Type 0
IsResting outside = Unit
IsResting (holding index) = Unit
IsResting _ = ⊥

abbrev Ends : ℕ → Thread × UniqueIndexSet → Type 0
Ends k x = IsResting (alone k x.1 x.0).0

outside-Ends : (k : ℕ) (s : UniqueIndexSet) → Ends k (outside, s)
unfolding alone advance
outside-Ends zero s = tt
outside-Ends (suc k) s = outside-Ends k s

holding-Ends : (k : ℕ) (s : UniqueIndexSet) (j : ℕ) → Ends k (holding j, s)
unfolding alone advance
holding-Ends zero s j = tt
holding-Ends (suc k) s j = holding-Ends k s j

detaching-Ends : (k : ℕ) (s : UniqueIndexSet) (j : ℕ) → Ends (suc k) (detaching j, s)
unfolding alone advance
detaching-Ends k s j = holding-Ends k (advance s (detaching j)).1 j

-- The exchange behind a word that is still the head.
fresh_exchange-Ends :
    (k : ℕ) (s : UniqueIndexSet) (n : ℕ) → Ends (suc k) (acquire_exchange s s.head n)
unfolding acquire_exchange alone
fresh_exchange-Ends k s n = rw (eq→== s.head s.head refl) (detaching-Ends k _ (hd s.head))

fresh_reading-Ends : (k : ℕ) (s : UniqueIndexSet) → Ends (suc (suc (suc k))) (reading s.head, s)
unfolding alone advance
fresh_reading-Ends k s = fresh_exchange-Ends k s (get_or s.next_free (hd s.head) 0)

test-Ends : (k : ℕ) (s : UniqueIndexSet) → Ends (suc (suc (suc k))) (acquire_test s s.head, s)
unfolding acquire_test alone
test-Ends k s = elim (dec_lt (hd s.head) s.capacity) [
  | yes below ↦ rw (lt→leb s.capacity (hd s.head) below) (fresh_reading-Ends k s)
  | no empty ↦
      rw (le→leb s.capacity (hd s.head) (omega (arith, empty))) (outside-Ends (suc (suc (suc k))) s)
]

exchange-Ends :
    (k : ℕ) (s : UniqueIndexSet) (old n : ℕ) → Ends (suc (suc (suc k))) (acquire_exchange s old n)
unfolding acquire_exchange alone
exchange-Ends k s old n = elim (ℕ_discrete s.head old) [
  | yes now ↦ rw (eq→== s.head old now) (detaching-Ends (suc (suc k)) _ (hd old))
  | no moved ↦ rw (ne→== s.head old moved) (test-Ends k s)
]

fresh_return-Ends : (k : ℕ) (s : UniqueIndexSet) (j : ℕ) → Ends k (release_exchange s j s.head)
unfolding release_exchange alone
fresh_return-Ends k s j = rw (eq→== s.head s.head refl) (outside-Ends k _)

fresh_linking-Ends : (k : ℕ) (s : UniqueIndexSet) (j : ℕ) → Ends (suc (suc k)) (linking j s.head, s)
unfolding alone advance
fresh_linking-Ends k s j =
    fresh_return-Ends k (record s { next_free = set s.next_free j (hd s.head) }) j

return-Ends :
    (k : ℕ) (s : UniqueIndexSet) (j old : ℕ) → Ends (suc (suc k)) (release_exchange s j old)
unfolding release_exchange alone
return-Ends k s j old = elim (ℕ_discrete s.head old) [
  | yes now ↦ rw (eq→== s.head old now) (outside-Ends (suc (suc k)) _)
  | no moved ↦ rw (ne→== s.head old moved) (fresh_linking-Ends k s j)
]

-- Whatever the other threads have done to the set, and wherever a thread stands in a call: if it
-- runs alone, the call has returned after five more accesses.
pub alone_finishes : (s : UniqueIndexSet) (t : Thread) → IsResting (alone 5 s t).0
unfolding alone advance
alone_finishes s outside = tt
alone_finishes s acquiring = test-Ends 1 s
alone_finishes s (reading old) = exchange-Ends 0 s old (get_or s.next_free (hd old) 0)
alone_finishes s (exchanging old n) = exchange-Ends 1 s old n
alone_finishes s (detaching j) = tt
alone_finishes s (holding j) = tt
alone_finishes s (releasing j) = fresh_linking-Ends 2 s j
alone_finishes s (linking j old) =
    return-Ends 1 (record s { next_free = set s.next_free j (hd old) }) j old
alone_finishes s (returning j old) = return-Ends 2 s j old
