-- ===== src/LockFree/OverflowQueue/Invariant.antt =====
-- The invariant of the overflowing queue and its two threads.
use iceoryx_in_rust.Prelude.{
  ℕ, ◌+◌, ◌%◌, ◌≤◌, ◌<◌, ◌≡◌, ◌⊎◌, refl, List, [], ◌∷◌, ◌++◌, arith, length, length-replicate,
  get_or, ◌==◌, if◌then◌else◌,
}
use iceoryx_in_rust.Ring.{Holds}
use iceoryx_in_rust.LockFree.OverflowQueue.{
  OverflowQueue, new, Producer, loaded, checked, written, evicting, evicted, Consumer, taking,
  taken, System,
}

abbrev pub count : ℕ → List ℕ → ℕ
count a [] = 0
count a (x ∷ xs) = (if a == x then 1 else 0) + count a xs

pub count-append : (a : ℕ) (xs : List ℕ) (v : ℕ) → count a (xs ++ (v ∷ [])) ≡ count a (v ∷ xs)
count-append a [] v = refl
count-append a (x ∷ xs) v = omega (arith, count-append a xs v)

-- The value that the producer has taken out of the queue and not yet returned.
abbrev pub in_hand : OverflowQueue → Producer → List ℕ
in_hand q (evicted v r) = get_or q.cells (r % (q.capacity + 1)) 0 ∷ []
in_hand q _ = []

-- What the locals of a call of `push` say about the queue, which holds `pending`.
abbrev pub ProducerOk : OverflowQueue → List ℕ → Producer → Type 0
ProducerOk q pending (loaded v w) = (w ≡ q.write_position) × (length pending ≤ q.capacity)
ProducerOk q pending (checked v w r is_full) =
    (w ≡ q.write_position)
    × (r ≤ q.read_position)
    × (w ≤ r + q.capacity)
    × (is_full ≡ (w == r + q.capacity))
    × (length pending ≤ q.capacity)
ProducerOk q pending (written v w r is_full) =
    (w ≡ q.write_position)
    × (r ≤ q.read_position)
    × (w ≤ r + q.capacity)
    × (is_full ≡ (w == r + q.capacity))
    × (length pending ≤ q.capacity)
    × (get_or q.cells (w % (q.capacity + 1)) 0 ≡ v)
ProducerOk q pending (evicting v r) =
    (q.write_position ≡ r + q.capacity + 1) × (r ≤ q.read_position)
ProducerOk q pending _ = length pending ≤ q.capacity

-- The value was read at the read position, or it is out of date.
abbrev pub IsCurrent : OverflowQueue → List ℕ → ℕ → ℕ → Type 0
IsCurrent q pending r v =
    (r < q.read_position) ⊎ ((r ≡ q.read_position) × (rest : List ℕ) × (pending ≡ v ∷ rest))

-- What the locals of a call of `pop` say about the queue. The producer may have moved the read
-- position, but then it has left values in the queue.
abbrev pub ConsumerOk : OverflowQueue → List ℕ → Consumer → Type 0
ConsumerOk q pending (Consumer.loaded r) =
    (r ≡ q.read_position) ⊎ ((r < q.read_position) × (0 < length pending))
ConsumerOk q pending (taking r) = (r ≤ q.read_position) × (0 < length pending)
ConsumerOk q pending (taken r v) = (0 < length pending) × IsCurrent q pending r v
ConsumerOk q pending _ = Unit

-- After at most `n` events: the published values are those returned by either thread, those that
-- lie in the cells from the read position up to the write position, and the one in hand.
pub record Inv (capacity n : ℕ) (q : OverflowQueue) (p : Producer) (c : Consumer)
    (pushed popped recycled : List ℕ) : Type 0 where
  pub pending : List ℕ
  pub same : q.capacity ≡ capacity
  pub room : length q.cells ≡ q.capacity + 1
  pub positions : q.write_position ≡ q.read_position + length pending
  pub steps : q.write_position ≤ n
  pub conserved :
      (a : ℕ)
      → count a pushed ≡ count a popped + count a recycled + count a pending + count a (in_hand q p)
  pub held : Holds 0 q.cells (q.capacity + 1) q.read_position pending
  pub producer : ProducerOk q pending p
  pub consumer : ConsumerOk q pending c

pub start-Inv : (capacity : ℕ) → Inv capacity 0 (new capacity) Producer.idle Consumer.idle [] [] []
unfolding new
start-Inv capacity = record {
  pending = [];
  same = refl;
  room = length-replicate (capacity + 1) 0;
  positions = omega arith;
  steps = omega arith;
  conserved = λ a. omega arith;
  held = tt;
  producer = omega arith;
  consumer = tt;
}

abbrev pub SystemInv : ℕ → ℕ → System → Type 0
SystemInv capacity n s = Inv capacity n s.queue s.producer s.consumer s.pushed s.popped s.recycled
