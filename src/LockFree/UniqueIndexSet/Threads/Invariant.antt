-- ===== src/LockFree/UniqueIndexSet/Threads/Invariant.antt =====
-- What holds between two accesses of the threads that share an index set, and what a change of the
-- set means for the threads that did not make it.
use iceoryx_in_rust.Prelude.{
  ℕ, ◌+◌, ◌/◌, ◌%◌, ◌^◌, ◌≤◌, ◌<◌, ◌≡◌, ◌≢◌, ◌⊎◌, inl, inr, refl, sym, ◌∙◌, ap, subst, List, [],
  ◌∷◌, arith, length, get_or, set, ltb, lt→ltb, le→ltb, ◌==◌, eq→==, ℕ_discrete, dec_lt,
  if◌then◌else◌, get_or-set_ne,
}
use iceoryx_in_rust.Sync.Family.{total, get-le_total, Every}
use iceoryx_in_rust.LockFree.UniqueIndexSet.{UniqueIndexSet}
use iceoryx_in_rust.LockFree.UniqueIndexSet.FreeList.{Chain, NotIn}
use iceoryx_in_rust.LockFree.UniqueIndexSet.Clients.{count}
use iceoryx_in_rust.LockFree.UniqueIndexSet.Threads.{
  Thread, outside, reading, exchanging, detaching, holding, releasing, linking, returning,
}

-- The index in a packed word.
abbrev pub hd : ℕ → ℕ
hd word = word / 2 ^ 32 % 2 ^ 32

-- How often a thread owns the index `i`.
abbrev pub owns : ℕ → Thread → ℕ
owns i (detaching index) = if i == index then 1 else 0
owns i (holding index) = if i == index then 1 else 0
owns i (releasing index) = if i == index then 1 else 0
owns i (linking index old) = if i == index then 1 else 0
owns i (returning index old) = if i == index then 1 else 0
owns i _ = 0

pub owns_single : (i : ℕ) (t : Thread) → owns i t ≤ 1
owns_single i (detaching index) = ground arith
owns_single i (holding index) = ground arith
owns_single i (releasing index) = ground arith
owns_single i (linking index old) = ground arith
owns_single i (returning index old) = ground arith
owns_single i _ = omega arith

-- The head word has grown since it was `old`, or it still is.
abbrev pub Fresh : UniqueIndexSet → ℕ → Type 0
Fresh s old = (old % 2 ^ 32 < s.head % 2 ^ 32) ⊎ (old ≡ s.head)

abbrev pub Linked : UniqueIndexSet → ℕ → ℕ → Type 0
Linked s old new_head =
    (old % 2 ^ 32 < s.head % 2 ^ 32) ⊎ ((old ≡ s.head) × (new_head ≡ get_or s.next_free (hd old) 0))

-- What the locals of a call say: as long as the head is unchanged, so is what was read behind it.
abbrev pub Ok : UniqueIndexSet → Thread → Type 0
Ok s (reading old) = (hd old < s.capacity) × Fresh s old
Ok s (exchanging old new_head) = (hd old < s.capacity) × Linked s old new_head
Ok s (linking index old) = Fresh s old
Ok s (returning index old) = Fresh s old × (get_or s.next_free index 0 ≡ hd old)
Ok s _ = Unit

-- After at most `steps` events: the links lead through the free indices, and each index below the
-- capacity is free once or owned by one thread.
pub record Inv (capacity steps : ℕ) (s : UniqueIndexSet) (ts : List Thread) : Type 0 where
  pub free : List ℕ
  pub same : s.capacity ≡ capacity
  pub small : capacity + 1 < 2 ^ 32
  pub room : capacity < length s.next_free
  pub word : s.head < 2 ^ 64
  pub counter : s.head % 2 ^ 32 ≤ steps
  pub chain : Chain s.next_free s.capacity (hd s.head) free
  pub owner : (i : ℕ) → count i free + total (owns i) ts ≡ (if ltb i capacity then 1 else 0)
  pub threads : Every (Ok s) ts

-- The head is the first free index.
pub first_free :
    (s : UniqueIndexSet) (free : List ℕ)
    → Chain s.next_free s.capacity (hd s.head) free
    → hd s.head < s.capacity
    → (rest : List ℕ) × (free ≡ hd s.head ∷ rest)
first_free s [] c below = absurd (omega (arith, c.0, below))
first_free s (x ∷ rest) c below = let (e, _, _) = c in (rest, rw e refl)

-- Another thread writes the cell of an index that it owns.
pub written-Ok :
    (s : UniqueIndexSet) (free : List ℕ) (j v : ℕ)
    → Chain s.next_free s.capacity (hd s.head) free
    → NotIn j free
    → (t : Thread) → owns j t ≡ 0
    → Ok s t
    → Ok (record s { next_free = set s.next_free j v }) t
written-Ok s free j v c out outside other ok = tt
written-Ok s free j v c out Thread.acquiring other ok = tt
written-Ok s free j v c out (reading old) other ok = ok
written-Ok s free j v c out (exchanging old new_head) other (below, inl stale) = (below, inl stale)
written-Ok s free j v c out (exchanging old new_head) other (below, inr (now, e)) =
    (below, inr (now, e ∙ sym (get_or-set_ne s.next_free j (hd old) v 0 apart)))
  where
    go : (rest : List ℕ) → NotIn j (hd s.head ∷ rest) → j ≢ hd old
    go rest h = rw now h.0

    apart : j ≢ hd old
    apart = let (rest, f) = first_free s free c (rw now at below) in go rest (subst (NotIn j) f out)
written-Ok s free j v c out (detaching index) other ok = tt
written-Ok s free j v c out (holding index) other ok = tt
written-Ok s free j v c out (releasing index) other ok = tt
written-Ok s free j v c out (linking index old) other ok = ok
written-Ok s free j v c out (returning index old) other (fresh, e) = (
  fresh,
  elim (ℕ_discrete j index) [
    | yes same ↦ absurd (omega (arith, rw (eq→== j index same) at other))
    | no apart ↦ get_or-set_ne s.next_free j index v 0 apart ∙ e
  ],
)

-- Another thread exchanges the head.
pub exchanged-Ok :
    (s s' : UniqueIndexSet)
    → s'.capacity ≡ s.capacity
    → s'.next_free ≡ s.next_free
    → s.head % 2 ^ 32 < s'.head % 2 ^ 32
    → (t : Thread) → Ok s t
    → Ok s' t
exchanged-Ok s s' c n grows outside ok = tt
exchanged-Ok s s' c n grows Thread.acquiring ok = tt
exchanged-Ok s s' c n grows (reading old) ok = (omega (arith, c, ok.0), inl (older ok.1))
  where
    older : Fresh s old → old % 2 ^ 32 < s'.head % 2 ^ 32
    older (inl stale) = omega arith
    older (inr now) = omega (arith, now, grows)
exchanged-Ok s s' c n grows (exchanging old new_head) ok =
    (omega (arith, c, ok.0), inl (older ok.1))
  where
    older : Linked s old new_head → old % 2 ^ 32 < s'.head % 2 ^ 32
    older (inl stale) = omega arith
    older (inr (now, e)) = omega (arith, now, grows)
exchanged-Ok s s' c n grows (detaching index) ok = tt
exchanged-Ok s s' c n grows (holding index) ok = tt
exchanged-Ok s s' c n grows (releasing index) ok = tt
exchanged-Ok s s' c n grows (linking index old) ok = inl (older ok)
  where
    older : Fresh s old → old % 2 ^ 32 < s'.head % 2 ^ 32
    older (inl stale) = omega arith
    older (inr now) = omega (arith, now, grows)
exchanged-Ok s s' c n grows (returning index old) ok =
    (inl (older ok.0), ap (λ xs. get_or xs index 0) n ∙ ok.1)
  where
    older : Fresh s old → old % 2 ^ 32 < s'.head % 2 ^ 32
    older (inl stale) = omega arith
    older (inr now) = omega (arith, now, grows)

-- An index that thread `i` owns is owned by nobody else, not free, and below the capacity.
pub owned :
    {capacity steps : ℕ} (s : UniqueIndexSet) (ts : List Thread) (i j : ℕ)
    (inv : Inv capacity steps s ts)
    → i < length ts
    → owns j (get_or ts i outside) ≡ 1
    → (j < capacity) × (count j inv.free ≡ 0) × (total (owns j) ts ≡ owns j (get_or ts i outside))
owned {capacity} s ts i j inv there mine = elim (dec_lt j capacity) [
  | yes below ↦
      let o = rw (lt→ltb j capacity below) at (inv.owner j) in
      (below, omega (arith, o, at_least, mine), omega (arith, o, at_least, mine))
  | no above ↦ absurd (
      omega (arith, rw (le→ltb j capacity (omega (arith, above))) at (inv.owner j), at_least, mine))
]
  where
    at_least : owns j (get_or ts i outside) ≤ total (owns j) ts
    at_least = get-le_total (owns j) outside ts i there
