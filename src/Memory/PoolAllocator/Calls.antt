-- ===== src/Memory/PoolAllocator/Calls.antt =====
-- `allocate`, `deallocate`, `grow` and `shrink` on every branch.
use native.Mathlib.Nat.{mul-div_cancel}
use iceoryx_in_rust.Prelude.{
  ℕ, suc, ◌+◌, ◌-◌, ◌*◌, ◌/◌, ◌≤◌, ◌<◌, ◌≡◌, refl, ◌∙◌, none, List, [], ◌∷◌, arith, ltb, le→ltb,
  if◌then◌else◌, Bool-cases, inl, inr,
}
use iceoryx_in_rust.Prelude.Word.{as_u32}
use iceoryx_in_rust.Outcome.{done}
use iceoryx_in_rust.LockFree.UniqueIndexSet.FreeList.{
  NotIn, take_first, acquire_raw_index_refines, release_raw_index_refines, released,
  release-released, released_capacity-Represents,
}
use iceoryx_in_rust.Memory.PoolAllocator.{
  PoolAllocator, Layout, Reply, ok, err, size_too_large, alignment_failure, out_of_memory, bucket,
  allocate, deallocate, release_found, get_index,
}
use iceoryx_in_rust.Memory.PoolAllocator.Buckets.{IsValid, get_index-bucket}

-- The first free bucket with the requested length, if there is one.
hand_out : PoolAllocator → Layout → List ℕ → Reply × List ℕ
hand_out p layout [] = (err out_of_memory, [])
hand_out p layout (v ∷ rest) = (ok (p.start + v * p.bucket_size) layout.size, rest)

-- What `allocate` promises on the list of free buckets: the reply, and the buckets that stay free.
unfoldable pub allocate_free : PoolAllocator → Layout → List ℕ → Reply × List ℕ
unfolding hand_out
allocate_free p layout free =
    if ltb p.bucket_size layout.size
    then (err size_too_large, free)
    else if ltb p.bucket_alignment layout.alignment
    then (err alignment_failure, free)
    else hand_out p layout free

hand_out_lem :
    (p : PoolAllocator) (layout : Layout) (free : List ℕ)
    → ((hand_out p layout free).0 ≡ bucket p layout (take_first free).0)
      × ((hand_out p layout free).1 ≡ (take_first free).1)
unfolding hand_out take_first
hand_out_lem p layout [] = (refl, refl)
hand_out_lem p layout (v ∷ rest) = (refl, refl)

-- What a call does not change.
abbrev pub SameMemory : PoolAllocator → PoolAllocator → Type 0
SameMemory p q =
    (q.start ≡ p.start)
    × (q.size ≡ p.size)
    × (q.bucket_size ≡ p.bucket_size)
    × (q.bucket_alignment ≡ p.bucket_alignment)
    × (q.buckets.capacity ≡ p.buckets.capacity)

-- On a valid pool with the free buckets `free`, with fuel for one round at least: `allocate` returns
-- `SizeTooLarge` if the requested size is larger than a bucket, otherwise `AlignmentFailure` if the
-- requested alignment is larger than that of the buckets, otherwise `OutOfMemory` if no bucket is
-- free, and in these cases the same buckets are free afterwards. Otherwise, with `v` the first free
-- bucket, it returns the address `start + v * bucket_size` and the requested size as the length, and
-- the other free buckets are free afterwards, in the same order. The pool stays valid, and its
-- memory, the sizes of its buckets and their number stay the same.
pub allocate_refines :
    (p : PoolAllocator) (free : List ℕ) (fuel : ℕ) (layout : Layout)
    → IsValid p free
    → (q : PoolAllocator) × (allocate (suc fuel) p layout
        ≡ done ((allocate_free p layout free).0, q))
      × IsValid q (allocate_free p layout free).1
      × SameMemory p q
unfolding allocate allocate_free
allocate_refines p free fuel layout h = elim (Bool-cases (ltb p.bucket_size layout.size)) [
  | inl large ↦ (p, rw (large, h.ready), rw large h, (refl, refl, refl, refl, refl))
  | inr small ↦ elim (Bool-cases (ltb p.bucket_alignment layout.alignment)) [
    | inl strict ↦
        (p, rw (small, strict, h.ready), rw (small, strict) h, (refl, refl, refl, refl, refl))
    | inr fits ↦
        let (s, e, r, c) = acquire_raw_index_refines p.buckets free fuel h.set_holds in
        let (reply, rest) = hand_out_lem p layout free in
        (
          record p { buckets = s },
          rw (small, fits, e, h.ready, reply),
          rw (small, fits, rest)
              (record {
                set_holds = r;
                ready = h.ready;
                positive = h.positive;
                inside = rw c h.inside;
              }),
          (refl, refl, refl, refl, c),
        )
  ]
]

-- `deallocate` of a bucket that is not free makes it the next one to be handed out.
pub deallocate_refines :
    (p : PoolAllocator) (free : List ℕ) (fuel v : ℕ)
    → IsValid p free
    → v < p.buckets.capacity
    → NotIn v free
    → (q : PoolAllocator) × (deallocate (suc fuel) p (p.start + v * p.bucket_size) ≡ done (none, q))
      × IsValid q (v ∷ free)
      × SameMemory p q
unfolding deallocate release_found
deallocate_refines p free fuel v h below out =
    let (s, e, r, c) = release_raw_index_refines p.buckets free fuel v h.set_holds below out in
    (
      record p { buckets = s },
      rw (get_index-bucket p free v h below, release_found) (rw (e, h.ready)),
      record { set_holds = r; ready = h.ready; positive = h.positive; inside = rw c h.inside },
      (refl, refl, refl, refl, c),
    )

-- What `allocate` hands out and `deallocate` takes back is free again, in its old place: after both
-- calls the same buckets are free, in the same order.
pub deallocate-allocate :
    (p : PoolAllocator) (v : ℕ) (rest : List ℕ) (fuel : ℕ) (layout : Layout)
    → IsValid p (v ∷ rest)
    → layout.size ≤ p.bucket_size
    → layout.alignment ≤ p.bucket_alignment
    → (q r : PoolAllocator) × (allocate (suc fuel) p layout
        ≡ done (ok (p.start + v * p.bucket_size) layout.size, q))
      × (deallocate (suc fuel) q (p.start + v * p.bucket_size) ≡ done (none, r))
      × IsValid r (v ∷ rest)
      × SameMemory p r
unfolding allocate_free hand_out
deallocate-allocate p v rest fuel layout h small loose =
    let a = le→ltb p.bucket_size layout.size small in
    let b = le→ltb p.bucket_alignment layout.alignment loose in
    let (q, e, q_valid, same) = allocate_refines p (v ∷ rest) fuel layout h in
    let (start, size, bucket_size, alignment, capacity) = same in
    let q_holds : IsValid q rest = rw (a, b) at q_valid in
    let (r, f, r_valid, again) =
      deallocate_refines q rest fuel v q_holds (omega (arith, capacity, h.set_holds.chain.1))
        h.set_holds.unique.0 in
    (
      q,
      r,
      rw (a, b) at e,
      rw (start, bucket_size) at f,
      r_valid,
      (
        again.0 ∙ start,
        again.1 ∙ size,
        again.2 ∙ bucket_size,
        again.3 ∙ alignment,
        again.4 ∙ capacity,
      ),
    )

-- If the buckets fill the memory exactly, the pointer right behind the memory passes the check of
-- `get_index`. `deallocate` accepts it, reports success, and leaves a pool without any free bucket.
pub deallocate_end_empties :
    (p : PoolAllocator) (free : List ℕ) (fuel : ℕ)
    → IsValid p free
    → p.size ≡ p.buckets.capacity * p.bucket_size
    → (q : PoolAllocator) × (deallocate (suc fuel) p (p.start + p.size) ≡ done (none, q))
      × IsValid q []
unfolding deallocate release_found get_index
deallocate_end_empties p free fuel h full =
    let s = p.buckets in
    let d : s.capacity * p.bucket_size / p.bucket_size ≡ s.capacity =
      mul-div_cancel s.capacity h.positive in
    let q : p.start + s.capacity * p.bucket_size - p.start ≡ s.capacity * p.bucket_size =
      omega arith in
    let small : as_u32 s.capacity ≡ s.capacity = omega (arith, h.set_holds.small) in
    (
      record p { buckets = released s s.capacity },
      rw
          (
            full,
            le→ltb (p.start + s.capacity * p.bucket_size) p.start (omega arith),
            le→ltb (p.start + s.capacity * p.bucket_size) (p.start + s.capacity * p.bucket_size)
                (omega arith),
            q,
            d,
            small,
          )
          (rw (release-released s fuel s.capacity free h.set_holds h.set_holds.room, h.ready)),
      record {
        set_holds = released_capacity-Represents s free h.set_holds;
        ready = h.ready;
        positive = h.positive;
        inside = h.inside;
      },
    )
