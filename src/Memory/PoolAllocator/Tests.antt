-- ===== src/Memory/PoolAllocator/Tests.antt =====
-- The laws of the pool allocator at a pool of three buckets of 8 bytes, of which the first is taken.
use iceoryx_in_rust.Prelude.{
  ℕ, ◌+◌, ◌*◌, ◌%◌, ◌<◌, ◌≤◌, ◌⊎◌, ◌↔◌, ◌≡◌, refl, true, none, [], ◌∷◌, arith,
}
use iceoryx_in_rust.Outcome.{done}
use iceoryx_in_rust.LockFree.UniqueIndexSet
use iceoryx_in_rust.Memory.PoolAllocator.{
  Layout, PoolAllocator, ok, new_uninit, allocate, deallocate,
}
use iceoryx_in_rust.Memory.PoolAllocator.Buckets.{IsValid}
use iceoryx_in_rust.Memory.PoolAllocator.Alignment.{buckets_aligned_iff}
use iceoryx_in_rust.Memory.PoolAllocator.Calls.{
  SameMemory, allocate_free, allocate_refines, deallocate_refines, deallocate-allocate,
  deallocate_end_empties,
}

abbrev layout : Layout
layout = record { size = 8; alignment = 8 }

abbrev pool : PoolAllocator
pool = record {
  buckets = record {
    next_free = 4 ∷ 2 ∷ 3 ∷ 4 ∷ [];
    capacity = 3;
    head = 4294967297;
    is_memory_initialized = true;
  };
  bucket_size = 8;
  bucket_alignment = 8;
  start = 64;
  size = 24;
  is_memory_initialized = true;
}

pool-IsValid : IsValid pool (1 ∷ 2 ∷ [])
pool-IsValid = record {
  set_holds = record {
    room = omega arith;
    ready = refl;
    small = omega arith;
    word = omega arith;
    chain = (refl, omega arith, (refl, omega arith, (omega arith, omega arith)));
    unique = ((omega arith, tt), (tt, tt));
  };
  ready = refl;
  positive = omega arith;
  inside = omega arith;
}

allocate_refines_example :
    (q : PoolAllocator) × (allocate 1 pool layout
      ≡ done ((allocate_free pool layout (1 ∷ 2 ∷ [])).0, q))
    × IsValid q (allocate_free pool layout (1 ∷ 2 ∷ [])).1
    × SameMemory pool q
allocate_refines_example = allocate_refines pool (1 ∷ 2 ∷ []) 0 layout pool-IsValid

deallocate_refines_example :
    (q : PoolAllocator) × (deallocate 1 pool (64 + 0 * 8) ≡ done (none, q))
    × IsValid q (0 ∷ 1 ∷ 2 ∷ [])
    × SameMemory pool q
deallocate_refines_example =
    deallocate_refines pool (1 ∷ 2 ∷ []) 0 0 pool-IsValid (omega arith)
      (omega arith, (omega arith, tt))

deallocate-allocate_example :
    (q r : PoolAllocator) × (allocate 1 pool layout ≡ done (ok (64 + 1 * 8) 8, q))
    × (deallocate 1 q (64 + 1 * 8) ≡ done (none, r))
    × IsValid r (1 ∷ 2 ∷ [])
    × SameMemory pool r
deallocate-allocate_example =
    deallocate-allocate pool 1 (2 ∷ []) 0 layout pool-IsValid (omega arith) (omega arith)

deallocate_end_empties_example :
    (q : PoolAllocator) × (deallocate 1 pool (64 + 24) ≡ done (none, q)) × IsValid q []
deallocate_end_empties_example = deallocate_end_empties pool (1 ∷ 2 ∷ []) 0 pool-IsValid refl

-- 12 is no multiple of 8. From the address 60 on, 36 bytes have room for two buckets.
abbrev uneven : Layout
uneven = record { size = 12; alignment = 8 }

buckets_aligned_iff_example :
    ((v : ℕ)
      → v < (new_uninit uneven 60 36).buckets.capacity
      → ((new_uninit uneven 60 36).start + v * (new_uninit uneven 60 36).bucket_size) % 8 ≡ 0)
    ↔ (((new_uninit uneven 60 36).buckets.capacity ≤ 1) ⊎ (12 % 8 ≡ 0))
buckets_aligned_iff_example = buckets_aligned_iff uneven 60 36 (omega arith)

two_buckets : (new_uninit uneven 60 36).buckets.capacity ≡ 2
unfolding new_uninit UniqueIndexSet.new_uninit iceoryx_in_rust.Elementary.Math.align
two_buckets = refl
