-- ===== src/Memory/PoolAllocator/Buckets.antt =====
-- Where the buckets lie: inside the memory, apart from one another, and found again by `get_index`.
use native.Mathlib.Nat.{mul-div_cancel, mul-div-le}
use iceoryx_in_rust.Prelude.{
  ℕ, ◌+◌, ◌-◌, ◌*◌, ◌/◌, ◌^◌, ◌≤◌, ◌<◌, ◌≡◌, refl, true, some, List, arith, le→ltb,
}
use iceoryx_in_rust.Prelude.Word.{as_u32, sub_usize}
use iceoryx_in_rust.Outcome.{done}
use iceoryx_in_rust.Elementary.Math.{align}
use iceoryx_in_rust.Elementary.Math.Laws.{align_lem}
use iceoryx_in_rust.LockFree.UniqueIndexSet.FreeList
use iceoryx_in_rust.LockFree.UniqueIndexSet.FreeList.{upto, init-Represents}
use iceoryx_in_rust.Memory.PoolAllocator.{
  PoolAllocator, Layout, calc_number_of_buckets, new_uninit, init, get_index,
}

-- The buckets `free` are free, and all buckets lie in the `size` bytes from `start` on.
pub record IsValid (p : PoolAllocator) (free : List ℕ) : Type 0 where
  pub set_holds : FreeList.Represents p.buckets free
  pub ready : p.is_memory_initialized ≡ true
  pub positive : 0 < p.bucket_size
  pub inside : p.buckets.capacity * p.bucket_size ≤ p.size

-- `get_index` finds the index of every bucket from its address.
pub get_index-bucket :
    (p : PoolAllocator) (free : List ℕ) (v : ℕ)
    → IsValid p free
    → v < p.buckets.capacity
    → get_index p (p.start + v * p.bucket_size) ≡ some v
unfolding get_index
get_index-bucket p free v h below =
    let reach : v * p.bucket_size ≤ p.size = grind (arith, h.inside) in
    let q : (p.start + v * p.bucket_size - p.start) ≡ v * p.bucket_size = omega arith in
    let d : v * p.bucket_size / p.bucket_size ≡ v = mul-div_cancel v h.positive in
    let small : as_u32 v ≡ v = omega (arith, h.set_holds.small) in
    rw (
      le→ltb (p.start + v * p.bucket_size) p.start (omega arith),
      le→ltb (p.start + p.size) (p.start + v * p.bucket_size) (omega arith),
      q,
      d,
      small,
    )

-- Each bucket lies in the memory of the allocator, and a bucket with a larger index begins behind the
-- end of one with a smaller index.
pub buckets_apart :
    (p : PoolAllocator) (free : List ℕ) (v w : ℕ)
    → IsValid p free
    → v < w
    → w < p.buckets.capacity
    → (p.start + v * p.bucket_size + p.bucket_size ≤ p.start + w * p.bucket_size)
      × (p.start + w * p.bucket_size + p.bucket_size ≤ p.start + p.size)
buckets_apart p free v w h less below = (grind arith, grind (arith, h.inside))

module _ (layout : Layout) (ptr size : ℕ) (positive : 0 < layout.size)
    (aligned : 0 < layout.alignment) (word : ptr + size < 2 ^ 64)
    (room : align ptr layout.alignment ≤ ptr + size) where
  buckets_fit :
      align ptr layout.alignment + calc_number_of_buckets layout ptr size * layout.size ≤ ptr + size
  unfolding calc_number_of_buckets
  buckets_fit =
      let e : sub_usize (ptr + size) (align ptr layout.alignment)
          ≡ ptr + size - align ptr layout.alignment =
        omega arith in
      rw e (
        grind (
          arith,
          mul-div-le (ptr + size - align ptr layout.alignment) (align layout.size layout.alignment),
          align_lem layout.size layout.alignment aligned,
        ))

  -- A pool allocator over `size` bytes at `ptr`, where the aligned address is not behind them, with
  -- its management memory granted, holds all of its buckets, and they end where the memory ends at
  -- the latest.
  pub init-IsValid :
      calc_number_of_buckets layout ptr size + 1 < 2 ^ 32
      → (p : PoolAllocator) × (init (new_uninit layout ptr size) true ≡ done (true, p))
        × IsValid p (upto 0 (calc_number_of_buckets layout ptr size))
        × (p.start + p.buckets.capacity * p.bucket_size ≤ ptr + size)
        × (p.bucket_size ≡ layout.size)
        × (p.bucket_alignment ≡ layout.alignment)
        × (p.start ≡ align ptr layout.alignment)
  unfolding init new_uninit
  init-IsValid small =
      let (s, e, r, c) = init-Represents (calc_number_of_buckets layout ptr size) small in
      let fit : align ptr layout.alignment + s.capacity * layout.size ≤ ptr + size =
        rw c buckets_fit in
      (
        record {
          buckets = s;
          bucket_size = layout.size;
          bucket_alignment = layout.alignment;
          start = align ptr layout.alignment;
          size = size;
          is_memory_initialized = true;
        },
        rw e,
        record {
          set_holds = r;
          ready = refl;
          positive = positive;
          inside = omega (arith, align_lem ptr layout.alignment aligned);
        },
        fit,
        refl,
        refl,
        refl,
      )
