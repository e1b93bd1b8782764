-- ===== src/Memory/BumpAllocator.antt =====
-- elkodon_bb/memory/src/bump_allocator.rs: one piece of memory that is handed out from its start to
-- its end by any number of threads, one shared access at a time. A pointer is its address.
pub mod Apart
mod Tests
use iceoryx_in_rust.Prelude.{
  ℕ, zero, suc, ◌+◌, ◌-◌, Bool, true, false, not, List, [], ◌∷◌, ◌++◌, ◌==◌, ltb, ◌&&◌,
  if◌then◌else◌, get_or, set, replicate,
}
use iceoryx_in_rust.Prelude.Word.{add_usize, sub_usize}
use iceoryx_in_rust.Elementary.Math.{align}
use iceoryx_in_rust.Memory.PoolAllocator.{Layout}

pub record BumpAllocator : Type 0 where
  pub start : ℕ
  pub size : ℕ
  pub current_position : ℕ

pub new : ℕ → ℕ → BumpAllocator
new ptr size = record { start = ptr; size = size; current_position = 0 }

pub used_space : BumpAllocator → ℕ
used_space b = b.current_position

pub free_space : BumpAllocator → ℕ
unfolding used_space
free_space b = sub_usize b.size (used_space b)

pub data AllocationError : Type 0 where
  size_is_zero out_of_memory : AllocationError

-- The calls that have returned.
pub data Call : Type 0 where
  allocated : (layout : Layout) → (address : ℕ) → Call
  refused : (layout : Layout) → AllocationError → Call
  deallocated : Call

-- The locals of a call of `allocate`.
pub data Thread : Type 0 where
  outside : Thread
  loading : (layout : Layout) → Thread
  exchanging : (layout : Layout) → (current_position aligned_position : ℕ) → Thread

pub aligned_position_of : BumpAllocator → Layout → ℕ → ℕ
aligned_position_of b layout current_position =
    sub_usize (align (add_usize b.start current_position) layout.alignment) b.start

-- The head of the loop, for the position that was seen last.
pub attempt : BumpAllocator → Layout → ℕ → Thread × List Call
unfolding aligned_position_of
attempt b layout current_position =
    let aligned_position = aligned_position_of b layout current_position in
    if ltb b.size (add_usize aligned_position layout.size)
    then (outside, refused layout out_of_memory ∷ [])
    else (exchanging layout current_position aligned_position, [])

-- `compare_exchange_weak`, which may fail without a cause.
pub exchange : Bool → BumpAllocator → Layout → ℕ → ℕ → Thread × BumpAllocator × List Call
unfolding attempt
exchange fails b layout current_position aligned_position =
    let again = attempt b layout b.current_position in
    if not fails && (b.current_position == current_position)
    then (
      outside,
      record b { current_position = add_usize aligned_position layout.size },
      allocated layout (add_usize b.start aligned_position) ∷ [],
    )
    else (again.0, b, again.1)

pub advance : Bool → BumpAllocator → Thread → Thread × BumpAllocator × List Call
unfolding attempt exchange
advance fails b outside = (outside, b, [])
advance fails b (loading layout) =
    let first = attempt b layout b.current_position in (first.0, b, first.1)
advance fails b (exchanging layout current aligned) = exchange fails b layout current aligned

pub begin_allocate : Layout → Thread → Thread × List Call
begin_allocate layout outside =
    if layout.size == 0 then (outside, refused layout size_is_zero ∷ []) else (loading layout, [])
begin_allocate layout t = (t, [])

pub deallocate : BumpAllocator → BumpAllocator
deallocate b = record b { current_position = 0 }

pub data Event : Type 0 where
  call_allocate : (i : ℕ) → (layout : Layout) → Event
  access : (i : ℕ) → (fails : Bool) → Event
  call_deallocate : Event

pub record System : Type 0 where
  pub allocator : BumpAllocator
  pub threads : List Thread
  pub log : List Call

pub step : Event → System → System
unfolding begin_allocate advance deallocate
step (call_allocate i layout) x =
    let r = begin_allocate layout (get_or x.threads i outside) in
    record x { threads = set x.threads i r.0; log = r.1 ++ x.log }
step (access i fails) x =
    let r = advance fails x.allocator (get_or x.threads i outside) in
    record { allocator = r.1; threads = set x.threads i r.0; log = r.2 ++ x.log }
step call_deallocate x = record x { allocator = deallocate x.allocator; log = deallocated ∷ x.log }

pub run : List Event → System → System
unfolding step
run [] x = x
run (e ∷ es) x = run es (step e x)

pub begin : ℕ → ℕ → ℕ → System
unfolding new
begin n ptr size = record { allocator = new ptr size; threads = replicate n outside; log = [] }
