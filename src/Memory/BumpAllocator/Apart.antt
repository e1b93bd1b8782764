-- ===== src/Memory/BumpAllocator/Apart.antt =====
-- The chunks that have been handed out lie one behind the other.
use iceoryx_in_rust.Prelude.{
  ℕ, ◌+◌, ◌-◌, ◌%◌, ◌^◌, ◌≤◌, ◌<◌, ◌≡◌, refl, sym, subst, Bool, true, false, List, [], ◌∷◌, ◌++◌,
  arith, eq→==, ne→==, lt→ltb, le→ltb, dec_lt, ℕ_discrete, get_or, set,
}
use iceoryx_in_rust.Prelude.Word.{add_usize}
use iceoryx_in_rust.Sync.Family.{Every, Every-get_or, Every-set, Every-replicate}
use iceoryx_in_rust.Elementary.Math.{align}
use iceoryx_in_rust.Elementary.Math.Laws.{align_lem}
use iceoryx_in_rust.Memory.PoolAllocator.{Layout}
use iceoryx_in_rust.Memory.BumpAllocator.{
  BumpAllocator, Call, allocated, refused, deallocated, Thread, outside, loading, exchanging,
  aligned_position_of, attempt, exchange, advance, begin_allocate, deallocate, Event, call_allocate,
  access, call_deallocate, System, step, run, begin, new, size_is_zero,
}

-- The chunks since the last `deallocate`, the latest first: each is aligned as it was asked for, lies
-- from `first` on, and ends at `top` or before, where the chunk that was handed out next begins.
unfoldable pub Stacked : ℕ → List Call → ℕ → Type 0
Stacked first [] top = Unit
Stacked first (allocated layout address ∷ log) top =
    (first ≤ address)
    × (address % layout.alignment ≡ 0)
    × (address + layout.size ≤ top)
    × Stacked first log address
Stacked first (refused layout error ∷ log) top = Stacked first log top
Stacked first (deallocated ∷ log) top = Unit

Stacked-wider :
    (first : ℕ) (log : List Call) (top above : ℕ)
    → top ≤ above
    → Stacked first log top
    → Stacked first log above
unfolding Stacked
Stacked-wider first [] top above h s = tt
Stacked-wider first (allocated layout address ∷ log) top above h (low, fits, ends, rest) =
    (low, fits, omega (arith, ends, h), rest)
Stacked-wider first (refused layout error ∷ log) top above h s =
    Stacked-wider first log top above h s
Stacked-wider first (deallocated ∷ log) top above h s = tt

-- A layout that Rust accepts, in an address space that the memory does not fill.
pub record IsLayout (first size : ℕ) (layout : Layout) : Type 0 where
  pub positive : 0 < layout.alignment
  pub room : first + size + layout.alignment < 2 ^ 63
  pub small : layout.size < 2 ^ 63

module _ (first size : ℕ) where
  abbrev pub EventOk : Event → Type 0
  EventOk (call_allocate i layout) = IsLayout first size layout
  EventOk _ = Unit

  -- What the locals say: an aligned position behind the position that was read, and the chunk fits.
  abbrev Ok : Thread → Type 0
  Ok outside = Unit
  Ok (loading layout) = IsLayout first size layout
  Ok (exchanging layout current aligned) =
      IsLayout first size layout
      × (current ≤ aligned)
      × (aligned + layout.size ≤ size)
      × ((first + aligned) % layout.alignment ≡ 0)

  record Inv (x : System) : Type 0 where
    same_start : x.allocator.start ≡ first
    same_size : x.allocator.size ≡ size
    inside : x.allocator.current_position ≤ size
    threads_ok : Every Ok x.threads
    stacked : Stacked first x.log (first + x.allocator.current_position)
    below : first + size < 2 ^ 63

  -- The next aligned position, counted from the start.
  aligned_position :
      (b : BumpAllocator) (layout : Layout)
      → b.start ≡ first
      → b.current_position ≤ size
      → IsLayout first size layout
      → (p : ℕ) × (aligned_position_of b layout b.current_position ≡ p)
        × (b.current_position ≤ p)
        × (p < b.current_position + layout.alignment)
        × ((first + p) % layout.alignment ≡ 0)
  unfolding aligned_position_of
  aligned_position b layout e within ok =
      let pos = b.current_position in
      let g : add_usize b.start pos ≡ first + pos = omega (arith, e, within, ok.room) in
      let (up, near, multiple) = align_lem (first + pos) layout.alignment ok.positive in
      let found : ℕ = align (first + pos) layout.alignment in
      let back : first + (found - first) ≡ found = omega (arith, up) in
      (
        found - first,
        rw g (omega (arith, e, up, near, within, ok.room)),
        omega (arith, up),
        omega (arith, near, up),
        rw back multiple,
      )

  attempt-Ok :
      (b : BumpAllocator) (layout : Layout)
      → b.start ≡ first
      → b.size ≡ size
      → b.current_position ≤ size
      → IsLayout first size layout
      → Ok (attempt b layout b.current_position).0
        × ((log : List Call) (top : ℕ)
            → Stacked first log top
            → Stacked first ((attempt b layout b.current_position).1 ++ log) top)
  unfolding attempt Stacked
  attempt-Ok b layout e f within ok =
      let (p, g, up, near, multiple) = aligned_position b layout e within ok in
      let h : add_usize p layout.size ≡ p + layout.size =
        omega (arith, near, within, ok.room, ok.small) in
      elim (dec_lt b.size (p + layout.size)) [
        | yes full ↦ rw (g, h, lt→ltb b.size (p + layout.size) full) (tt, λ log top s. s)
        | no fits ↦
            rw (g, h, le→ltb b.size (p + layout.size) (omega (arith, fits)))
              ((ok, up, omega (arith, fits, f), multiple), λ log top s. s)
      ]

  module _ (x : System) (inv : Inv x) where
    -- A step of a thread that leaves the memory as it is.
    local-Inv :
        (i : ℕ) (t : Thread) (calls : List Call)
        → Ok t
        → ((log : List Call) (top : ℕ) → Stacked first log top → Stacked first (calls ++ log) top)
        → Inv (record x { threads = set x.threads i t; log = calls ++ x.log })
    local-Inv i t calls ok keeps = record {
      same_start = inv.same_start;
      same_size = inv.same_size;
      inside = inv.inside;
      threads_ok = Every-set Ok x.threads i t ok inv.threads_ok;
      stacked = keeps x.log (first + x.allocator.current_position) inv.stacked;
      below = inv.below;
    }

    again-Inv :
        (i : ℕ) (layout : Layout)
        → IsLayout first size layout
        → Inv (record x {
          threads = set x.threads i (attempt x.allocator layout x.allocator.current_position).0;
          log = (attempt x.allocator layout x.allocator.current_position).1 ++ x.log;
        })
    again-Inv i layout ok =
        let (fine, keeps) =
          attempt-Ok x.allocator layout inv.same_start inv.same_size inv.inside ok in
        local-Inv i (attempt x.allocator layout x.allocator.current_position).0 _ fine keeps

    -- The exchange that succeeds puts a chunk on top of the others.
    granted-Inv :
        (i : ℕ) (layout : Layout) (aligned : ℕ)
        → Ok (exchanging layout x.allocator.current_position aligned)
        → Inv (record {
          allocator = record x.allocator { current_position = add_usize aligned layout.size };
          threads = set x.threads i outside;
          log = allocated layout (add_usize x.allocator.start aligned) ∷ x.log;
        })
    unfolding Stacked
    granted-Inv i layout aligned (ok, up, fits, multiple) =
        let h : add_usize aligned layout.size ≡ aligned + layout.size =
          omega (arith, fits, ok.room) in
        let g : add_usize x.allocator.start aligned ≡ first + aligned =
          omega (arith, fits, ok.room, inv.same_start) in
        rw (h, g)
          record {
            same_start = inv.same_start;
            same_size = inv.same_size;
            inside = fits;
            threads_ok = Every-set Ok x.threads i outside tt inv.threads_ok;
            stacked = (
              omega arith,
              multiple,
              omega arith,
              Stacked-wider first x.log (first + x.allocator.current_position) (first + aligned)
                  (omega (arith, up)) inv.stacked,
            );
            below = inv.below;
          }

    exchange-Inv :
        (i : ℕ) (fails : Bool) (layout : Layout) (current aligned : ℕ)
        → Ok (exchanging layout current aligned)
        → Inv (record {
          allocator = (exchange fails x.allocator layout current aligned).1;
          threads = set x.threads i (exchange fails x.allocator layout current aligned).0;
          log = (exchange fails x.allocator layout current aligned).2 ++ x.log;
        })
    unfolding exchange
    exchange-Inv i true layout current aligned ok = again-Inv i layout ok.0
    exchange-Inv i false layout current aligned ok =
        elim (ℕ_discrete x.allocator.current_position current) [
          | yes same ↦ rw (eq→== x.allocator.current_position current same) (
              granted-Inv i layout aligned
                (subst (λ k. Ok (exchanging layout k aligned)) (sym same) ok))
          | no other ↦
              rw (ne→== x.allocator.current_position current other) (again-Inv i layout ok.0)
        ]

    advance-Inv :
        (i : ℕ) (fails : Bool) (t : Thread)
        → Ok t
        → Inv (record {
          allocator = (advance fails x.allocator t).1;
          threads = set x.threads i (advance fails x.allocator t).0;
          log = (advance fails x.allocator t).2 ++ x.log;
        })
    unfolding advance
    advance-Inv i fails outside ok = local-Inv i outside [] tt (λ log top s. s)
    advance-Inv i fails (loading layout) ok = again-Inv i layout ok
    advance-Inv i fails (exchanging layout current aligned) ok =
        exchange-Inv i fails layout current aligned ok

    begin_allocate-Inv :
        (i : ℕ) (layout : Layout) (t : Thread)
        → IsLayout first size layout
        → Ok t
        → Inv (record x {
          threads = set x.threads i (begin_allocate layout t).0;
          log = (begin_allocate layout t).1 ++ x.log;
        })
    unfolding begin_allocate Stacked
    begin_allocate-Inv i layout outside fine ok = elim (ℕ_discrete layout.size 0) [
      | yes none_asked ↦
          rw (eq→== layout.size 0 none_asked)
            (local-Inv i outside (refused layout size_is_zero ∷ []) tt (λ log top s. s))
      | no some_asked ↦
          rw (ne→== layout.size 0 some_asked)
            (local-Inv i (loading layout) [] fine (λ log top s. s))
    ]
    begin_allocate-Inv i layout (loading other) fine ok =
        local-Inv i (loading other) [] ok (λ log top s. s)
    begin_allocate-Inv i layout (exchanging other current aligned) fine ok =
        local-Inv i (exchanging other current aligned) [] ok (λ log top s. s)

    step-Inv : (e : Event) → EventOk e → Inv (step e x)
    unfolding step deallocate Stacked
    step-Inv (call_allocate i layout) fine =
        begin_allocate-Inv i layout (get_or x.threads i outside) fine
          (Every-get_or Ok outside x.threads i tt inv.threads_ok)
    step-Inv (access i fails) fine =
        advance-Inv i fails (get_or x.threads i outside)
          (Every-get_or Ok outside x.threads i tt inv.threads_ok)
    step-Inv call_deallocate fine = record {
      same_start = inv.same_start;
      same_size = inv.same_size;
      inside = omega arith;
      threads_ok = inv.threads_ok;
      stacked = tt;
      below = inv.below;
    }

  run-Inv : (es : List Event) (x : System) → Every EventOk es → Inv x → Inv (run es x)
  unfolding run Every
  run-Inv [] x fine inv = inv
  run-Inv (e ∷ es) x fine inv = run-Inv es (step e x) fine.1 (step-Inv x inv e fine.0)

  begin-Inv : (n : ℕ) → first + size < 2 ^ 63 → Inv (begin n first size)
  unfolding begin new Stacked
  begin-Inv n below = record {
    same_start = refl;
    same_size = refl;
    inside = omega arith;
    threads_ok = Every-replicate Ok outside n tt;
    stacked = tt;
    below = below;
  }

  -- However the accesses of any number of threads are ordered, and whichever exchanges fail without a
  -- cause: the chunks that a new allocator has handed out since the last `deallocate` have the alignment
  -- and the size that was asked for, lie inside the memory, and no two of them overlap.
  pub chunks_apart :
      (n : ℕ) (es : List Event)
      → first + size < 2 ^ 63
      → Every EventOk es
      → Stacked first (run es (begin n first size)).log (first + size)
  chunks_apart n es below fine =
      let inv = run-Inv es (begin n first size) fine (begin-Inv n below) in
      Stacked-wider first (run es (begin n first size)).log
        (first + (run es (begin n first size)).allocator.current_position) (first + size)
        (omega (arith, inv.inside)) inv.stacked
