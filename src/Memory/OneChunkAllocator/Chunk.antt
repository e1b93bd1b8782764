-- ===== src/Memory/OneChunkAllocator/Chunk.antt =====
-- The chunk lies inside the memory as long as the alignment leaves room for it.
use iceoryx_in_rust.Prelude.{
  ℕ, ◌+◌, ◌-◌, ◌^◌, ◌≤◌, ◌<◌, ◌≡◌, refl, ◌∙◌, arith, eq→==, le→ltb, lt→leb,
}
use iceoryx_in_rust.Prelude.Word.{sub_usize}
use iceoryx_in_rust.Elementary.Math.{align}
use iceoryx_in_rust.Elementary.Math.Laws.{align_lem}
use iceoryx_in_rust.Memory.PoolAllocator.{Layout}
use iceoryx_in_rust.Memory.OneChunkAllocator.{
  OneChunkAllocator, ok, has_chunk_available, is_allocated_chunk, available_size, allocate, grow,
  shrink,
}

module _ (a : OneChunkAllocator) (layout : Layout) where
  -- A layout that Rust accepts, and memory that is not at the address 0 and ends below the top of the
  -- address space by more than the alignment.
  pub record Fits : Type 0 where
    pub positive : 0 < layout.alignment
    pub somewhere : 0 < a.start
    pub room : a.start + a.size + layout.alignment < 2 ^ 63

  -- The chunk that a free allocator has for this layout.
  abbrev pub chunk : OneChunkAllocator
  chunk = record a { allocated_chunk_start = align a.start layout.alignment }

  available_size-chunk : (address : ℕ) → available_size chunk address ≡ available_size a address
  unfolding available_size
  available_size-chunk address = refl

  available :
      Fits
      → align a.start layout.alignment ≤ a.start + a.size
      → (n : ℕ) × (available_size a (align a.start layout.alignment) ≡ n)
        × (align a.start layout.alignment + n ≡ a.start + a.size)
  unfolding available_size
  available fits inside =
      let (up, near, multiple) = align_lem a.start layout.alignment fits.positive in
      (
        a.start + a.size - align a.start layout.alignment,
        omega (arith, up, near, inside, fits.room),
        omega (arith, inside),
      )

  -- If the first aligned address lies behind the memory, and the layout asks for less than `2 ^ 63`
  -- bytes, `allocate` of a free allocator succeeds all the same: the subtraction wraps around, and the
  -- chunk begins behind the memory and is longer than `2 ^ 63` bytes.
  pub chunk_outside :
      Fits
      → a.allocated_chunk_start ≡ 0
      → layout.size < 2 ^ 63
      → a.start + a.size < align a.start layout.alignment
      → (n : ℕ) × (2 ^ 63 < n)
        × (allocate a layout ≡ (ok (align a.start layout.alignment) n, chunk))
  unfolding allocate has_chunk_available available_size
  chunk_outside fits free small behind =
      let (up, near, multiple) = align_lem a.start layout.alignment fits.positive in
      let address : ℕ = align a.start layout.alignment in
      let n : ℕ = 2 ^ 64 + (a.start + a.size) - address in
      let e : sub_usize a.size (sub_usize address a.start) ≡ n =
        omega (arith, up, near, behind, fits.room) in
      (
        n,
        omega (arith, near, fits.room),
        rw
            (
              eq→== a.allocated_chunk_start 0 free,
              e,
              lt→leb n layout.size (omega (arith, small, near, fits.room)),
            )
            refl,
      )

  -- While the chunk is handed out, `grow` of it to more than its old size, within the memory and
  -- without a larger alignment, leaves its address and makes all of the memory usable; `shrink` of it
  -- to less than its old size leaves its address and its end no later than before.
  pub grow-shrink :
      (old bigger smaller : Layout)
      → Fits
      → align a.start layout.alignment ≤ a.start + a.size
      → old.size < bigger.size
      → smaller.size < old.size
      → bigger.alignment ≤ old.alignment
      → smaller.alignment ≤ old.alignment
      → align a.start layout.alignment + bigger.size ≤ a.start + a.size
      → (n : ℕ) × (grow chunk (align a.start layout.alignment) old bigger
          ≡ ok (align a.start layout.alignment) n)
        × (align a.start layout.alignment + n ≡ a.start + a.size)
        × (shrink chunk (align a.start layout.alignment) old smaller
            ≡ ok (align a.start layout.alignment) smaller.size)
  unfolding grow shrink is_allocated_chunk
  grow-shrink old bigger smaller fits inside more less fine fine' room =
      let (n, e, whole) = available fits inside in
      let address : ℕ = align a.start layout.alignment in
      (
        n,
        rw
            (
              eq→== address address refl,
              lt→leb bigger.size old.size more,
              le→ltb old.alignment bigger.alignment fine,
              available_size-chunk address ∙ e,
              le→ltb n bigger.size (omega (arith, room, whole)),
            )
            refl,
        whole,
        rw
            (
              eq→== address address refl,
              lt→leb old.size smaller.size less,
              le→ltb old.alignment smaller.alignment fine',
            )
            refl,
      )
