-- ===== src/Memory/PoolAllocator/Alignment.antt =====
-- Whether the buckets have the alignment of the layout that the pool was made for.
use native.Mathlib.Nat.{mod-add-mod}
use iceoryx_in_rust.Prelude.{
  ℕ, zero, suc, ◌+◌, ◌*◌, ◌%◌, ◌<◌, ◌≤◌, ◌≡◌, ◌↔◌, ◌⊎◌, inl, inr, dec_lt, sym, ◌∙◌, ap, arith,
}
use iceoryx_in_rust.Elementary.Math.{align}
use iceoryx_in_rust.Elementary.Math.Laws.{align_lem}
use iceoryx_in_rust.Memory.PoolAllocator.{Layout, new_uninit}

-- A multiple of the alignment does not change the residue.
residue : (start step a : ℕ) → start % a ≡ 0 → (start + step) % a ≡ step % a
residue start step a e =
    sym (mod-add-mod start a step) ∙ ap (λ r. (r + step) % a) e ∙ ap (λ r. r % a) (omega arith)

all_aligned : (start step a v : ℕ) → start % a ≡ 0 → step % a ≡ 0 → (start + v * step) % a ≡ 0
all_aligned start step a zero e f = ap (λ r. r % a) (omega arith) ∙ e
all_aligned start step a (suc v) e f =
    ap (λ r. r % a) (grind arith)
    ∙ residue (start + v * step) step a (all_aligned start step a v e f)
    ∙ f

-- For a layout whose alignment is not zero: the addresses of all buckets that a new pool has are
-- multiples of the alignment exactly if the pool has at most one bucket or the size of the layout is
-- a multiple of the alignment.
pub buckets_aligned_iff :
    (layout : Layout) (ptr size : ℕ)
    → 0 < layout.alignment
    → ((v : ℕ)
        → v < (new_uninit layout ptr size).buckets.capacity
        → ((new_uninit layout ptr size).start + v * (new_uninit layout ptr size).bucket_size)
            % layout.alignment
          ≡ 0)
      ↔ (((new_uninit layout ptr size).buckets.capacity ≤ 1) ⊎ (layout.size % layout.alignment ≡ 0))
unfolding new_uninit
buckets_aligned_iff layout ptr size positive = (
  (λ all. elim (dec_lt 1 capacity) [
    | yes several ↦ inr (
        sym (residue (align ptr layout.alignment) layout.size layout.alignment start_aligned)
        ∙ ap (λ r. r % layout.alignment) (omega arith)
        ∙ all 1 several)
    | no few ↦ inl (omega (arith, few))
  ]),
  (λ reason v below. elim reason [
    | inl few ↦ ap (λ r. r % layout.alignment) (first v (omega (arith, few, below))) ∙ start_aligned
    | inr e ↦
        all_aligned (align ptr layout.alignment) layout.size layout.alignment v start_aligned e
  ]),
)
  where
    capacity : ℕ
    capacity = (new_uninit layout ptr size).buckets.capacity

    first :
        (v : ℕ) → v ≡ 0 → align ptr layout.alignment + v * layout.size ≡ align ptr layout.alignment
    first zero e = omega arith
    first (suc v) e = absurd (omega (arith, e))

    start_aligned : align ptr layout.alignment % layout.alignment ≡ 0
    start_aligned = (align_lem ptr layout.alignment positive).2
