-- ===== src/SharedMemoryDirectory/FileReferenceSet/Find.antt =====
-- What `find_entry` finds, and what it leaves.
use iceoryx_in_rust.Prelude.{
  ℕ, zero, suc, ◌+◌, ◌%◌, ◌^◌, ◌≤◌, ◌<◌, ◌≡◌, ◌⊎◌, inl, inr, refl, sym, ◌∙◌, ap, subst, Bool, true,
  false, not, none, some, List, [], ◌∷◌, arith, ◌==◌, ◌&&◌, lt→ltb, length, get_or, set,
  get_or-set_self, set-get_or, set-set, length-set, ℕ_discrete,
}
use iceoryx_in_rust.Outcome.{done}
use iceoryx_in_rust.Container.ByteString.{ByteString, eq}
use iceoryx_in_rust.SharedMemoryDirectory.ReferenceCounter
use iceoryx_in_rust.SharedMemoryDirectory.ReferenceCounter.{
  is_available, increment_ref_counter, increment_ref_counter_when_initialized, details,
}
use iceoryx_in_rust.SharedMemoryDirectory.ReferenceCounter.Word.{
  when_available, when_not_available, decrement-increment,
}
use iceoryx_in_rust.SharedMemoryDirectory.FileReferenceSet.{
  Entry, FileReferenceSet, entry_at, read_entry, on_counter, probe, find_from, find_entry,
}

pub Bool-cases : (b : Bool) → (b ≡ true) ⊎ (b ≡ false)
Bool-cases true = inl refl
Bool-cases false = inr refl

abbrev pub word_at : FileReferenceSet → ℕ → ℕ
word_at s i = get_or s.counter i 0

-- The arrays have all entries, and each count of references has room for one more.
pub record IsFileSet (s : FileReferenceSet) : Type 0 where
  pub counters : length s.counter ≡ 512
  pub names : length s.entries ≡ 512
  pub words : (i : ℕ) → i < 512 → (word_at s i < 2 ^ 64) × (word_at s i % 2 ^ 61 + 1 < 2 ^ 61)

-- An entry that is in use has the name; or the entry is not in use, or has another name.
abbrev pub Matches : FileReferenceSet → ByteString → ℕ → Type 0
Matches s name i =
    (is_available (word_at s i) ≡ true)
    × (e : Entry) × (read_entry s i ≡ done e)
    × (eq e.name name ≡ true)

abbrev pub Passes : FileReferenceSet → ByteString → ℕ → Type 0
Passes s name i =
    (is_available (word_at s i) ≡ false)
    ⊎ ((e : Entry) × (read_entry s i ≡ done e) × (eq e.name name ≡ false))

-- One reference more to the entry `i`.
abbrev pub counted : FileReferenceSet → ℕ → FileReferenceSet
counted s i = record s { counter = set s.counter i (word_at s i + 1) }

pub on_counter_lem :
    {R : Type 0} (call : ℕ → R × ℕ) (s : FileReferenceSet) (i : ℕ)
    → i < length s.counter
    → on_counter call s i
      ≡ done ((call (word_at s i)).0, record s { counter = set s.counter i (call (word_at s i)).1 })
unfolding on_counter
on_counter_lem call s i inside = rw (lt→ltb i (length s.counter) inside) refl

-- A call on a counter that has just been written.
pub on_counter-set :
    {R : Type 0} (call : ℕ → R × ℕ) (s : FileReferenceSet) (i w : ℕ)
    → i < length s.counter
    → on_counter call (record s { counter = set s.counter i w }) i
      ≡ done ((call w).0, record s { counter = set s.counter i (call w).1 })
on_counter-set call s i w inside =
    on_counter_lem call (record s { counter = set s.counter i w }) i
      (omega (arith, inside, length-set s.counter i w))
    ∙ rw (get_or-set_self s.counter i w 0 inside, set-set s.counter i w (call w).1) refl

pub entry_at-inside :
    (es : List Entry) (i : ℕ) → i < length es → (e : Entry) × (entry_at es i ≡ done e)
unfolding entry_at
entry_at-inside [] i inside = absurd (omega arith)
entry_at-inside (e ∷ es) zero inside = (e, refl)
entry_at-inside (e ∷ es) (suc i) inside = entry_at-inside es i (omega arith)

module _ (s : FileReferenceSet) (well : IsFileSet s) (name : ByteString) where
  -- Writing the word that is there already.
  same_word : (i : ℕ) → record s { counter = set s.counter i (word_at s i) } ≡ s
  same_word i = ap (λ ws. record s { counter = ws }) (set-get_or s.counter i 0)

  -- A reference that is taken and given back.
  pub dropped :
      (i : ℕ)
      → i < 512
      → (on_counter ReferenceCounter.decrement_ref_counter (counted s i) i)
        ≡ done ((word_at s i % 2 ^ 61 == 0) && not (details (word_at s i)).is_persistent, s)
  dropped i inside =
      let here : i < length s.counter = omega (arith, inside, well.counters) in
      let (word, room) = well.words i inside in
      on_counter-set ReferenceCounter.decrement_ref_counter s i (word_at s i + 1) here
      ∙ rw (decrement-increment (word_at s i) word room, set-get_or s.counter i 0) refl

  probe_lem :
      (i : ℕ)
      → i < 512
      → (Matches s name i × (probe s name i ≡ done (true, counted s i)))
        ⊎ (Passes s name i × (probe s name i ≡ done (false, s)))
  unfolding probe read_entry
  probe_lem i inside =
      let here : i < length s.counter = omega (arith, inside, well.counters) in
      let (word, room) = well.words i inside in
      let (e, f) = entry_at-inside s.entries i (omega (arith, inside, well.names)) in
      let first = on_counter_lem increment_ref_counter_when_initialized s i here in
      elim (Bool-cases (is_available (word_at s i))) [
        | inl used ↦ elim (Bool-cases (eq e.name name)) [
          | inl same ↦ inl (
            (used, e, f, same),
            rw (first, when_available (word_at s i) word room used, f, same) refl,
          )
          | inr other ↦ inr (
            inr (e, f, other),
            rw (first, when_available (word_at s i) word room used, f, other, dropped i inside)
                refl,
          )
        ]
        | inr unused ↦ inr (
          inl unused,
          rw (first, when_not_available (word_at s i) unused, set-get_or s.counter i 0) refl,
        )
      ]

  find_from_lem :
      (rounds id : ℕ)
      → id + rounds ≡ 512
      → ((i : ℕ) × (id ≤ i)
          × (i < 512)
          × Matches s name i
          × ((j : ℕ) → id ≤ j → j < i → Passes s name j)
          × (find_from rounds id s name ≡ done (some i, counted s i)))
        ⊎ (((j : ℕ) → id ≤ j → j < 512 → Passes s name j)
            × (find_from rounds id s name ≡ done (none, s)))
  unfolding find_from
  find_from_lem zero id e = inr ((λ j above below. absurd (omega (arith, e, above, below))), refl)
  find_from_lem (suc rounds) id e = elim (probe_lem id (omega (arith, e))) [
    | inl (matches, f) ↦ inl (
      id,
      omega arith,
      omega (arith, e),
      matches,
      (λ j above below. absurd (omega (arith, above, below))),
      rw f refl,
    )
    | inr (passes, f) ↦ elim (find_from_lem rounds (id + 1) (omega (arith, e))) [
      | inl (i, above, below, matches, before, g) ↦ inl (
        i,
        omega (arith, above),
        below,
        matches,
        (λ j from upto. elim (ℕ_discrete j id) [
          | yes same ↦ subst (Passes s name) (sym same) passes
          | no other ↦ before j (omega (arith, from, other)) upto
        ]),
        rw f g,
      )
      | inr (all, g) ↦ inr (
        (λ j from upto. elim (ℕ_discrete j id) [
          | yes same ↦ subst (Passes s name) (sym same) passes
          | no other ↦ all j (omega (arith, from, other)) upto
        ]),
        rw f g,
      )
    ]
  ]

  -- On a set in which each count has room for one reference more, `find_entry` yields the first index
  -- whose entry is in use and has the name, and takes one reference to this entry and to no other; if
  -- there is no such entry, it yields none and leaves the set as it was.
  pub find_entry-IsFirst :
      ((i : ℕ) × (i < 512)
        × Matches s name i
        × ((j : ℕ) → j < i → Passes s name j)
        × (find_entry s name ≡ done (some i, counted s i)))
      ⊎ (((j : ℕ) → j < 512 → Passes s name j) × (find_entry s name ≡ done (none, s)))
  unfolding find_entry
  find_entry-IsFirst = elim (find_from_lem 512 0 refl) [
    | inl (i, _, inside, matches, before, e) ↦
        inl (i, inside, matches, (λ j below. before j (omega arith) below), e)
    | inr (all, e) ↦ inr ((λ j below. all j (omega arith) below), e)
  ]
