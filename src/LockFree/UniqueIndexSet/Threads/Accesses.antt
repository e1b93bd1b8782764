-- ===== src/LockFree/UniqueIndexSet/Threads/Accesses.antt =====
-- Every access of a thread keeps the invariant of the shared index set.
use iceoryx_in_rust.Prelude.{
  ℕ, ◌+◌, ◌*◌, ◌%◌, ◌^◌, ◌<◌, ◌≡◌, inl, inr, refl, sym, ◌∙◌, ap, subst, List, [], ◌∷◌, arith,
  length, length-set, get_or, set, le→leb, lt→leb, eq→==, ne→==, ℕ_discrete, dec_lt,
  get_or-set_self,
}
use iceoryx_in_rust.Prelude.Word.{add_u32}
use iceoryx_in_rust.Sync.Family.{total, others, Every-get, Every-set, Every-update}
use iceoryx_in_rust.LockFree.UniqueIndexSet.{UniqueIndexSet}
use iceoryx_in_rust.LockFree.UniqueIndexSet.FreeList.{Chain, Chain-set, Chain-head}
use iceoryx_in_rust.LockFree.UniqueIndexSet.Clients.{count, NotIn-of_count}
use iceoryx_in_rust.LockFree.UniqueIndexSet.Threads.{
  Thread, outside, acquiring, reading, exchanging, detaching, holding, releasing, linking,
  returning, acquire_test, acquire_exchange, release_exchange, advance, Event,
  call_acquire_raw_index, call_release_raw_index, access, act,
}
use iceoryx_in_rust.LockFree.UniqueIndexSet.Threads.Invariant.{
  hd, owns, owns_single, Fresh, Linked, Ok, Inv, first_free, written-Ok, exchanged-Ok, owned,
}

nothing : (xs : List Thread) → total (λ _. 0) xs ≡ 0
unfolding total
nothing [] = refl
nothing (x ∷ xs) = omega (arith, nothing xs)

module _ {capacity steps : ℕ} (s : UniqueIndexSet) (ts : List Thread) (i : ℕ)
    (inv : Inv capacity steps s ts) (there : i < length ts) where
  abbrev me : Thread
  me = get_or ts i outside

  -- A thread moves on, and the set stays as it is.
  stays :
      (t : Thread)
      → ((k : ℕ) → owns k t ≡ owns k me)
      → Ok s t
      → Inv capacity (steps + 1) s (set ts i t)
  stays t same ok = record {
    free = inv.free;
    same = inv.same;
    small = inv.small;
    room = inv.room;
    word = inv.word;
    counter = omega (arith, inv.counter);
    chain = inv.chain;
    owner = λ k.
        let (rest, now, after, _) = others (owns k) outside ts i (owns_single k) there in
        omega (arith, inv.owner k, now, after t, same k);
    threads = Every-set (Ok s) ts i t ok inv.threads;
  }

  -- A thread writes the cell of the index that it owns.
  writes :
      (t : Thread) (j v : ℕ)
      → owns j me ≡ 1
      → ((k : ℕ) → owns k t ≡ owns k me)
      → Ok (record s { next_free = set s.next_free j v }) t
      → Inv capacity (steps + 1) (record s { next_free = set s.next_free j v }) (set ts i t)
  writes t j v mine same ok =
      let (below, not_free, only) = owned s ts i j inv there mine in
      let out = NotIn-of_count j inv.free not_free in
      record {
        free = inv.free;
        same = inv.same;
        small = inv.small;
        room = omega (arith, inv.room, length-set s.next_free j v);
        word = inv.word;
        counter = omega (arith, inv.counter);
        chain = Chain-set s.next_free s.capacity (hd s.head) j v inv.free out inv.chain;
        owner = λ k.
            let (rest, now, after, _) = others (owns k) outside ts i (owns_single k) there in
            omega (arith, inv.owner k, now, after t, same k);
        threads =
            Every-update (owns j) (Ok s) (Ok (record s { next_free = set s.next_free j v }))
              (written-Ok s inv.free j v inv.chain out) outside ts i t there only ok inv.threads;
      }

  -- A thread exchanges the head, and the free indices and what it owns change together.
  exchanges :
      (t : Thread) (word : ℕ) (free : List ℕ)
      → word < 2 ^ 64
      → word % 2 ^ 32 ≡ s.head % 2 ^ 32 + 1
      → Chain s.next_free s.capacity (hd word) free
      → ((k : ℕ) → count k free + owns k t ≡ count k inv.free + owns k me)
      → Ok (record s { head = word }) t
      → Inv capacity (steps + 1) (record s { head = word }) (set ts i t)
  exchanges t word free small up chain moved ok = record {
    free = free;
    same = inv.same;
    small = inv.small;
    room = inv.room;
    word = small;
    counter = omega (arith, inv.counter, up);
    chain = chain;
    owner = λ k.
        let (rest, now, after, _) = others (owns k) outside ts i (owns_single k) there in
        omega (arith, inv.owner k, now, after t, moved k);
    threads =
        Every-update (λ _. 0) (Ok s) (Ok (record s { head = word }))
          (λ t' _ ok'.
            exchanged-Ok s (record s { head = word }) refl refl (omega (arith, up)) t' ok')
          outside ts i t there (nothing ts) ok inv.threads;
  }

  acquire_tested :
      (old : ℕ)
      → Fresh s old
      → ((k : ℕ) → owns k me ≡ 0)
      → Inv capacity (steps + 1) s (set ts i (acquire_test s old))
  unfolding acquire_test
  acquire_tested old fresh none_owned = elim (dec_lt (hd old) s.capacity) [
    | yes below ↦
        rw (lt→leb s.capacity (hd old) below)
          (stays (reading old) (λ k. sym (none_owned k)) (below, fresh))
    | no empty ↦
        rw (le→leb s.capacity (hd old) (omega (arith, empty)))
          (stays outside (λ k. sym (none_owned k)) tt)
  ]

  acquire_exchanged :
      (old new_head : ℕ)
      → steps + 1 < 2 ^ 32
      → me ≡ exchanging old new_head
      → Inv capacity
          (steps + 1)
          (acquire_exchange s old new_head).1
          (set ts i (acquire_exchange s old new_head).0)
  unfolding acquire_exchange
  acquire_exchanged old new_head few here = elim (ℕ_discrete s.head old) [
    | yes now ↦
        rw (eq→== s.head old now)
          (taken (sym now) (subst (Ok s) here (Every-get (Ok s) outside ts i there inv.threads)))
    | no moved ↦ rw (ne→== s.head old moved) (acquire_tested s.head (inr refl) (λ k. rw here refl))
  ]
    where
      taken :
          old ≡ s.head
          → Ok s (exchanging old new_head)
          → Inv capacity
              (steps + 1)
              (record s { head = new_head * 2 ^ 32 + add_u32 (old % 2 ^ 32) 1 })
              (set ts i (detaching (hd old)))
      taken now (below, inl stale) = absurd (omega (arith, now, stale))
      taken now (below, inr (_, e)) =
          let (rest, f) = first_free s inv.free inv.chain (rw now at below) in
          let chain = subst (Chain s.next_free s.capacity (hd s.head)) f inv.chain in
          let small : new_head < 2 ^ 32 =
            rw (e, now)
              (Chain-head s.next_free s.capacity (get_or s.next_free (hd s.head) 0) rest
                (omega (arith, inv.same, inv.small)) chain.2) in
          let up : (new_head * 2 ^ 32 + add_u32 (old % 2 ^ 32) 1) % 2 ^ 32 ≡ s.head % 2 ^ 32 + 1 =
            omega (arith, small, now, inv.counter, few) in
          let at_head : hd (new_head * 2 ^ 32 + add_u32 (old % 2 ^ 32) 1)
              ≡ get_or s.next_free (hd s.head) 0 =
            omega (arith, small) ∙ e ∙ ap (λ w. get_or s.next_free (hd w) 0) now in
          exchanges (detaching (hd old)) (new_head * 2 ^ 32 + add_u32 (old % 2 ^ 32) 1) rest
            (omega (arith, small)) up (rw at_head chain.2) (λ k. rw (here, f, now) (omega arith)) tt

  release_exchanged :
      (index old : ℕ)
      → steps + 1 < 2 ^ 32
      → me ≡ returning index old
      → Inv capacity
          (steps + 1)
          (release_exchange s index old).1
          (set ts i (release_exchange s index old).0)
  unfolding release_exchange
  release_exchanged index old few here = elim (ℕ_discrete s.head old) [
    | yes now ↦
        rw (eq→== s.head old now)
          (given (sym now) (subst (Ok s) here (Every-get (Ok s) outside ts i there inv.threads)).1)
    | no moved ↦
        rw (ne→== s.head old moved) (stays (linking index s.head) (λ k. rw here refl) (inr refl))
  ]
    where
      mine : owns index me ≡ 1
      mine = rw (here, eq→== index index refl) refl

      given :
          old ≡ s.head
          → (get_or s.next_free index 0 ≡ hd old)
          → Inv capacity
              (steps + 1)
              (record s { head = index * 2 ^ 32 + add_u32 (old % 2 ^ 32) 1 })
              (set ts i outside)
      given now e =
          let (below, not_free, only) = owned s ts i index inv there mine in
          let up : (index * 2 ^ 32 + add_u32 (old % 2 ^ 32) 1) % 2 ^ 32 ≡ s.head % 2 ^ 32 + 1 =
            omega (arith, now, inv.counter, few) in
          let at_head : hd (index * 2 ^ 32 + add_u32 (old % 2 ^ 32) 1) ≡ index =
            omega (arith, below, inv.small) in
          let link : get_or s.next_free index 0 ≡ hd s.head = e ∙ ap hd now in
          exchanges outside (index * 2 ^ 32 + add_u32 (old % 2 ^ 32) 1) (index ∷ inv.free)
            (omega (arith, below, inv.small)) up
            (at_head, omega (arith, below, inv.same), rw link inv.chain)
            (λ k. rw here (omega arith)) tt

  advanced :
      (t : Thread)
      → me ≡ t
      → steps + 1 < 2 ^ 32
      → Inv capacity (steps + 1) (advance s t).1 (set ts i (advance s t).0)
  unfolding advance
  advanced outside here few = stays outside (λ k. rw here refl) tt
  advanced acquiring here few = acquire_tested s.head (inr refl) (λ k. rw here refl)
  advanced (reading old) here few =
      let (below, fresh) = subst (Ok s) here (Every-get (Ok s) outside ts i there inv.threads) in
      stays (exchanging old (get_or s.next_free (hd old) 0)) (λ k. rw here refl)
        (below, linked fresh)
    where
      linked : Fresh s old → Linked s old (get_or s.next_free (hd old) 0)
      linked (inl stale) = inl stale
      linked (inr now) = inr (now, refl)
  advanced (exchanging old new_head) here few = acquire_exchanged old new_head few here
  advanced (detaching index) here few =
      writes (holding index) index (s.capacity + 1) (rw (here, eq→== index index refl) refl)
        (λ k. rw here refl) tt
  advanced (holding index) here few = stays (holding index) (λ k. rw here refl) tt
  advanced (releasing index) here few = stays (linking index s.head) (λ k. rw here refl) (inr refl)
  advanced (linking index old) here few =
      let mine : owns index me ≡ 1 = rw (here, eq→== index index refl) refl in
      let (below, _, _) = owned s ts i index inv there mine in
      writes (returning index old) index (hd old) mine (λ k. rw here refl)
        (
          subst (Ok s) here (Every-get (Ok s) outside ts i there inv.threads),
          get_or-set_self s.next_free index (hd old) 0 (omega (arith, below, inv.room)),
        )
  advanced (returning index old) here few = release_exchanged index old few here

  pub called :
      (e : Event) (t : Thread)
      → me ≡ t
      → steps + 1 < 2 ^ 32
      → Inv capacity (steps + 1) (act e s t).1 (set ts i (act e s t).0)
  unfolding act
  called access t here few = advanced t here few
  called call_acquire_raw_index outside here few = stays acquiring (λ k. rw here refl) tt
  called call_release_raw_index (holding index) here few =
      stays (releasing index) (λ k. rw here refl) tt
  called _ t here few =
      stays t (λ k. rw here refl)
        (subst (Ok s) here (Every-get (Ok s) outside ts i there inv.threads))
