-- ===== src/LockFree/UnrestrictedAtomic/Invariant.antt =====
-- What holds between two accesses of the producer and the consumers, and that the accesses of the
-- producer keep it.
use iceoryx_in_rust.Prelude.{
  ℕ, ◌+◌, ◌-◌, ◌%◌, ◌^◌, ◌≤◌, ◌<◌, ◌≡◌, ◌≢◌, refl, sym, ◌∙◌, ap, subst, Option, some, List, [], ◌∷◌,
  arith, length, get_or, set, get_or-set_self, get_or-set_ne, length-set, dec_lt, ℕ_discrete,
}
use iceoryx_in_rust.Prelude.Word.{add_usize}
use iceoryx_in_rust.Sync.Family.{Every, Every-map}
use iceoryx_in_rust.LockFree.UnrestrictedAtomic.{
  UnrestrictedAtomic, Producer, idle, starting, writing, written_first, publishing, Consumer,
  resting, loading, reading, read_first, checking, Call, stored, loaded, System, empty_cell,
  cell_at, write_first, write_second, produce,
}

module _ {A B : Type 0} where
  -- A register with the first value `v`: what it holds after the calls, the latest first.
  unfoldable pub held : A × B → List (Call A B) → A × B
  held v [] = v
  held v (stored a b ∷ log) = (a, b)
  held v (loaded a b ∷ log) = held v log

  -- Each call of `load` returns what the register holds at this point.
  unfoldable pub Register : A × B → List (Call A B) → Type 0
  Register v [] = Unit
  Register v (stored a b ∷ log) = Register v log
  Register v (loaded a b ∷ log) = ((a, b) ≡ held v log) × Register v log

  abbrev pub full : A × B → Option A × Option B
  full v = (some v.0, some v.1)

  -- What the locals of a consumer say, for the counter `w` and the latest value.
  abbrev pub Ok : ℕ → A × B → Consumer A B → Type 0
  Ok w v (reading r) = r < w
  Ok w v (read_first r a) = (r < w) × (r + 1 ≡ w → a ≡ v.0)
  Ok w v (checking r a b) = (r < w) × (r + 1 ≡ w → (a, b) ≡ v)
  Ok w v _ = Unit

  abbrev pub ProducerOk : UnrestrictedAtomic A B → Producer A B → Type 0
  ProducerOk s (writing a b w) = w ≡ s.write_cell
  ProducerOk s (written_first a b w) = (w ≡ s.write_cell) × ((cell_at s s.write_cell).0 ≡ some a)
  ProducerOk s (publishing a b) = cell_at s s.write_cell ≡ full (a, b)
  ProducerOk s _ = Unit

  -- The parts of a cell have been written.
  abbrev pub Written : Option A × Option B → Type 0
  Written c = (v : A × B) × (c ≡ full v)

  pub record Inv (v : A × B) (steps : ℕ) (x : System A B) : Type 0 where
    pub length_two : length x.atomic.data_cells ≡ 2
    pub positive : 0 < x.atomic.write_cell
    pub counter : x.atomic.write_cell ≤ steps + 1
    pub latest : cell_at x.atomic (x.atomic.write_cell - 1) ≡ full (held v x.log)
    pub written : (r : ℕ) → r < x.atomic.write_cell → Written (cell_at x.atomic r)
    pub producer_ok : ProducerOk x.atomic x.producer
    pub consumers_ok : Every (Ok x.atomic.write_cell (held v x.log)) x.consumers
    pub register : Register v x.log

  module _ (s : UnrestrictedAtomic A B) (w : ℕ) (c : Option A × Option B) where
    abbrev put : UnrestrictedAtomic A B
    put = record s { data_cells = set s.data_cells (w % 2) c }

    cell_at-same : (r : ℕ) → length s.data_cells ≡ 2 → r % 2 ≡ w % 2 → cell_at put r ≡ c
    unfolding cell_at
    cell_at-same r size same =
        rw same (get_or-set_self s.data_cells (w % 2) c empty_cell (omega (arith, size)))

    cell_at-other : (r : ℕ) → w % 2 ≢ r % 2 → cell_at put r ≡ cell_at s r
    unfolding cell_at
    cell_at-other r other = get_or-set_ne s.data_cells (w % 2) (r % 2) c empty_cell other

    -- A cell that is written again keeps both parts.
    Written-put :
        (r : ℕ)
        → length s.data_cells ≡ 2
        → Written (cell_at s r)
        → (r % 2 ≡ w % 2 → Written c)
        → Written (cell_at put r)
    Written-put r size before now = elim (ℕ_discrete (w % 2) (r % 2)) [
      | yes same ↦ subst Written (sym (cell_at-same r size (sym same))) (now (sym same))
      | no other ↦ subst Written (sym (cell_at-other r other)) before
    ]

  cell_at_parity :
      (s : UnrestrictedAtomic A B) (r w : ℕ) → r % 2 ≡ w % 2 → cell_at s r ≡ cell_at s w
  unfolding cell_at
  cell_at_parity s r w same = ap (λ k. get_or s.data_cells k empty_cell) same

  module _ (v : A × B) (steps : ℕ) (x : System A B) (inv : Inv v steps x) where
    -- A write to the cell that the counter names.
    put-Inv :
        (c : Option A × Option B) (t : Producer A B)
        → ((before : A × B) → cell_at x.atomic x.atomic.write_cell ≡ full before → Written c)
        → ProducerOk (put x.atomic x.atomic.write_cell c) t
        → Inv v (steps + 1) (record x { atomic = put x.atomic x.atomic.write_cell c; producer = t })
    put-Inv c t again fine =
        let w = x.atomic.write_cell in
        record {
          length_two = length-set x.atomic.data_cells (w % 2) c ∙ inv.length_two;
          positive = inv.positive;
          counter = omega (arith, inv.counter);
          latest =
              cell_at-other x.atomic w c (w - 1) (λ e. omega (arith, e, inv.positive)) ∙ inv.latest;
          written = λ r below.
              Written-put x.atomic w c r inv.length_two (inv.written r below) (λ same.
                let (before, e) = inv.written r below in
                again before (sym (cell_at_parity x.atomic r w same) ∙ e));
          producer_ok = fine;
          consumers_ok = inv.consumers_ok;
          register = inv.register;
        }

    -- A step of the producer that leaves the cells.
    pub move-Inv :
        (t : Producer A B) → ProducerOk x.atomic t → Inv v (steps + 1) (record x { producer = t })
    move-Inv t fine = record {
      length_two = inv.length_two;
      positive = inv.positive;
      counter = omega (arith, inv.counter);
      latest = inv.latest;
      written = inv.written;
      producer_ok = fine;
      consumers_ok = inv.consumers_ok;
      register = inv.register;
    }

    publish-Inv :
        (a : A) (b : B)
        → steps + 2 < 2 ^ 64
        → cell_at x.atomic x.atomic.write_cell ≡ full (a, b)
        → Inv v (steps + 1) (produce (publishing a b) x)
    unfolding produce held Register cell_at
    publish-Inv a b small filled =
        let w = x.atomic.write_cell in
        let next : add_usize w 1 ≡ w + 1 = omega (arith, inv.counter, small) in
        let back : w + 1 - 1 ≡ w = omega arith in
        rw next record {
          length_two = inv.length_two;
          positive = omega arith;
          counter = omega (arith, inv.counter);
          latest = rw back filled;
          written = λ r below. elim (dec_lt r w) [
            | yes old ↦ inv.written r old
            | no new_one ↦
                let e : r ≡ w = omega (arith, below, new_one) in
                subst (λ k. Written (cell_at x.atomic k)) (sym e) ((a, b), filled)
          ];
          producer_ok = tt;
          consumers_ok =
              Every-map (Ok w (held v x.log)) (Ok (w + 1) (a, b)) later x.consumers
                inv.consumers_ok;
          register = inv.register;
        }
      where
        later :
            (t : Consumer A B)
            → Ok x.atomic.write_cell (held v x.log) t
            → Ok (x.atomic.write_cell + 1) (a, b) t
        later (reading r) ok = omega (arith, ok)
        later (read_first r _) ok = (omega (arith, ok.0), λ e. absurd (omega (arith, e, ok.0)))
        later (checking r _ _) ok = (omega (arith, ok.0), λ e. absurd (omega (arith, e, ok.0)))
        later resting ok = tt
        later loading ok = tt

  pub produce-Inv :
      (v : A × B) (steps : ℕ) (x : System A B) (t : Producer A B)
      → steps + 2 < 2 ^ 64
      → x.producer ≡ t
      → Inv v steps x
      → Inv v (steps + 1) (produce t x)
  unfolding produce write_first write_second
  produce-Inv v steps x idle small e inv = move-Inv v steps x inv x.producer inv.producer_ok
  produce-Inv v steps x (starting a b) small e inv =
      move-Inv v steps x inv (writing a b x.atomic.write_cell) refl
  produce-Inv v steps x (writing a b w) small e inv =
      let now : w ≡ x.atomic.write_cell = subst (ProducerOk x.atomic) e inv.producer_ok in
      subst
        (λ k. Inv v (steps + 1) (record x {
          atomic = put x.atomic k (some a, (cell_at x.atomic k).1);
          producer = written_first a b k;
        }))
        (sym now)
        (put-Inv v steps x inv (some a, (cell_at x.atomic x.atomic.write_cell).1)
          (written_first a b x.atomic.write_cell)
          (λ before f. ((a, before.1), ap (λ c. (some a, c.1)) f))
          (
            refl,
            ap (λ c. c.0)
                (cell_at-same x.atomic x.atomic.write_cell _ x.atomic.write_cell inv.length_two
                  refl),
          ))
  produce-Inv v steps x (written_first a b w) small e inv =
      let (now, first) = subst (ProducerOk x.atomic) e inv.producer_ok in
      let both = ap (λ p. (p, some b)) first in
      subst
        (λ k. Inv v (steps + 1) (record x {
          atomic = put x.atomic k ((cell_at x.atomic k).0, some b);
          producer = publishing a b;
        }))
        (sym now)
        (put-Inv v steps x inv ((cell_at x.atomic x.atomic.write_cell).0, some b) (publishing a b)
          (λ before f. ((a, b), both))
          (cell_at-same x.atomic x.atomic.write_cell _ x.atomic.write_cell inv.length_two refl
            ∙ both))
  produce-Inv v steps x (publishing a b) small e inv =
      publish-Inv v steps x inv a b small (subst (ProducerOk x.atomic) e inv.producer_ok)
