-- ===== src/LockFree/UniqueIndexSet/Clients.antt =====
-- Clients that take and give back indices: every index has one owner at any time.
use iceoryx_in_rust.Prelude.{
  ℕ, zero, suc, ◌+◌, ◌^◌, ◌<◌, ◌≡◌, refl, ◌∙◌, true, Option, none, some, List, [], ◌∷◌, arith,
  get_elem?, ◌==◌, ltb, eq→==, ne→==, lt→ltb, le→ltb, ℕ_discrete, dec_lt, if◌then◌else◌,
  Option-cases, inl, inr,
}
use iceoryx_in_rust.Outcome.{Outcome, done, ◌>>=◌}
use iceoryx_in_rust.LockFree.UniqueIndexSet.{
  UniqueIndexSet, acquire_raw_index, release_raw_index, new_uninit, init,
}
use iceoryx_in_rust.LockFree.UniqueIndexSet.FreeList.{
  Represents, NotIn, upto, take_first, acquire_raw_index_refines, release_raw_index_refines,
  init-Represents,
}

-- A client takes an index, or gives back the one that it holds at a place of its list.
pub data Op : Type 0 where
  take_index : Op
  give_back : (place : ℕ) → Op

abbrev pub remove_at : List ℕ → ℕ → List ℕ
remove_at [] k = []
remove_at (x ∷ xs) zero = xs
remove_at (x ∷ xs) (suc k) = x ∷ remove_at xs k

abbrev pub add_held : Option ℕ → List ℕ → List ℕ
add_held none held = held
add_held (some i) held = i ∷ held

-- The set and the indices that the clients hold. Each call has fuel for one round of its loop.
abbrev pub State : Type 0
State = UniqueIndexSet × List ℕ

give_held : UniqueIndexSet → List ℕ → ℕ → Option ℕ → Outcome State
give_held s held k none = done (s, held)
give_held s held k (some i) = release_raw_index 1 s i >>= λ s'. done (s', remove_at held k)

client : Op → State → Outcome State
unfolding give_held
client take_index (s, held) = acquire_raw_index 1 s >>= λ r. done (r.1, add_held r.0 held)
client (give_back k) (s, held) = give_held s held k (get_elem? held k)

pub clients : List Op → State → Outcome State
clients [] x = done x
clients (op ∷ ops) x = client op x >>= λ y. clients ops y

abbrev pub count : ℕ → List ℕ → ℕ
count i [] = 0
count i (x ∷ xs) = (if i == x then 1 else 0) + count i xs

-- Every index below the capacity is either free or held by one client, and no other number is.
abbrev pub OneOwner : ℕ → List ℕ → List ℕ → Type 0
OneOwner capacity free held =
    (i : ℕ) → count i free + count i held ≡ (if ltb i capacity then 1 else 0)

record Inv (capacity : ℕ) (x : State) : Type 0 where
  free : List ℕ
  set_holds : Represents x.0 free
  same : x.0.capacity ≡ capacity
  owner : OneOwner capacity free x.1

pub NotIn-of_count : (i : ℕ) (xs : List ℕ) → count i xs ≡ 0 → NotIn i xs
NotIn-of_count i [] h = tt
NotIn-of_count i (x ∷ xs) h = elim (ℕ_discrete i x) [
  | yes e ↦ absurd (omega (arith, rw (eq→== i x e) at h))
  | no ne ↦ (ne, NotIn-of_count i xs (omega (arith, rw (ne→== i x ne) at h)))
]

count-remove_at :
    (i k j : ℕ) (held : List ℕ)
    → get_elem? held k ≡ some j
    → count i (remove_at held k) + (if i == j then 1 else 0) ≡ count i held
count-remove_at i k j [] h = absurd (ground arith)
count-remove_at i zero j (x ∷ xs) h = ground arith
count-remove_at i (suc k) j (x ∷ xs) h = ground (arith, count-remove_at i k j xs h)

-- How a call ends: it returns, and the invariant holds.
abbrev Returns : ℕ → Outcome State → Type 0
Returns capacity r = (y : State) × (r ≡ done y) × Inv capacity y

take-Inv :
    (capacity : ℕ) (s : UniqueIndexSet) (held free : List ℕ)
    → Represents s free
    → s.capacity ≡ capacity
    → OneOwner capacity free held
    → Returns capacity (client take_index (s, held))
unfolding client take_first
take-Inv capacity s held [] h same owner =
    let (s', e, r, c) = acquire_raw_index_refines s [] 0 h in
    ((s', held), rw e, record { free = []; set_holds = r; same = c ∙ same; owner = owner })
take-Inv capacity s held (x ∷ xs) h same owner =
    let (s', e, r, c) = acquire_raw_index_refines s (x ∷ xs) 0 h in
    (
      (s', x ∷ held),
      rw e,
      record { free = xs; set_holds = r; same = c ∙ same; owner = λ i. omega (arith, owner i) },
    )

-- An index that a client holds is below the capacity, and not free.
held_once :
    (capacity : ℕ) (free held : List ℕ) (k i : ℕ)
    → OneOwner capacity free held
    → get_elem? held k ≡ some i
    → (i < capacity) × (count i free ≡ 0)
held_once capacity free held k i owner e =
    let c = count-remove_at i k i held e in
    let o = owner i in
    elim (dec_lt i capacity) [
      | yes h ↦ (h, omega (arith, rw (eq→== i i refl) at c, rw (lt→ltb i capacity h) at o))
      | no h ↦
          absurd
            (omega (arith, rw (eq→== i i refl) at c, rw (le→ltb i capacity (omega arith)) at o))
    ]

give-Inv :
    (capacity : ℕ) (s : UniqueIndexSet) (held : List ℕ) (k : ℕ)
    → Inv capacity (s, held)
    → Returns capacity (client (give_back k) (s, held))
unfolding client give_held
give-Inv capacity s held k inv = elim (Option-cases (get_elem? held k)) [
  | inl e ↦ ((s, held), rw (e, give_held), inv)
  | inr (i, e) ↦
      let (inside, not_free) = held_once capacity inv.free held k i inv.owner e in
      let (s', f, r, c) =
        release_raw_index_refines s inv.free 0 i inv.set_holds (omega (arith, inside, inv.same))
          (NotIn-of_count i inv.free not_free) in
      (
        (s', remove_at held k),
        rw (e, give_held) (rw f refl),
        record {
          free = i ∷ inv.free;
          set_holds = r;
          same = c ∙ inv.same;
          owner = λ j. omega (arith, inv.owner j, count-remove_at j k i held e);
        },
      )
]

client-Inv : (capacity : ℕ) (op : Op) (x : State) → Inv capacity x → Returns capacity (client op x)
client-Inv capacity take_index (s, held) inv =
    take-Inv capacity s held inv.free inv.set_holds inv.same inv.owner
client-Inv capacity (give_back k) (s, held) inv = give-Inv capacity s held k inv

clients-Inv :
    (capacity : ℕ) (ops : List Op) (x : State) → Inv capacity x → Returns capacity (clients ops x)
unfolding clients
clients-Inv capacity [] x inv = (x, refl, inv)
clients-Inv capacity (op ∷ ops) x inv =
    let (y, e, inv') = client-Inv capacity op x inv in
    let (z, f, inv'') = clients-Inv capacity ops y inv' in (z, rw e f, inv'')

count-upto :
    (i first n : ℕ)
    → count i (upto first n) ≡ (if ltb i first then 0 else if ltb i (first + n) then 1 else 0)
count-upto i first zero = ground arith
count-upto i first (suc n) = ground (arith, count-upto i (first + 1) n)

pub init-OneOwner : (capacity : ℕ) → OneOwner capacity (upto 0 capacity) []
init-OneOwner capacity i = ground (arith, count-upto i 0 capacity)

-- Whatever the clients do, one call after the other, starting with an initialised set: every call
-- returns, and at the end each index below the capacity is either free, once, or held by one client,
-- once. So no index is handed out twice, and none is lost.
pub one_owner :
    (capacity : ℕ) (ops : List Op)
    → capacity + 1 < 2 ^ 32
    → (s s' : UniqueIndexSet) × (free held : List ℕ) × (init (new_uninit capacity) true
        ≡ done (true, s))
      × (clients ops (s, []) ≡ done (s', held))
      × Represents s' free
      × OneOwner capacity free held
one_owner capacity ops small =
    let (s, e, r, c) = init-Represents capacity small in
    let (y, f, inv) =
      clients-Inv capacity ops (s, [])
        (record {
          free = upto 0 capacity;
          set_holds = r;
          same = c;
          owner = init-OneOwner capacity;
        }) in
    (s, y.0, inv.free, y.1, e, f, inv.set_holds, inv.owner)
