-- ===== src/LockFree/UniqueIndexSet/FreeList.antt =====
-- The set as a list of free indices: acquiring takes the first, releasing puts one in front.
use native.Mathlib.Nat.{add_comm}
use iceoryx_in_rust.Prelude.{
  ℕ, zero, suc, ◌+◌, ◌*◌, ◌/◌, ◌%◌, ◌^◌, ◌≤◌, ◌<◌, ◌≡◌, ◌≢◌, refl, ◌∙◌, ap, Bool, true, Option,
  none, some, List, [], ◌∷◌, ◌++◌, arith, length, length-set, length-append, get_or, set,
  get_or-set_self, get_or-set_ne, get_or-append_left, eq→==, ne→==, lt→ltb, le→ltb, lt→leb, le→leb,
}
use iceoryx_in_rust.Prelude.Word.{add_u32, as_u32}
use iceoryx_in_rust.Outcome.{Outcome, done}
use iceoryx_in_rust.LockFree.UniqueIndexSet.{
  UniqueIndexSet, links, new_uninit, init, acquire_raw_index, release_raw_index, created,
  new_with_reduced_capacity,
}

-- From `head` the links lead through exactly the indices `free`, and then to no index.
abbrev pub Chain : List ℕ → ℕ → ℕ → List ℕ → Type 0
Chain cells capacity head [] = (capacity ≤ head) × (head < 2 ^ 32)
Chain cells capacity head (x ∷ xs) =
    (head ≡ x) × (x < capacity) × Chain cells capacity (get_or cells x 0) xs

abbrev pub NotIn : ℕ → List ℕ → Type 0
NotIn i [] = Unit
NotIn i (x ∷ xs) = (i ≢ x) × NotIn i xs

abbrev pub Unique : List ℕ → Type 0
Unique [] = Unit
Unique (x ∷ xs) = NotIn x xs × Unique xs

pub record Represents (s : UniqueIndexSet) (free : List ℕ) : Type 0 where
  pub room : s.capacity < length s.next_free
  pub ready : s.is_memory_initialized ≡ true
  pub small : s.capacity + 1 < 2 ^ 32
  pub word : s.head < 2 ^ 64
  pub chain : Chain s.next_free s.capacity (s.head / 2 ^ 32) free
  pub unique : Unique free

pub Chain-head :
    (cells : List ℕ) (capacity head : ℕ) (free : List ℕ)
    → capacity < 2 ^ 32
    → Chain cells capacity head free
    → head < 2 ^ 32
Chain-head cells capacity head [] small c = c.1
Chain-head cells capacity head (x ∷ xs) small c = omega (arith, c.0, c.1)

-- The link of an index outside the list may change.
pub Chain-set :
    (cells : List ℕ) (capacity head i v : ℕ) (free : List ℕ)
    → NotIn i free
    → Chain cells capacity head free
    → Chain (set cells i v) capacity head free
Chain-set cells capacity head i v [] out c = c
Chain-set cells capacity head i v (x ∷ xs) out c = (
  c.0,
  c.1,
  rw (get_or-set_ne cells i x v 0 out.0)
      (Chain-set cells capacity (get_or cells x 0) i v xs out.1 c.2),
)

module _ (s : UniqueIndexSet) where
  -- What `acquire_raw_index` leaves when the first free index is `x`.
  abbrev pub acquired : ℕ → UniqueIndexSet
  acquired x = record s {
    next_free = set s.next_free x (s.capacity + 1);
    head = get_or s.next_free x 0 * 2 ^ 32 + add_u32 (s.head % 2 ^ 32) 1;
  }

  pub acquire-acquired :
      (fuel x : ℕ) (xs : List ℕ)
      → Represents s (x ∷ xs)
      → acquire_raw_index (suc fuel) s ≡ done (some x, acquired x)
  unfolding acquire_raw_index
  acquire-acquired fuel x xs h =
      let e : s.head / 2 ^ 32 % 2 ^ 32 ≡ x = omega (arith, h.word, h.chain.0) in
      rw (
        e,
        lt→leb s.capacity x h.chain.1,
        lt→ltb x (length s.next_free) (omega (arith, h.room, h.chain.1)),
        eq→== s.head s.head refl,
        h.ready,
        lt→ltb x (length s.next_free) (omega (arith, h.room, h.chain.1)),
      )

  pub acquired-Represents :
      (x : ℕ) (xs : List ℕ) → Represents s (x ∷ xs) → Represents (acquired x) xs
  acquired-Represents x xs h =
      let next : get_or s.next_free x 0 < 2 ^ 32 =
        Chain-head s.next_free s.capacity (get_or s.next_free x 0) xs (omega (arith, h.small))
          h.chain.2 in
      let e : (get_or s.next_free x 0 * 2 ^ 32 + add_u32 (s.head % 2 ^ 32) 1) / 2 ^ 32
          ≡ get_or s.next_free x 0 =
        omega arith in
      record {
        room = omega (arith, h.room, length-set s.next_free x (s.capacity + 1));
        ready = h.ready;
        small = h.small;
        word = omega (arith, next);
        chain = rw e (
            Chain-set s.next_free s.capacity (get_or s.next_free x 0) x (s.capacity + 1) xs
              h.unique.0 h.chain.2);
        unique = h.unique.1;
      }

  -- What `release_raw_index` leaves.
  abbrev pub released : ℕ → UniqueIndexSet
  released i = record s {
    next_free = set s.next_free i (s.head / 2 ^ 32);
    head = i * 2 ^ 32 + add_u32 (s.head % 2 ^ 32) 1;
  }

  pub release-released :
      (fuel i : ℕ) (free : List ℕ)
      → Represents s free
      → i < length s.next_free
      → release_raw_index (suc fuel) s i ≡ done (released i)
  unfolding release_raw_index
  release-released fuel i free h inside =
      let e : s.head / 2 ^ 32 % 2 ^ 32 ≡ s.head / 2 ^ 32 = omega (arith, h.word) in
      rw (lt→ltb i (length s.next_free) inside, eq→== s.head s.head refl, e, h.ready)

  pub released-Represents :
      (i : ℕ) (free : List ℕ)
      → Represents s free
      → i < s.capacity
      → NotIn i free
      → Represents (released i) (i ∷ free)
  released-Represents i free h inside out =
      let e : (i * 2 ^ 32 + add_u32 (s.head % 2 ^ 32) 1) / 2 ^ 32 ≡ i = omega arith in
      record {
        room = omega (arith, h.room, length-set s.next_free i (s.head / 2 ^ 32));
        ready = h.ready;
        small = h.small;
        word = omega (arith, h.small);
        chain = (
          e,
          inside,
          rw (get_or-set_self s.next_free i (s.head / 2 ^ 32) 0 (omega (arith, h.room))) (
              Chain-set s.next_free s.capacity (s.head / 2 ^ 32) i (s.head / 2 ^ 32) free out
                h.chain),
        );
        unique = (out, h.unique);
      }

-- What acquiring promises on the list of free indices.
unfoldable pub take_first : List ℕ → Option ℕ × List ℕ
take_first [] = (none, [])
take_first (x ∷ xs) = (some x, xs)

-- A set without free indices is left as it is.
pub acquire-none :
    (s : UniqueIndexSet) (fuel : ℕ)
    → Represents s []
    → acquire_raw_index (suc fuel) s ≡ done (none, s)
unfolding acquire_raw_index
acquire-none s fuel h =
    let e : s.head / 2 ^ 32 % 2 ^ 32 ≡ s.head / 2 ^ 32 = omega (arith, h.word) in
    rw (e, le→leb s.capacity (s.head / 2 ^ 32) h.chain.0, h.ready)

-- On a set with the free indices `free`, and nobody interfering, `acquire_raw_index` needs one round
-- of its loop: it hands out the first of them and leaves the others, or returns `None` if there is
-- none.
pub acquire_raw_index_refines :
    (s : UniqueIndexSet) (free : List ℕ) (fuel : ℕ)
    → Represents s free
    → (s' : UniqueIndexSet) × (acquire_raw_index (suc fuel) s ≡ done ((take_first free).0, s'))
      × Represents s' (take_first free).1
      × (s'.capacity ≡ s.capacity)
unfolding take_first
acquire_raw_index_refines s [] fuel h = (s, acquire-none s fuel h, h, refl)
acquire_raw_index_refines s (x ∷ xs) fuel h =
    (acquired s x, acquire-acquired s fuel x xs h, acquired-Represents s x xs h, refl)

-- On such a set, `release_raw_index` of an index below the capacity that is not free needs one round
-- of its loop, and makes the index the next one to be handed out.
pub release_raw_index_refines :
    (s : UniqueIndexSet) (free : List ℕ) (fuel i : ℕ)
    → Represents s free
    → i < s.capacity
    → NotIn i free
    → (s' : UniqueIndexSet) × (release_raw_index (suc fuel) s i ≡ done s')
      × Represents s' (i ∷ free)
      × (s'.capacity ≡ s.capacity)
release_raw_index_refines s free fuel i h inside out = (
  released s i,
  release-released s fuel i free h (omega (arith, h.room)),
  released-Represents s i free h inside out,
  refl,
)

abbrev pub upto : ℕ → ℕ → List ℕ
upto first zero = []
upto first (suc n) = first ∷ upto (first + 1) n

get_or-links : (first n k : ℕ) → k < n → get_or (links first n) k 0 ≡ first + k
get_or-links first zero k h = absurd (omega arith)
get_or-links first (suc n) zero h = omega arith
get_or-links first (suc n) (suc k) h = omega (arith, get_or-links (first + 1) n k (omega arith))

length-links : (first n : ℕ) → length (links first n) ≡ n
length-links first zero = refl
length-links first (suc n) = ap suc (length-links (first + 1) n)

NotIn-upto : (i first n : ℕ) → i < first → NotIn i (upto first n)
NotIn-upto i first zero h = tt
NotIn-upto i first (suc n) h = (omega arith, NotIn-upto i (first + 1) n (omega arith))

Unique-upto : (first n : ℕ) → Unique (upto first n)
Unique-upto first zero = tt
Unique-upto first (suc n) =
    (NotIn-upto first (first + 1) n (omega arith), Unique-upto (first + 1) n)

Chain-upto :
    (cells : List ℕ) (capacity first n : ℕ)
    → ((k : ℕ) → k < capacity → get_or cells k 0 ≡ k + 1)
    → first + n ≡ capacity
    → capacity < 2 ^ 32
    → Chain cells capacity first (upto first n)
Chain-upto cells capacity first zero link e small = omega arith
Chain-upto cells capacity first (suc n) link e small = (
  refl,
  omega arith,
  rw (link first (omega arith)) (Chain-upto cells capacity (first + 1) n link (omega arith) small),
)

-- A set that has been initialised with granted memory holds every index below its capacity, the
-- smallest first.
pub init-Represents :
    (capacity : ℕ)
    → capacity + 1 < 2 ^ 32
    → (s : UniqueIndexSet) × (init (new_uninit capacity) true ≡ done (true, s))
      × Represents s (upto 0 capacity)
      × (s.capacity ≡ capacity)
unfolding init new_uninit
init-Represents capacity small =
    let e : as_u32 capacity ≡ capacity = omega arith in
    (
      record {
        next_free = links 1 (capacity + 1);
        capacity = capacity;
        head = 0;
        is_memory_initialized = true;
      },
      rw e,
      record {
        room = omega (arith, length-links 1 (capacity + 1));
        ready = refl;
        small = small;
        word = omega arith;
        chain =
            Chain-upto (links 1 (capacity + 1)) capacity 0 capacity
              (λ k h. omega (arith, get_or-links 1 (capacity + 1) k (omega arith))) (omega arith)
              (omega arith);
        unique = Unique-upto 0 capacity;
      },
      refl,
    )

head_of : Outcome (Bool × UniqueIndexSet) → ℕ
head_of (done (_, s)) = s.head
head_of _ = 0

-- The head of a set that has just been initialised.
pub init-head :
    (capacity : ℕ) (s : UniqueIndexSet)
    → init (new_uninit capacity) true ≡ done (true, s)
    → 0 ≡ s.head
unfolding init new_uninit head_of
init-head capacity s e = ap head_of e

-- A fixed-size set with a reduced capacity holds every index below the reduced capacity.
pub new_with_reduced_capacity-Represents :
    (max_capacity capacity : ℕ)
    → 0 < capacity
    → capacity ≤ max_capacity
    → capacity + 1 < 2 ^ 32
    → (s : UniqueIndexSet) × (new_with_reduced_capacity max_capacity capacity ≡ created s)
      × Represents s (upto 0 capacity)
unfolding new_with_reduced_capacity
new_with_reduced_capacity-Represents max_capacity capacity positive fits small =
    let e : as_u32 capacity ≡ capacity = omega arith in
    (
      record {
        next_free = links 1 max_capacity ++ ((capacity + 1) ∷ []);
        capacity = capacity;
        head = 0;
        is_memory_initialized = true;
      },
      rw (le→ltb max_capacity capacity fits, ne→== capacity 0 (omega arith), e),
      record {
        room = omega (
          arith,
          length-append (links 1 max_capacity) ((capacity + 1) ∷ []),
          length-links 1 max_capacity,
        );
        ready = refl;
        small = small;
        word = omega arith;
        chain =
            Chain-upto (links 1 max_capacity ++ ((capacity + 1) ∷ [])) capacity 0 capacity
              (λ k h.
                get_or-append_left (links 1 max_capacity) _ k 0
                  (omega (arith, length-links 1 max_capacity))
                ∙ get_or-links 1 max_capacity k (omega arith)
                ∙ add_comm 1 k)
              (omega arith) (omega arith);
        unique = Unique-upto 0 capacity;
      },
    )

-- Releasing the capacity itself, which is no index of the set, empties the set.
pub released_capacity-Represents :
    (s : UniqueIndexSet) (free : List ℕ) → Represents s free → Represents (released s s.capacity) []
released_capacity-Represents s free h =
    let e : (s.capacity * 2 ^ 32 + add_u32 (s.head % 2 ^ 32) 1) / 2 ^ 32 ≡ s.capacity =
      omega arith in
    record {
      room = omega (arith, h.room, length-set s.next_free s.capacity (s.head / 2 ^ 32));
      ready = h.ready;
      small = h.small;
      word = omega (arith, h.small);
      chain = rw e (omega arith, omega (arith, h.small));
      unique = tt;
    }
