-- ===== src/Pool/Chain.antt =====
-- The free list of dmmr_heap_pool.c as a sequence of slots.
use http_dmmr_nginx.Base.{
  ℕ, zero, suc, ◌≡◌, ◌≢◌, ◌+◌, ◌-◌, ◌*◌, ◌<◌, ◌≤◌, refl, ap, ◌∙◌, true, false, List, [], ◌∷◌,
  Option, none, some, arith, All, length, get_or, set, ltb, leb, ◌==◌, ◌||◌, if◌then◌else◌,
  get_or-set_self, get_or-set_ne, length-set,
}
use native.Mathlib.Nat.{mul-lt-mul_of_pos_right, mul-mod_left, mul-div_cancel}
use http_dmmr_nginx.Pool.Heap.{
  HeapPool, no_slot, chained, dmmr_heap_pool_init, dmmr_heap_pool_alloc, dmmr_heap_pool_free,
  dmmr_heap_pool_used, count_free,
}

-- The links lead from a slot through the listed slots to the end.
abbrev pub IsChain : List ℕ → ℕ → List ℕ → Type 0
IsChain slots idx [] = idx ≡ no_slot
IsChain slots idx (a ∷ rest) = (idx ≡ a) × IsChain slots (get_or slots a no_slot) rest

abbrev pub IsFresh : ℕ → List ℕ → Type 0
IsFresh a = All (λ b. a ≢ b)

abbrev pub AreDistinct : List ℕ → Type 0
AreDistinct [] = Unit {0}
AreDistinct (a ∷ rest) = IsFresh a rest × AreDistinct rest

-- The free list of a pool is a chain through the distinct slots `free`.
pub record IsPool (pool : HeapPool) (free : List ℕ) : Type 0 where
  pub sized : length pool.slots ≡ pool.capacity
  pub object : 4 ≤ pool.obj_size
  pub small : pool.capacity < no_slot
  pub inside : All (λ a. a < pool.capacity) free
  pub distinct : AreDistinct free
  pub chain : IsChain pool.slots pool.free_head free

IsChain-set :
    (slots : List ℕ) (a v idx : ℕ) (free : List ℕ)
    → IsFresh a free
    → IsChain slots idx free
    → IsChain (set slots a v) idx free
IsChain-set slots a v idx [] f c = c
IsChain-set slots a v idx (b ∷ rest) f c = (
  c.0,
  rw (get_or-set_ne slots a b v no_slot f.0)
      (IsChain-set slots a v (get_or slots b no_slot) rest f.1 c.1),
)

abbrev pub first_offset : ℕ → List ℕ → Option ℕ
first_offset obj_size [] = none
first_offset obj_size (a ∷ rest) = some (a * obj_size)

abbrev pub tail : List ℕ → List ℕ
tail [] = []
tail (a ∷ rest) = rest

-- In a valid pool, an allocation takes the first free slot, and fails when none is free; the pool
-- stays valid, with the other free slots in order.
pub dmmr_heap_pool_alloc-IsPool :
    (pool : HeapPool) (free : List ℕ)
    → IsPool pool free
    → let r = dmmr_heap_pool_alloc pool in
      (r.0 ≡ first_offset pool.obj_size free) × IsPool r.1 (tail free)
unfolding dmmr_heap_pool_alloc
dmmr_heap_pool_alloc-IsPool pool [] v =
    let full : (pool.free_head == no_slot) ≡ true = ground (arith, v.chain) in rw full (refl, v)
dmmr_heap_pool_alloc-IsPool pool (a ∷ free) v =
    let some_slot : (pool.free_head == no_slot) ≡ false =
      ground (arith, v.chain.0, v.inside.0, v.small) in
    rw (some_slot, v.chain.0)
      (
        refl,
        record {
          sized = length-set pool.slots a 0 ∙ v.sized;
          object = v.object;
          small = v.small;
          inside = v.inside.1;
          distinct = v.distinct.1;
          chain =
              IsChain-set pool.slots a 0 (get_or pool.slots a no_slot) free v.distinct.0 v.chain.1;
        },
      )

-- In a valid pool, giving back a slot that is not free makes it the first free one, and the pool
-- stays valid.
pub dmmr_heap_pool_free-IsPool :
    (pool : HeapPool) (a : ℕ) (free : List ℕ)
    → IsPool pool free
    → a < pool.capacity
    → IsFresh a free
    → IsPool (dmmr_heap_pool_free pool (some (a * pool.obj_size))) (a ∷ free)
unfolding dmmr_heap_pool_free
dmmr_heap_pool_free-IsPool pool a free v inside fresh =
    let some_size : 0 < pool.obj_size = omega (arith, v.object) in
    let within : leb (pool.capacity * pool.obj_size) (a * pool.obj_size) ≡ false =
      ground (arith, mul-lt-mul_of_pos_right inside some_size) in
    rw (within, mul-mod_left a pool.obj_size, mul-div_cancel a some_size)
      (record {
        sized = length-set pool.slots a pool.free_head ∙ v.sized;
        object = v.object;
        small = v.small;
        inside = (inside, v.inside);
        distinct = (fresh, v.distinct);
        chain = (
          refl,
          rw (get_or-set_self pool.slots a pool.free_head no_slot (omega (arith, inside, v.sized)))
              (IsChain-set pool.slots a pool.free_head pool.free_head free fresh v.chain),
        );
      })

count_free_lem :
    (fuel capacity : ℕ) (slots : List ℕ) (idx : ℕ) (free : List ℕ)
    → length free < fuel
    → capacity < no_slot
    → All (λ a. a < capacity) free
    → IsChain slots idx free
    → count_free fuel slots idx ≡ some (length free)
unfolding count_free
count_free_lem zero capacity slots idx free h k i c = absurd (omega arith)
count_free_lem (suc n) capacity slots idx [] h k i c = rw c refl
count_free_lem (suc n) capacity slots idx (a ∷ rest) h k i c =
    let more : (a == no_slot) ≡ false = ground (arith, i.0, k) in
    rw
      (
        c.0,
        more,
        count_free_lem n capacity slots (get_or slots a no_slot) rest (omega (arith, h)) k i.1 c.1,
      )
      (ground arith)

-- The slots from i on.
abbrev pub range : ℕ → ℕ → List ℕ
range i zero = []
range i (suc n) = i ∷ range (i + 1) n

get_or-chained :
    (i n k : ℕ)
    → k < n
    → get_or (chained i n) k no_slot ≡ (if k + 1 == n then no_slot else i + k + 1)
unfolding chained
get_or-chained i zero k h = absurd (omega arith)
get_or-chained i (suc zero) zero h = ground arith
get_or-chained i (suc zero) (suc k) h = absurd (omega arith)
get_or-chained i (suc (suc n)) zero h = ground arith
get_or-chained i (suc (suc n)) (suc k) h =
    get_or-chained (i + 1) (suc n) k (omega arith) ∙ ground arith

length-chained : (i n : ℕ) → length (chained i n) ≡ n
unfolding chained
length-chained i zero = refl
length-chained i (suc zero) = refl
length-chained i (suc (suc n)) = ap suc (length-chained (i + 1) (suc n))

chained-IsChain :
    (capacity i n idx : ℕ)
    → i + n ≡ capacity
    → idx ≡ (if n == 0 then no_slot else i)
    → IsChain (chained 0 capacity) idx (range i n)
chained-IsChain capacity i zero idx e h = h
chained-IsChain capacity i (suc n) idx e h = (
  h ∙ ground arith,
  chained-IsChain capacity (i + 1) n (get_or (chained 0 capacity) i no_slot) (omega (arith, e))
      (get_or-chained 0 capacity i (omega (arith, e)) ∙ ground (arith, e)),
)

range-IsFresh : (a i n : ℕ) → a < i → IsFresh a (range i n)
range-IsFresh a i zero h = tt
range-IsFresh a i (suc n) h =
    ((λ e. omega (arith, e, h)), range-IsFresh a (i + 1) n (omega (arith, h)))

range-AreDistinct : (i n : ℕ) → AreDistinct (range i n)
range-AreDistinct i zero = tt
range-AreDistinct i (suc n) = (range-IsFresh i (i + 1) n (omega arith), range-AreDistinct (i + 1) n)

range_below : (i n c : ℕ) → i + n ≤ c → All (λ a. a < c) (range i n)
range_below i zero c h = tt
range_below i (suc n) c h = (omega (arith, h), range_below (i + 1) n c (omega (arith, h)))

-- The pool that dmmr_heap_pool_init sets up, when calloc gives room for at least one and fewer than
-- 2 ^ 32 - 1 slots of at least 4 bytes: every slot is free, in order.
pub dmmr_heap_pool_init-IsPool :
    (obj_size capacity : ℕ)
    → 4 ≤ obj_size
    → 1 ≤ capacity
    → capacity < no_slot
    → (pool : HeapPool) × (dmmr_heap_pool_init true obj_size capacity ≡ some pool)
      × IsPool pool (range 0 capacity)
unfolding dmmr_heap_pool_init
dmmr_heap_pool_init-IsPool obj_size capacity big some_slot small =
    let sizes : ((obj_size == 0) || (capacity == 0)) ≡ false = ground (arith, big, some_slot) in
    let fits : ltb obj_size 4 ≡ false = ground (arith, big) in
    (
      record {
        slots = chained 0 capacity;
        obj_size = obj_size;
        capacity = capacity;
        free_head = 0;
      },
      rw (sizes, fits) refl,
      record {
        sized = length-chained 0 capacity;
        object = big;
        small = small;
        inside = range_below 0 capacity capacity (omega arith);
        distinct = range-AreDistinct 0 capacity;
        chain = chained-IsChain capacity 0 capacity 0 (omega arith) (ground (arith, some_slot));
      },
    )

-- In a valid pool, with fuel above the number of free slots, dmmr_heap_pool_used answers how many are not free.
pub dmmr_heap_pool_used_lem :
    (fuel : ℕ) (pool : HeapPool) (free : List ℕ)
    → IsPool pool free
    → length free < fuel
    → dmmr_heap_pool_used fuel pool ≡ some (pool.capacity - length free)
unfolding dmmr_heap_pool_used
dmmr_heap_pool_used_lem fuel pool free v h =
    rw (count_free_lem fuel pool.capacity pool.slots pool.free_head free h v.small v.inside v.chain)
      refl
