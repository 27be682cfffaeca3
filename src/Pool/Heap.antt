-- ===== src/Pool/Heap.antt =====
-- dmmr_heap_pool.c. A slot is the unsigned number in its first bytes, which links the free slots; the
-- other bytes of a slot belong to its user and are left aside. A pointer is a byte offset into the
-- buffer. Each operation holds the mutex while it changes the free list.
use http_dmmr_nginx.Base.{
  ℕ, zero, suc, ◌+◌, ◌-◌, ◌*◌, ◌/◌, ◌%◌, ◌^◌, Bool, not, ◌||◌, List, [], ◌∷◌, Option, none, some,
  if◌then◌else◌, get_or, set, ltb, leb, ◌==◌,
}

-- dmmr_heap_pool_t, with the links in its buffer, by slot.
pub record HeapPool : Type 0 where
  pub slots : List ℕ
  pub obj_size : ℕ
  pub capacity : ℕ
  pub free_head : ℕ

-- (unsigned)-1
abbrev pub no_slot : ℕ
no_slot = 2 ^ 32 - 1

-- The links of `n` slots from slot i on: each to the next, the last to none.
unfoldable pub chained : ℕ → ℕ → List ℕ
chained i zero = []
chained i (suc zero) = no_slot ∷ []
chained i (suc (suc n)) = (i + 1) ∷ chained (i + 1) (suc n)

unfoldable pub dmmr_heap_pool_init : Bool → ℕ → ℕ → Option HeapPool
dmmr_heap_pool_init calloc obj_size capacity =
    if (obj_size == 0) || (capacity == 0)
    then none
    else if ltb obj_size 4
    then none
    else if not calloc
    then none
    else some (record {
      slots = chained 0 capacity;
      obj_size = obj_size;
      capacity = capacity;
      free_head = 0;
    })

-- The offset of the slot that is handed out, which is zeroed.
unfoldable pub dmmr_heap_pool_alloc : HeapPool → Option ℕ × HeapPool
dmmr_heap_pool_alloc pool = if pool.free_head == no_slot then (none, pool) else (
  some (pool.free_head * pool.obj_size),
  record pool {
    slots = set pool.slots pool.free_head 0;
    free_head = get_or pool.slots pool.free_head no_slot;
  },
)

-- Of a pointer at a byte offset. `none` is NULL, or an address before the buffer.
unfoldable pub dmmr_heap_pool_free : HeapPool → Option ℕ → HeapPool
dmmr_heap_pool_free pool none = pool
dmmr_heap_pool_free pool (some offset) =
    let idx = offset / pool.obj_size in
    if leb (pool.capacity * pool.obj_size) offset
    then pool
    else if not (offset % pool.obj_size == 0)
    then pool
    else record pool { slots = set pool.slots idx pool.free_head; free_head = idx }

-- The loop of dmmr_heap_pool_used, on fuel: the number of links from a slot on. A chain through n
-- slots needs n + 1 of it.
unfoldable pub count_free : ℕ → List ℕ → ℕ → Option ℕ
count_free zero slots idx = none
count_free (suc n) slots idx =
    let rest = count_free n slots (get_or slots idx no_slot) in
    if idx == no_slot then some 0 else more rest
  where
    more : Option ℕ → Option ℕ
    more none = none
    more (some k) = some (k + 1)

unfoldable pub dmmr_heap_pool_used : ℕ → HeapPool → Option ℕ
dmmr_heap_pool_used fuel pool = used_of (count_free fuel pool.slots pool.free_head)
  where
    used_of : Option ℕ → Option ℕ
    used_of none = none
    used_of (some free_count) = some (pool.capacity - free_count)
