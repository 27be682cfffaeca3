-- ===== src/Pool/Tests.antt =====
-- A pool of two slots, and the theorems on pools at concrete inputs.
use http_dmmr_nginx.Base.{◌≡◌, ◌-◌, ◌*◌, refl, [], ◌∷◌, some, arith}
use http_dmmr_nginx.Pool.Heap.{
  HeapPool, dmmr_heap_pool_alloc, dmmr_heap_pool_free, dmmr_heap_pool_used, no_slot,
}
use http_dmmr_nginx.Pool.Chain.{
  IsPool, first_offset, tail, dmmr_heap_pool_alloc-IsPool, dmmr_heap_pool_free-IsPool,
  dmmr_heap_pool_used_lem,
}

-- Slot 1 is free, slot 0 is in use.
abbrev half : HeapPool
half = record { slots = 7 ∷ no_slot ∷ []; obj_size = 8; capacity = 2; free_head = 1 }

half-IsPool : IsPool half (1 ∷ [])
half-IsPool = record {
  sized = refl;
  object = omega arith;
  small = omega arith;
  inside = (omega arith, tt);
  distinct = (tt, tt);
  chain = (refl, refl);
}

dmmr_heap_pool_alloc-IsPool_example :
    let r = dmmr_heap_pool_alloc half in
    (r.0 ≡ first_offset 8 (1 ∷ [])) × IsPool r.1 (tail (1 ∷ []))
dmmr_heap_pool_alloc-IsPool_example = dmmr_heap_pool_alloc-IsPool half (1 ∷ []) half-IsPool

dmmr_heap_pool_free-IsPool_example : IsPool (dmmr_heap_pool_free half (some (0 * 8))) (0 ∷ 1 ∷ [])
dmmr_heap_pool_free-IsPool_example =
    dmmr_heap_pool_free-IsPool half 0 (1 ∷ []) half-IsPool (omega arith) ((λ e. omega arith), tt)

dmmr_heap_pool_used_lem_example : dmmr_heap_pool_used 2 half ≡ some (2 - 1)
dmmr_heap_pool_used_lem_example = dmmr_heap_pool_used_lem 2 half (1 ∷ []) half-IsPool (omega arith)
