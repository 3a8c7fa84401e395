-- ===== src/Tests/Memory.antt =====
-- A heap of 128 bytes with one free and one used block, and the fresh heap.
use cc_rpc.Base.{
  ℕ, ◌+◌, ◌≤◌, ◌<◌, ◌≡◌, refl, arith, [], ◌∷◌, false, none, some, done, fault, ◌⊎◌, inl, All,
}
use cc_rpc.Heap.{
  node, HeapHead, the_heap, heap_init, request_size, take_block, ready, malloc_ready,
  real_heap_malloc, merge_next, insert_after, insert_free_block, take_used, real_heap_free,
  heap_lock, heap_unlock, heap_malloc_dbg, heap_free_dbg,
}
use cc_rpc.Heap.Laws.{Granted, Freed, heap_malloc_dbg-Granted, heap_free_dbg-Freed}
use cc_rpc.Heap.Valid.{IsHeap}
use cc_rpc.Heap.Init.{heap_malloc_dbg_overwrites}
use cc_rpc.Heap.Steps.{here, next, malloc, IsSound, Reach-IsHeap}

abbrev small : HeapHead
small = record {
  chain = node 4096 64 ∷ [];
  tail = some 4208;
  all_size = 64;
  used = node 4160 64 ∷ [];
  locked = false;
}

small-IsHeap : IsHeap 4096 4224 small
small-IsHeap = record {
  tail = 4208;
  has_tail = refl;
  at_end = omega arith;
  word = omega arith;
  chain = omega arith;
  counted = refl;
  counted_word = omega arith;
  used = omega arith;
  separate = (λ x i c. c, tt);
  free = λ x c d. ground arith;
  all = λ x lo hi. ground arith;
}

heap_malloc_dbg-Granted_example :
    (heap_malloc_dbg 4096 small 10 ≡ done (none, small))
      × All (λ n. n.block_size < request_size 10) small.chain
    ⊎ ((ptr : ℕ) × (h' : HeapHead) × (heap_malloc_dbg 4096 small 10 ≡ done (some ptr, h'))
        × Granted 4096 4224 10 small ptr h')
heap_malloc_dbg-Granted_example =
    heap_malloc_dbg-Granted 4096 4224 small small-IsHeap refl 4096 10 (omega arith)

heap_free_dbg-Freed_example :
    (h' : HeapHead) × (heap_free_dbg small (some 4176) ≡ done h') × Freed 4096 4224 small 4176 h'
heap_free_dbg-Freed_example = heap_free_dbg-Freed 4096 4224 small small-IsHeap refl 4176 (inl refl)

-- The two blocks are joined.
free_joins :
    heap_free_dbg small (some 4176)
    ≡ done (record small { chain = node 4096 128 ∷ []; all_size = 128; used = [] })
unfolding heap_free_dbg heap_lock heap_unlock real_heap_free take_used insert_free_block
    insert_after merge_next
free_joins = refl

free_twice : heap_free_dbg small (some 4112) ≡ fault
unfolding heap_free_dbg heap_lock real_heap_free take_used
free_twice = refl

heap_malloc_dbg_overwrites_example :
    (ptr tail : ℕ) × (h' : HeapHead) × (heap_malloc_dbg 4096 the_heap 1048560 ≡ done (some ptr, h'))
    × (h'.tail ≡ some tail)
    × (ptr ≤ tail)
    × (tail < ptr + 1048560)
heap_malloc_dbg_overwrites_example =
    heap_malloc_dbg_overwrites 4096 1048560 refl (omega arith) (omega arith)

abbrev after_malloc : HeapHead
after_malloc = record {
  chain = node 4216 1048456 ∷ [];
  tail = some 1052656;
  all_size = 1048456;
  used = node 4096 120 ∷ [];
  locked = false;
}

first_malloc : heap_malloc_dbg 4096 the_heap 100 ≡ done (some 4112, after_malloc)
unfolding heap_malloc_dbg heap_lock heap_unlock real_heap_malloc malloc_ready ready heap_init
    take_block request_size
first_malloc = refl

Reach-IsHeap_example : (after_malloc ≡ the_heap) ⊎ IsSound 4096 after_malloc
Reach-IsHeap_example =
    Reach-IsHeap 4096 (omega arith) (next here (malloc 100 (some 4112) (omega arith) first_malloc))
