-- ===== src/Heap/Init.antt =====
-- The fresh heap, and its statistics.
use cc_rpc.Base.{
  ℕ, ◌+◌, ◌-◌, ◌%◌, ◌^◌, ◌≤◌, ◌<◌, ◌≡◌, refl, ap, ◌∙◌, arith, List, [], ◌∷◌, ◌++◌, ◌>>=◌, true,
  false, some, done, max, ◌==◌, if◌then◌else◌, inl, ltb, le→ltb, ==_iff, length,
}
use cc_rpc.Heap.{
  HeapNode, HeapHead, node, config_heap, heap_struct_size, the_heap, align_up, align_down,
  heap_init, heap_malloc_dbg, heap_lock, heap_unlock, real_heap_malloc, malloc_ready, ready,
  take_block, request_size, HeapStats, count_nodes, heap_get_stats,
}
use cc_rpc.Heap.Blocks.{total}
use cc_rpc.Heap.Valid.{IsHeap}

-- Where the blocks end.
abbrev pub heap_limit : ℕ → ℕ
heap_limit all_heap =
    if all_heap % 8 == 0
    then all_heap + config_heap
    else align_down (all_heap + config_heap - heap_struct_size)

-- Where the node of the tail is.
abbrev pub heap_tail : ℕ → ℕ
heap_tail all_heap = align_down (all_heap + config_heap - heap_struct_size)

-- What `heap_init` makes.
abbrev pub fresh : ℕ → HeapHead
fresh all_heap =
    let size = heap_limit all_heap - align_up all_heap in
    record {
      chain = node (align_up all_heap) size ∷ [];
      tail = some (heap_tail all_heap);
      all_size = size;
      used = [];
      locked = false;
    }

pub heap_init_fresh : (all_heap : ℕ) → heap_init all_heap the_heap ≡ fresh all_heap
unfolding heap_init
heap_init_fresh a = ground arith

pub fresh-IsHeap :
    (all_heap : ℕ)
    → all_heap + config_heap < 2 ^ 64
    → IsHeap (align_up all_heap) (heap_limit all_heap) (fresh all_heap)
fresh-IsHeap a word = record {
  tail = heap_tail a;
  has_tail = refl;
  at_end = ground arith;
  word = ground arith;
  chain = (ground arith, tt);
  counted = omega arith;
  counted_word = ground arith;
  used = tt;
  separate = tt;
  free = λ x c d. absurd d;
  all = λ x lo hi. inl (inl ground arith);
}

both_ready :
    (all_heap : ℕ)
    → ready all_heap (record the_heap { locked = true })
      ≡ ready all_heap (record (fresh all_heap) { locked = true })
unfolding ready heap_init
both_ready a = ground arith

-- `heap_init` makes a valid heap.
pub heap_init-IsHeap :
    (all_heap : ℕ)
    → all_heap + config_heap < 2 ^ 64
    → IsHeap (align_up all_heap) (heap_limit all_heap) (heap_init all_heap the_heap)
      × (all_heap ≤ align_up all_heap)
      × (heap_limit all_heap ≤ all_heap + config_heap)
      × ((heap_init all_heap the_heap).locked ≡ false)
      × ((heap_init all_heap the_heap).used ≡ [])
heap_init-IsHeap a word =
    rw (heap_init_fresh a) (fresh-IsHeap a word, ground arith, ground arith, refl, refl)

abbrev pub max_block : List HeapNode → ℕ
max_block [] = 0
max_block (n ∷ ns) = max n.block_size (max_block ns)

count_nodes_lem :
    (ns : List HeapNode) (st : HeapStats)
    → st.free_size_iter + total ns < 2 ^ 64
    → count_nodes ns st ≡ (record st {
      free_size_iter = st.free_size_iter + total ns;
      max_free_block = max st.max_free_block (max_block ns);
      free_blocks = st.free_blocks + length ns;
    })
unfolding count_nodes
count_nodes_lem [] st h = ground arith
count_nodes_lem (n ∷ ns) st h =
    let e : (st.free_size_iter + n.block_size) % 2 ^ 64 ≡ st.free_size_iter + n.block_size =
      omega arith in
    rw e (count_nodes_lem ns _ (omega arith) ∙ ground arith)

total-tail :
    (ns : List HeapNode) (t : ℕ)
    → (total (ns ++ node t 0 ∷ []) ≡ total ns)
      × (max_block (ns ++ node t 0 ∷ []) ≡ max_block ns)
      × (length (ns ++ node t 0 ∷ []) ≡ length ns + 1)
total-tail [] t = omega arith
total-tail (n ∷ ns) t = let (a, b, c) = total-tail ns t in omega arith

-- What the statistics say of a valid heap.
pub heap_get_stats_lem :
    (start limit : ℕ) (h : HeapHead)
    → IsHeap start limit h
    → heap_get_stats h ≡ (record {
      remain_size = total h.chain;
      free_size_iter = total h.chain;
      max_free_block = max_block h.chain;
      free_blocks = length h.chain + 1;
    })
unfolding heap_get_stats
heap_get_stats_lem start limit h v =
    let (a, b, c) = total-tail h.chain v.tail in
    rw (v.has_tail, v.counted)
      (count_nodes_lem (h.chain ++ node v.tail 0 ∷ []) _
          (omega (arith, a, v.counted_word, v.counted))
        ∙ ground (arith, a, b, c))

-- The first call makes the heap.
pub heap_malloc_dbg_first :
    (all_heap size : ℕ)
    → heap_malloc_dbg all_heap the_heap size ≡ heap_malloc_dbg all_heap (fresh all_heap) size
unfolding heap_malloc_dbg heap_lock real_heap_malloc
heap_malloc_dbg_first a size =
    ap (λ h. malloc_ready h size >>= λ r. done (r.0, heap_unlock r.1)) (both_ready a)

request_size_fits :
    (size : ℕ)
    → size + heap_struct_size ≤ config_heap
    → (size + heap_struct_size ≤ request_size size) × (request_size size ≤ config_heap)
unfolding request_size
request_size_fits size fits = ground arith

-- If the array of the heap is aligned to 8 bytes, the first call of heap_malloc_dbg, for any size
-- above CONFIG_HEAP - 32 and up to CONFIG_HEAP - 16, is granted, and the first byte of the tail's
-- node is one of the bytes that the caller asked for.
pub heap_malloc_dbg_overwrites :
    (all_heap size : ℕ)
    → all_heap % 8 ≡ 0
    → config_heap < size + 32
    → size + heap_struct_size ≤ config_heap
    → (ptr tail : ℕ) × (h' : HeapHead) × (heap_malloc_dbg all_heap the_heap size
        ≡ done (some ptr, h'))
      × (h'.tail ≡ some tail)
      × (ptr ≤ tail)
      × (tail < ptr + size)
unfolding heap_malloc_dbg heap_lock heap_unlock real_heap_malloc malloc_ready ready take_block
heap_malloc_dbg_overwrites a size aligned big fits =
    let (low, high) = request_size_fits size fits in
    let k = request_size size in
    let e : (a % 8 == 0) ≡ true = (==_iff _ _).1 aligned in
    let all : a + config_heap - a ≡ config_heap = omega arith in
    let header : ltb k heap_struct_size ≡ false = le→ltb _ _ (omega arith) in
    let large : ltb config_heap k ≡ false = le→ltb _ _ (omega arith) in
    let whole : ltb 32 (config_heap - k) ≡ false = le→ltb _ _ (omega arith) in
    (
      a + heap_struct_size,
      heap_tail a,
      record {
        chain = [];
        tail = some (heap_tail a);
        all_size = 0;
        used = node a config_heap ∷ [];
        locked = false;
      },
      heap_malloc_dbg_first a size
          ∙ rw
              (
                heap_lock, real_heap_malloc, ready, malloc_ready, header, take_block, e, all, large,
                whole,
              )
              (ap
                (λ n. done (
                  some (a + heap_struct_size),
                  record {
                    chain = [];
                    tail = some (heap_tail a);
                    all_size = n;
                    used = node a config_heap ∷ [];
                    locked = false;
                  },
                ))
                (ground arith)),
      refl,
      omega arith,
      omega arith,
    )
