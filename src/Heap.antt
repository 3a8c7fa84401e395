-- ===== src/Heap.antt =====
-- The allocator of mg/source/heap.c. `the_heap` is a record: the nodes that its `next` pointers lead
-- through, up to the tail, are a list, and the headers of the blocks that were given out are another,
-- since a block is found by its address when it is freed. Only the node of the tail itself is left
-- out: it has size 0. HEAP_TRACKING is 0, as in mg/include/heap.h.
pub mod Blocks
pub mod Malloc
pub mod Free
pub mod Valid
pub mod Laws
pub mod Init
pub mod Steps
use cc_rpc.Base.{
  ℕ, ◌+◌, ◌-◌, ◌*◌, ◌/◌, ◌%◌, ◌^◌, List, [], ◌∷◌, ◌++◌, Bool, true, false, Option, none, some,
  Outcome, done, refuse, fault, ◌>>=◌, ltb, ◌==◌, if◌then◌else◌,
}

-- `CONFIG_HEAP`
abbrev pub config_heap : ℕ
config_heap = 1048576

-- `sizeof(struct heap_node)`, rounded up
abbrev pub heap_struct_size : ℕ
heap_struct_size = 16

-- `MIN_SIZE`
abbrev pub min_size : ℕ
min_size = 32

pub record HeapNode : Type 0 where
  pub addr : ℕ
  pub block_size : ℕ

abbrev pub node : ℕ → ℕ → HeapNode
node a n = record { addr = a; block_size = n }

-- `chain` starts at `head.next` and ends in front of the tail. `used` are the headers of the blocks
-- that were given out. `locked` is `mem_lock`.
pub record HeapHead : Type 0 where
  pub chain : List HeapNode
  pub tail : Option ℕ
  pub all_size : ℕ
  pub used : List HeapNode
  pub locked : Bool

-- `the_heap` before the first call.
abbrev pub the_heap : HeapHead
the_heap = record { chain = []; tail = none; all_size = config_heap; used = []; locked = false }

-- `(n + ALIGNMENT_BYTE) & ~ALIGNMENT_BYTE` and `n & ~ALIGNMENT_BYTE`
abbrev pub align_up : ℕ → ℕ
align_up n = if n % 8 == 0 then n else (n + 7) / 8 * 8

abbrev pub align_down : ℕ → ℕ
align_down n = n / 8 * 8

-- `all_heap` is the address of the array.
unfoldable pub heap_init : ℕ → HeapHead → HeapHead
heap_init all_heap h =
    let start = align_up all_heap in
    let size = h.all_size - (start - all_heap) in
    let end = start + size - heap_struct_size in
    let end' = align_down end in
    let size' = if end % 8 == 0 then size else end' - start in
    record h { chain = node start size' ∷ []; tail = some end'; all_size = size' }

-- The size with its header, rounded up, on a `size_t`.
unfoldable pub request_size : ℕ → ℕ
request_size size =
    let n = (size + heap_struct_size) % 2 ^ 64 in
    if n % 8 == 0 then n else (n + (8 - n % 8)) % 2 ^ 64

-- The walk to the first node that is large enough, which leaves the list, cut where enough is left
-- over. `none` is the NULL behind the tail.
unfoldable pub take_block : ℕ → List HeapNode → Option (HeapNode × List HeapNode)
take_block size [] = none
take_block size (n ∷ ns) =
    if ltb n.block_size size
    then elim (take_block size ns) [ none ↦ none | some (u, rest) ↦ some (u, n ∷ rest) ]
    else (if ltb min_size (n.block_size - size)
        then some (node n.addr size, node (n.addr + size) (n.block_size - size) ∷ ns)
        else some (n, ns))

-- `if (the_heap.tail == NULL) heap_init();`
unfoldable pub ready : ℕ → HeapHead → HeapHead
ready all_heap h = elim h.tail [ none ↦ heap_init all_heap h | some t ↦ h ]

-- `real_heap_malloc` behind that. Where the sum wraps around to less than a header, the new node would
-- lie over the used one.
unfoldable pub malloc_ready : HeapHead → ℕ → Outcome (Option ℕ × HeapHead)
malloc_ready h size =
    let want = request_size size in
    if ltb want heap_struct_size then fault else elim (take_block want h.chain) [
      | none ↦ done (none, h)
      | some (u, rest) ↦ done (
        some (u.addr + heap_struct_size),
        record h {
          chain = rest;
          all_size = (h.all_size + 2 ^ 64 - u.block_size) % 2 ^ 64;
          used = u ∷ h.used;
        },
      )
    ]

unfoldable pub real_heap_malloc : ℕ → HeapHead → ℕ → Outcome (Option ℕ × HeapHead)
real_heap_malloc all_heap h size = malloc_ready (ready all_heap h) size

-- The node in front of the rest of the list; the two are joined where they meet.
unfoldable pub merge_next : HeapNode → List HeapNode → List HeapNode
merge_next n [] = n ∷ []
merge_next n (m ∷ ms) =
    if n.addr + n.block_size == m.addr
    then node n.addr ((n.block_size + m.block_size) % 2 ^ 64) ∷ ms
    else n ∷ m ∷ ms

unfoldable pub insert_after : ℕ → HeapNode → HeapNode → List HeapNode → Outcome (List HeapNode)
insert_after tail n iter [] =
    if ltb tail n.addr then fault else done (merge_next iter (merge_next n []))
insert_after tail n iter (m ∷ ms) =
    if ltb m.addr n.addr
    then (insert_after tail n m ms >>= λ r. done (iter ∷ r))
    else done (merge_next iter (merge_next n (m ∷ ms)))

-- The walk starts at the head, which is no part of the array. Behind the tail it reads through NULL.
unfoldable pub insert_free_block : ℕ → HeapNode → List HeapNode → Outcome (List HeapNode)
insert_free_block tail n [] = if ltb tail n.addr then fault else done (merge_next n [])
insert_free_block tail n (m ∷ ms) =
    if ltb m.addr n.addr then insert_after tail n m ms else done (merge_next n (m ∷ ms))

-- The header in front of a pointer that was given out and is not freed yet.
unfoldable pub take_used : ℕ → List HeapNode → Option (HeapNode × List HeapNode)
take_used ptr [] = none
take_used ptr (u ∷ us) =
    if u.addr + heap_struct_size == ptr
    then some (u, us)
    else elim (take_used ptr us) [ none ↦ none | some (v, rest) ↦ some (v, u ∷ rest) ]

-- A pointer that is not NULL; any other than those given out is a fault.
unfoldable pub real_heap_free : HeapHead → ℕ → Outcome HeapHead
real_heap_free h ptr = elim (take_used ptr h.used) [
  | none ↦ fault
  | some (u, us) ↦ elim h.tail [
    | none ↦ fault
    | some t ↦ insert_free_block t u h.chain >>= λ chain.
        done
          (record h { chain = chain; all_size = (h.all_size + u.block_size) % 2 ^ 64; used = us })
  ]
]

-- A lock that is held keeps the caller waiting.
unfoldable pub heap_lock : HeapHead → Outcome HeapHead
heap_lock h = if h.locked then refuse else done (record h { locked = true })

unfoldable pub heap_unlock : HeapHead → HeapHead
heap_unlock h = record h { locked = false }

unfoldable pub heap_malloc_dbg : ℕ → HeapHead → ℕ → Outcome (Option ℕ × HeapHead)
heap_malloc_dbg all_heap h size =
    heap_lock h >>= λ h₁. real_heap_malloc all_heap h₁ size >>= λ r. done (r.0, heap_unlock r.1)

-- `none` is NULL.
unfoldable pub heap_free_dbg : HeapHead → Option ℕ → Outcome HeapHead
heap_free_dbg h none = heap_lock h >>= λ h₁. done (heap_unlock h₁)
heap_free_dbg h (some ptr) =
    heap_lock h >>= λ h₁. real_heap_free h₁ ptr >>= λ h₂. done (heap_unlock h₂)

pub record HeapStats : Type 0 where
  pub remain_size : ℕ
  pub free_size_iter : ℕ
  pub max_free_block : ℕ
  pub free_blocks : ℕ

unfoldable pub count_nodes : List HeapNode → HeapStats → HeapStats
count_nodes [] st = st
count_nodes (n ∷ ns) st = count_nodes ns (record st {
  free_size_iter = (st.free_size_iter + n.block_size) % 2 ^ 64;
  max_free_block = if ltb st.max_free_block n.block_size then n.block_size else st.max_free_block;
  free_blocks = st.free_blocks + 1;
})

-- The tail is a node of size 0 at the end of the walk, if there is one.
unfoldable pub heap_get_stats : HeapHead → HeapStats
heap_get_stats h =
    count_nodes (elim h.tail [ none ↦ [] | some t ↦ h.chain ++ node t 0 ∷ [] ])
      (record { remain_size = h.all_size; free_size_iter = 0; max_free_block = 0; free_blocks = 0 })
