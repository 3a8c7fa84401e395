-- ===== src/Memalloc.antt =====
-- The second heap, of mg/source/memalloc.c: a ring of blocks in the order of their addresses, and a
-- red-black tree of the free ones by size.
pub mod Choice
pub mod Fit
use cc_rpc.Base.{
  ℕ, ◌+◌, ◌-◌, ◌*◌, ◌/◌, ◌%◌, ◌^◌, Bool, true, false, Option, none, some, Outcome, done, fault,
  ◌>>=◌, ltb, ◌==◌, if◌then◌else◌, List, [], ◌∷◌, ◌++◌,
}
use cc_rpc.Rbtree.{RbEntry, RbRoot, rb_root_init, rb_insert_node, rb_first_greater}
use cc_rpc.Rbtree.Remove.{rb_remove_node}

-- `heap_struct_size`, with 64-bit pointers
abbrev pub heap_node_size : ℕ
heap_node_size = 72

-- `MIN_SIZE`
abbrev pub min_rest : ℕ
min_rest = 144

-- `CONFIG_HEAP`
abbrev pub config_xheap : ℕ
config_xheap = 10240

-- `struct heap_node`; `size` is the value of its tree node, which is also the value in the tree.
pub record HeapBlock : Type 0 where
  pub addr : ℕ
  pub size : ℕ
  pub used : Bool

-- `linked` says that `cache_node.prev` is not NULL; `ring` has the blocks behind `cache_node`.
pub record Xheap : Type 0 where
  pub linked : Bool
  pub ring : List HeapBlock
  pub all_size : ℕ
  pub mem_tree : RbRoot

abbrev pub the_xheap : Xheap
the_xheap = record { linked = false; ring = []; all_size = config_xheap; mem_tree = rb_root_init }

-- `all_heap` is the address of the array.
unfoldable pub mem_init : ℕ → Xheap → Outcome Xheap
mem_init all_heap h =
    let start = if all_heap % 8 == 0 then all_heap else (all_heap + 7) / 8 * 8 in
    let all_size = (h.all_size + 2 ^ 64 - (start - all_heap)) % 2 ^ 64 in
    let first : RbEntry = record { addr = start; value = all_size % 2 ^ 32 } in
    rb_insert_node rb_root_init first >>= λ tree. done (record {
      linked = true;
      ring = record { addr = start; size = all_size % 2 ^ 32; used = false } ∷ [];
      all_size = all_size;
      mem_tree = tree;
    })

-- The size with its header, rounded up
unfoldable pub wanted : ℕ → ℕ
wanted want =
    let n = (want + heap_node_size) % 2 ^ 64 in if n % 8 == 0 then n else (n + (8 - n % 8)) % 2 ^ 64

-- The block that is used, and the free rest of it, if that is large enough. Where the sum of the
-- size and the header wrapped, to less than a header, `new_node` lies over `use_node`, whose links
-- are lost.
unfoldable pub cut_block : ℕ → ℕ → HeapBlock → List HeapBlock → Outcome (List HeapBlock)
cut_block want size b bs =
    let rest =
      if ltb want heap_node_size
      then fault
      else done (
          record { addr = b.addr; size = want; used = true }
          ∷ record { addr = b.addr + want; size = size - want; used = false }
          ∷ bs) in
    if ltb min_rest (size - want)
    then rest
    else done (record { addr = b.addr; size = size; used = true } ∷ bs)

-- The ring, where the block at the address is used. No block there is a wild pointer.
unfoldable pub use_block : ℕ → ℕ → ℕ → List HeapBlock → Outcome (List HeapBlock)
unfolding cut_block
use_block want size addr [] = fault
use_block want size addr (b ∷ bs) =
    let rest = use_block want size addr bs >>= λ r. done (b ∷ r) in
    if b.addr == addr then cut_block want size b bs else rest

-- A free block, which the tree found, is given out.
unfoldable pub give_block : Xheap → ℕ → RbEntry → Outcome (Option ℕ × Xheap)
unfolding use_block
give_block h want find = rb_remove_node h.mem_tree find.addr >>= λ tree.
    use_block want find.value find.addr h.ring >>= λ ring.
    let split = ltb min_rest (find.value - want) in
    let rest : RbEntry = record { addr = find.addr + want; value = find.value - want } in
    (if split then rb_insert_node tree rest else done tree) >>= λ tree'. done (
      some (find.addr + heap_node_size),
      record {
        linked = h.linked;
        ring = ring;
        all_size = (h.all_size + 2 ^ 64 - (if split then want else find.value)) % 2 ^ 64;
        mem_tree = tree';
      },
    )

abbrev pub give_found : Xheap → ℕ → Option RbEntry → Outcome (Option ℕ × Xheap)
give_found h want none = done (none, h)
give_found h want (some find) = give_block h want find

-- The test of the largest block, and the search
unfoldable pub search_block : Xheap → ℕ → Option RbEntry → Outcome (Option ℕ × Xheap)
unfolding give_block
search_block h want none = done (none, h)
search_block h want (some last) =
    if ltb last.value want
    then done (none, h)
    else give_found h want (rb_first_greater h.mem_tree.tree want)

unfoldable pub mem_malloc : ℕ → Xheap → ℕ → Outcome (Option ℕ × Xheap)
unfolding mem_init wanted search_block
mem_malloc all_heap h want =
    if want == 0
    then done (none, h)
    else (if h.linked then done h else mem_init all_heap h) >>= λ h'.
        search_block h' (wanted want) h'.mem_tree.last_node

-- The block at an address, with those before it, the nearest first, and those behind it
unfoldable pub find_block :
    ℕ → List HeapBlock → List HeapBlock → Outcome (List HeapBlock × HeapBlock × List HeapBlock)
find_block addr before [] = fault
find_block addr before (b ∷ bs) =
    let rest = find_block addr (b ∷ before) bs in
    if b.addr == addr then done (before, b, bs) else rest

unfoldable pub join_next :
    RbRoot → HeapBlock → List HeapBlock → Outcome (RbRoot × HeapBlock × List HeapBlock)
join_next tree n [] = done (tree, n, [])
join_next tree n (adj ∷ bs) =
    if adj.used
    then done (tree, n, adj ∷ bs)
    else rb_remove_node tree adj.addr >>= λ tree'.
        done (tree', record n { size = (n.size + adj.size) % 2 ^ 32 }, bs)

unfoldable pub join_prev :
    RbRoot → List HeapBlock → HeapBlock → Outcome (RbRoot × List HeapBlock × HeapBlock)
join_prev tree [] n = done (tree, [], n)
join_prev tree (adj ∷ bs) n =
    if adj.used
    then done (tree, adj ∷ bs, n)
    else rb_remove_node tree adj.addr >>= λ tree'.
        done (tree', bs, record adj { size = (adj.size + n.size) % 2 ^ 32 })

abbrev pub ring_of : List HeapBlock → List HeapBlock → List HeapBlock
ring_of [] ring = ring
ring_of (b ∷ bs) ring = ring_of bs (b ∷ ring)

-- For a pointer that is not NULL
unfoldable pub mem_free : Xheap → ℕ → Outcome Xheap
unfolding find_block join_next join_prev
mem_free h ptr = find_block (ptr - heap_node_size) [] h.ring >>= λ found.
    join_next h.mem_tree (record found.1 { used = false }) found.2 >>= λ next.
    join_prev next.0 found.0 next.1 >>= λ prev.
    rb_insert_node prev.0 (record { addr = prev.2.addr; value = prev.2.size }) >>= λ tree.
    done (record {
      linked = h.linked;
      ring = ring_of prev.1 (prev.2 ∷ next.2);
      all_size = (h.all_size + found.1.size) % 2 ^ 64;
      mem_tree = tree;
    })
