-- ===== src/Region.antt =====
-- The regions of mg/source/mg_alloc.c over the pools of membit.c, and what it uses of
-- lib/include/math.h. A region is not null. A block is named by its pool node and the offset behind
-- the pool's head, or by the offset in the buffer of a bump region.
pub mod Math
pub mod Bump
pub mod Nodes
pub mod Pools
use cc_rpc.Base.{
  ℕ, zero, suc, ◌+◌, ◌-◌, ◌*◌, ◌/◌, ◌%◌, ◌^◌, List, [], ◌∷◌, map, Bool, true, false, not, Option,
  none, some, ltb, leb, ◌==◌, if◌then◌else◌, get_or, set, replicate,
}
use cc_rpc.HashMap.{bit_length}
use cc_rpc.Membit.{MembitPool, membit_create, membit_alloc, membit_reset}

-- `31 - __builtin_clz(v)`, for v > 0
unfoldable pub log2_clz32 : ℕ → ℕ
log2_clz32 v = 31 - (32 - bit_length 32 v)

unfoldable pub next_power_of_two_index_u32 : ℕ → ℕ
next_power_of_two_index_u32 x = if leb x 1 then 0 else log2_clz32 (x - 1) + 1

-- `1u << (log2_clz32(x - 1) + 1)`; the shift is defined for x up to 2^31.
unfoldable pub next_power_of_two_u32 : ℕ → ℕ
next_power_of_two_u32 x = if leb x 1 then 1 else 2 ^ (log2_clz32 (x - 1) + 1) % 2 ^ 32

abbrev pub mg_max_class_bits : ℕ
mg_max_class_bits = 12

abbrev pub mg_min_class_bytes : ℕ
mg_min_class_bytes = 32

-- `sizeof(struct mg_block_header)`
abbrev pub block_header_size : ℕ
block_header_size = 8

-- `id` stands for the address of the node's pool.
pub record PoolNode : Type 0 where
  pub id : ℕ
  pub pool : MembitPool
  pub block_count : ℕ
  pub block_size : ℕ

-- The i-th class has the nodes of `classes[i].pools`; its block size is `1u << i`. `next_id` is the
-- address of the next pool.
pub record Classes : Type 0 where
  pub max_bits : ℕ
  pub classes : List (List PoolNode)
  pub next_id : ℕ

pub record BumpState : Type 0 where
  pub cap : ℕ
  pub off : ℕ

pub data Region : Type 0 where
  pool_region : Classes → Region
  bump_region : BumpState → Region

pub data Block : Type 0 where
  in_pool : ℕ → ℕ → Block
  in_bump : ℕ → Block

unfoldable pub mg_pool_block_count : ℕ → ℕ
mg_pool_block_count block_size =
    if leb block_size 64 then 8 else (if leb block_size 128 then 2 else 1)

-- `granted` says which of the pool and the node get memory.
unfoldable pub mg_pool_node_new : Bool × Bool → ℕ → ℕ → Option PoolNode
mg_pool_node_new granted id block_size =
    let count = mg_pool_block_count block_size in
    elim (membit_create granted.0 (block_size % 2 ^ 16) count) [
      | none ↦ none
      | some p ↦
          if granted.1
          then some
              (record { id = id; pool = p; block_count = count; block_size = block_size % 2 ^ 16 })
          else none
    ]

unfoldable pub mg_region_create_pool : Bool → ℕ → Option Region
mg_region_create_pool granted max_class_bits =
    let bits = if ltb mg_max_class_bits max_class_bits then mg_max_class_bits else max_class_bits in
    if not granted
    then none
    else some
        (pool_region (record { max_bits = bits; classes = replicate (suc bits) []; next_id = 0 }))

-- The region itself, and its buffer.
unfoldable pub mg_region_create_bump : Bool × Bool → ℕ → Option Region
mg_region_create_bump granted cap =
    if not granted.0
    then none
    else (if not granted.1 then none else some (bump_region (record { cap = cap; off = 0 })))

-- The walk over the nodes of a class; the block starts with its header.
unfoldable pub alloc_in_nodes : List PoolNode → Option (Block × List PoolNode)
alloc_in_nodes [] = none
alloc_in_nodes (n ∷ ns) = elim (membit_alloc n.pool) [
  | some (off, p) ↦ some (in_pool n.id (off + block_header_size), record n { pool = p } ∷ ns)
  | none ↦ elim (alloc_in_nodes ns) [ none ↦ none | some (b, ns') ↦ some (b, n ∷ ns') ]
]

-- The walk over the classes, from the one with `bits` on.
unfoldable pub alloc_from : ℕ → List (List PoolNode) → Option (Block × List (List PoolNode))
alloc_from bits [] = none
alloc_from (suc bits) (c ∷ cs) = elim (alloc_from bits cs) [
  | none ↦ none
  | some (b, cs') ↦ some (b, c ∷ cs')
]
alloc_from zero (c ∷ cs) = elim (alloc_in_nodes c) [
  | some (b, c') ↦ some (b, c' ∷ cs)
  | none ↦ elim (alloc_from zero cs) [ none ↦ none | some (b, cs') ↦ some (b, c ∷ cs') ]
]

-- `n->next = c->pools; c->pools = n;`
unfoldable pub add_node : ℕ → PoolNode → Classes → Classes
add_node bits n r = record {
  max_bits = r.max_bits;
  classes = set r.classes bits (n ∷ get_or r.classes bits []);
  next_id = r.next_id + 1;
}

-- The search from the class with `bits` on, and a new node in that class if it finds no block.
unfoldable pub alloc_or_grow : Bool × Bool → ℕ → Classes → Option Block × Classes
alloc_or_grow granted bits r = elim (alloc_from bits r.classes) [
  | some (b, cs) ↦ (some b, record r { classes = cs })
  | none ↦ elim (mg_pool_node_new granted r.next_id (2 ^ bits)) [
    | none ↦ (none, r)
    | some n ↦ elim (membit_alloc n.pool) [
      | none ↦ (none, add_node bits n r)
      | some (off, p) ↦
          (some (in_pool n.id (off + block_header_size)), add_node bits (record n { pool = p }) r)
    ]
  ]
]

-- The need is cut to 32 bits where its class is looked up.
unfoldable pub mg_region_alloc_class : Bool × Bool → Classes → ℕ → Option Block × Classes
mg_region_alloc_class granted r size =
    let need = (size + block_header_size) % 2 ^ 64 in
    let bits = next_power_of_two_index_u32 (need % 2 ^ 32) in
    if ltb r.max_bits bits then (none, r) else alloc_or_grow granted bits r

-- `(size + 3) & ~3`, and the sum with the offset, on a `size_t`
unfoldable pub mg_region_alloc_bump : BumpState → ℕ → Option Block × BumpState
mg_region_alloc_bump b size =
    let size' = (size + 3) % 2 ^ 64 / 4 * 4 in
    if ltb b.cap ((b.off + size') % 2 ^ 64)
    then (none, b)
    else (some (in_bump b.off), record b { off = (b.off + size') % 2 ^ 64 })

unfoldable pub mg_region_alloc : Bool × Bool → Region → ℕ → Option Block × Region
mg_region_alloc granted (bump_region b) size =
    let r = mg_region_alloc_bump b size in
    if size == 0 then (none, bump_region b) else (r.0, bump_region r.1)
mg_region_alloc granted (pool_region c) size =
    let r =
      mg_region_alloc_class granted c
        (if ltb size mg_min_class_bytes then mg_min_class_bytes else size) in
    if size == 0 then (none, pool_region c) else (r.0, pool_region r.1)

unfoldable pub reset_nodes : List PoolNode → List PoolNode
reset_nodes [] = []
reset_nodes (n ∷ ns) = record n { pool = membit_reset n.pool } ∷ reset_nodes ns

unfoldable pub reset_classes : List (List PoolNode) → List (List PoolNode)
reset_classes [] = []
reset_classes (c ∷ cs) = reset_nodes c ∷ reset_classes cs

unfoldable pub mg_region_reset : Region → Region
mg_region_reset (bump_region b) = bump_region (record b { off = 0 })
mg_region_reset (pool_region c) = pool_region (record c { classes = reset_classes c.classes })
