-- ===== src/Region/Pools.antt =====
-- Blocks of a pool region: each lies in a pool whose blocks have room for it and for its header.
use native.Mathlib.Nat.{pow-le-pow_right}
use cc_rpc.Base.{
  sym, false, ◌&&◌, ltb→lt, ℕ, ◌+◌, ◌*◌, ◌%◌, ◌^◌, ◌≤◌, ◌<◌, ◌≡◌, refl, ap, ◌∙◌, subst, arith, Bool,
  true, ltb, Option, none, some, if◌then◌else◌, Bool-cases, ◌⊎◌, inl, inr,
}
use cc_rpc.Membit.{bit, membit_create}
use cc_rpc.Membit.Blocks.{membit_create_lem, membit_alloc-Allocates}
use cc_rpc.Region.{
  Block, in_pool, PoolNode, Classes, block_header_size, next_power_of_two_index_u32, add_node,
  mg_pool_node_new, mg_pool_block_count, alloc_from, alloc_or_grow, mg_region_alloc_class,
}
use cc_rpc.Region.Math.{next_power_of_two_index_u32_lem}
use cc_rpc.Region.Nodes.{
  IsNode, IsRegion, Took, ClassesTook, FullFrom, PutAt, taken, alloc_from_lem, put_node,
}

-- A node with a new pool, all of whose blocks are free, comes in front of the class and gives the block.
abbrev pub Grew : ℕ → ℕ → Block → Classes → Classes → Type 0
Grew bits need blk r r' =
    (n n' : PoolNode) × (n.id ≡ r.next_id)
    × ((j : ℕ) → bit j n.pool.bitmask ≡ ltb j n.pool.count)
    × Took need blk n n'
    × PutAt bits n' r.classes r'.classes

-- What an allocation from the class with the blocks of 2 ^ bits bytes does.
abbrev pub Served : Bool × Bool → ℕ → ℕ → Classes → Option Block → Classes → Type 0
Served granted bits need r none r' =
    (r' ≡ r)
    × ((r.max_bits < bits) ⊎ (FullFrom bits r.classes × ((granted.0 && granted.1) ≡ false)))
Served granted bits need r (some blk) r' =
    (bits ≤ r.max_bits)
    × (r'.max_bits ≡ r.max_bits)
    × (ClassesTook need blk r.classes r'.classes
        ⊎ (FullFrom bits r.classes × Grew bits need blk r r'))

-- The region stays valid.
abbrev pub ServedWell : Bool × Bool → ℕ → ℕ → Classes → Option Block × Classes → Type 0
ServedWell granted bits need r run = IsRegion run.1 × Served granted bits need r run.0 run.1

-- Stated for a run that is not a pair yet
none-Served :
    (granted : Bool × Bool) (bits need : ℕ) (r : Classes)
    → IsRegion r
    → ((r.max_bits < bits) ⊎ (FullFrom bits r.classes × ((granted.0 && granted.1) ≡ false)))
    → ServedWell granted bits need r (none, r)
none-Served granted bits need r v h = (v, (refl, h))

some-Served :
    (granted : Bool × Bool) (bits need : ℕ) (blk : Block) (r r' : Classes)
    → IsRegion r'
    → Served granted bits need r (some blk) r'
    → ServedWell granted bits need r (some blk, r')
some-Served granted bits need blk r r' v h = (v, h)

from_zero {ℓ} : (P : ℕ → Type ℓ) (n : ℕ) → P n → P (0 + n)
from_zero P n p = let e : n ≡ 0 + n = omega arith in subst P e p

add_node-IsRegion :
    (bits : ℕ) (n : PoolNode) (r : Classes)
    → IsRegion r
    → bits ≤ r.max_bits
    → IsNode bits n
    → IsRegion (add_node bits n r) × PutAt bits n r.classes (add_node bits n r).classes
unfolding add_node
add_node-IsRegion bits n r v low node =
    let (nodes, same, put) =
      put_node bits 0 n r.classes v.nodes (from_zero (λ k. IsNode k n) bits node)
        (omega (arith, v.all_classes)) in
    (record { few = v.few; all_classes = same ∙ v.all_classes; nodes = nodes }, put)

-- A node whose pool has blocks, all of them free.
abbrev IsFresh : ℕ → PoolNode → Type 0
IsFresh id n =
    (n.id ≡ id) × (0 < n.pool.count) × ((j : ℕ) → bit j n.pool.bitmask ≡ ltb j n.pool.count)

block_count_pos : (size : ℕ) → 0 < mg_pool_block_count size
unfolding mg_pool_block_count
block_count_pos size = ground arith

new-IsNode :
    (granted : Bool × Bool) (id bits : ℕ)
    → bits ≤ 12
    → ((mg_pool_node_new granted id (2 ^ bits) ≡ none) × ((granted.0 && granted.1) ≡ false))
      ⊎ ((n : PoolNode) × (mg_pool_node_new granted id (2 ^ bits) ≡ some n)
          × IsNode bits n
          × IsFresh id n)
unfolding mg_pool_node_new
new-IsNode granted id bits low =
    let large = pow-le-pow_right {n = 2} (omega arith) {i = bits} {j = 12} low in
    let positive = pow-le-pow_right {n = 2} (omega arith) {i = 0} {j = bits} (omega arith) in
    let narrow : 2 ^ bits % 2 ^ 16 ≡ 2 ^ bits = omega arith in
    let (p, made, v, big, _, counts, free, _) =
      membit_create_lem (2 ^ bits) (mg_pool_block_count (2 ^ bits)) (omega arith) (omega arith) in
    let formed : membit_create true (2 ^ bits % 2 ^ 16) (mg_pool_block_count (2 ^ bits)) ≡ some p =
      ap (λ size. membit_create true size (mg_pool_block_count (2 ^ bits))) narrow ∙ made in
    let some_blocks : 0 < p.count = omega (arith, counts, block_count_pos (2 ^ bits)) in
    elim (Bool-cases granted.0) [
      | inr e ↦ inl (unfold membit_create in rw (e, mg_pool_node_new) refl, rw e refl)
      | inl e ↦ elim (Bool-cases granted.1) [
        | inr f ↦ inl (rw (e, mg_pool_node_new, formed, f) refl, rw (e, f) refl)
        | inl f ↦ inr (
          record {
            id = id;
            pool = p;
            block_count = mg_pool_block_count (2 ^ bits);
            block_size = 2 ^ bits % 2 ^ 16;
          },
          rw (e, mg_pool_node_new, formed, f) refl,
          (v, big),
          (refl, some_blocks, free),
        )
      ]
    ]

fresh-free : (id : ℕ) (n : PoolNode) → IsFresh id n → n.pool.bitmask ≡ 0 → ⊥
fresh-free id n (_, pos, free) e =
    let first : bit 0 0 ≡ ltb 0 n.pool.count = ap (bit 0) (sym e) ∙ free 0 in
    let some_block : ltb 0 n.pool.count ≡ true = ground arith in
    let taken_bit : bit 0 0 ≡ false = unfold bit in refl in cc (first, some_block, taken_bit)

grow-Served :
    (granted : Bool × Bool) (bits need : ℕ) (r : Classes) (n : PoolNode)
    → IsRegion r
    → need ≤ 2 ^ bits
    → bits ≤ r.max_bits
    → alloc_from bits r.classes ≡ none
    → FullFrom bits r.classes
    → mg_pool_node_new granted r.next_id (2 ^ bits) ≡ some n
    → IsNode bits n
    → IsFresh r.next_id n
    → ServedWell granted bits need r (alloc_or_grow granted bits r)
unfolding alloc_or_grow
grow-Served granted bits need r n v room inside none_left full made node fresh =
    elim (membit_alloc-Allocates n.pool node.0) [
      | inl (zeros, _) ↦ absurd (fresh-free r.next_id n fresh zeros)
      | inr a ↦
          let (node', took) = taken bits need n node room a in
          let n' = record n { pool = a.after } in
          let blk = in_pool n.id (n.pool.block_size * a.idx + block_header_size) in
          let (valid, put) = add_node-IsRegion bits n' r v inside node' in
          rw (alloc_or_grow, none_left, made, a.runs)
            (some-Served granted bits need blk r (add_node bits n' r) valid
              (inside, unfold add_node in refl, inr (full, (n, n', fresh.0, fresh.2, took, put))))
    ]

alloc_or_grow-Served :
    (granted : Bool × Bool) (bits need : ℕ) (r : Classes)
    → IsRegion r
    → need ≤ 2 ^ bits
    → bits ≤ r.max_bits
    → ServedWell granted bits need r (alloc_or_grow granted bits r)
unfolding alloc_or_grow
alloc_or_grow-Served granted bits need r v room inside =
    elim (alloc_from_lem bits 0 need r.classes v.nodes (from_zero (λ k. need ≤ 2 ^ k) bits room)) [
      | inr (blk, cs, e, nodes, same, took) ↦
          rw (alloc_or_grow, e)
            (some-Served granted bits need blk r (record r { classes = cs })
              (record { few = v.few; all_classes = same ∙ v.all_classes; nodes = nodes })
              (inside, refl, inl took))
      | inl (e, full) ↦ elim (new-IsNode granted r.next_id bits (omega (arith, v.few))) [
        | inl (f, refused) ↦
            rw (alloc_or_grow, e, f) (none-Served granted bits need r v (inr (full, refused)))
        | inr (n, f, node, fresh) ↦
            grow-Served granted bits need r n v room inside e full f node fresh
      ]
    ]

-- In a valid pool region, for a size that with its header is at most 2^31, let 2^bits be the least
-- power of two that the size and the header fit in. An allocation keeps the region valid, whatever
-- memory there is. Either it returns NULL with nothing changed, and then the region has no class
-- with bits, or no pool from that class on has a free block and the memory for a new pool is
-- refused; or it gives out a block that was free and has room for the size and the header, and
-- either just that block is taken in a pool of the region and all other pools are as before, or no
-- pool from the class on had a free block, and a new pool with all blocks free but this one comes in
-- front of the pools of the class, which are all still there, as are the other classes.
pub mg_region_alloc_class-Served :
    (granted : Bool × Bool) (r : Classes) (size : ℕ)
    → IsRegion r
    → size + block_header_size ≤ 2 ^ 31
    → (bits : ℕ) × (size + block_header_size ≤ 2 ^ bits)
      × (2 ^ bits < 2 * (size + block_header_size))
      × ServedWell granted bits (size + block_header_size) r (mg_region_alloc_class granted r size)
unfolding mg_region_alloc_class
mg_region_alloc_class-Served granted r size v small =
    let need = size + block_header_size in
    let whole : need % 2 ^ 64 ≡ need = omega arith in
    let whole' : need % 2 ^ 32 ≡ need = omega arith in
    let (room, least, _) = next_power_of_two_index_u32_lem need (omega arith) small in
    let bits = next_power_of_two_index_u32 need in
    (
      bits,
      room,
      least,
      elim (Bool-cases (ltb r.max_bits bits)) [
        | inl large ↦
            rw (whole, whole', large) (none-Served granted bits need r v (inl (ltb→lt _ _ large)))
        | inr low ↦
            rw (whole, whole', low) (alloc_or_grow-Served granted bits need r v room (ground arith))
      ],
    )

-- A request of 2^32 bytes more than a size below 2^32 is served exactly like that size.
pub mg_region_alloc_class_cut :
    (granted : Bool × Bool) (r : Classes) (size : ℕ)
    → size < 2 ^ 32
    → mg_region_alloc_class granted r (2 ^ 32 + size) ≡ mg_region_alloc_class granted r size
unfolding mg_region_alloc_class
mg_region_alloc_class_cut granted r size h =
    let cut : (2 ^ 32 + size + 8) % 2 ^ 64 % 2 ^ 32 ≡ (size + 8) % 2 ^ 64 % 2 ^ 32 = omega arith in
    ap
      (λ need.
        if ltb r.max_bits (next_power_of_two_index_u32 need)
        then (none, r)
        else alloc_or_grow granted (next_power_of_two_index_u32 need) r)
      cut
