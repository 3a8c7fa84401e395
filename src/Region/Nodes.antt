-- ===== src/Region/Nodes.antt =====
-- The walks of `mg_region_alloc_class` over the nodes of a class and over the classes.
use cc_rpc.Base.{
  ◌++◌, true, if◌then◌else◌, ◌==◌, ℕ, zero, suc, ◌+◌, ◌*◌, ◌^◌, ◌≤◌, ◌<◌, ◌≡◌, refl, ap, subst,
  arith, List, [], ◌∷◌, false, none, some, ◌⊎◌, inl, inr, All, length, get_or, set,
}
use cc_rpc.HashMap.Init.{double}
use cc_rpc.Membit.{bit, membit_alloc}
use cc_rpc.Membit.Blocks.{IsPool, Allocates, membit_alloc-Allocates}
use cc_rpc.Region.{Block, in_pool, PoolNode, Classes, block_header_size, alloc_in_nodes, alloc_from}

-- A node of the class with the block size 2 ^ b.
abbrev pub IsNode : ℕ → PoolNode → Type 0
IsNode b n = IsPool n.pool × (2 ^ b ≤ n.pool.block_size)

abbrev pub AreClasses : ℕ → List (List PoolNode) → Type 0
AreClasses b [] = Unit {0}
AreClasses b (c ∷ cs) = All (IsNode b) c × AreClasses (suc b) cs

pub record IsRegion (r : Classes) : Type 0 where
  pub few : r.max_bits ≤ 12
  pub all_classes : length r.classes ≡ suc r.max_bits
  pub nodes : AreClasses 0 r.classes

-- The block was free in the node, whose blocks have `need` bytes; it is taken now, and the node is else
-- as before.
abbrev pub Took : ℕ → Block → PoolNode → PoolNode → Type 0
Took need blk n n' =
    (idx : ℕ) × (blk ≡ in_pool n.id (n.pool.block_size * idx + block_header_size))
    × (idx < n.pool.count)
    × (need ≤ n.pool.block_size)
    × (bit idx n.pool.bitmask ≡ true)
    × ((j : ℕ) → bit j n'.pool.bitmask ≡ (if idx == j then false else bit j n.pool.bitmask))
    × (n'.pool.block_size ≡ n.pool.block_size)
    × (n'.pool.count ≡ n.pool.count)
    × (n' ≡ record n { pool = n'.pool })

-- One node of the list gives the block, and the others are as before.
abbrev pub NodesTook : ℕ → Block → List PoolNode → List PoolNode → Type 0
NodesTook need blk (n ∷ ns) (m ∷ ms) =
    (Took need blk n m × (ms ≡ ns)) ⊎ ((m ≡ n) × NodesTook need blk ns ms)
NodesTook need blk [] ms = ⊥
NodesTook need blk (n ∷ ns) [] = ⊥

-- One class gives the block, and the others are as before.
abbrev pub ClassesTook : ℕ → Block → List (List PoolNode) → List (List PoolNode) → Type 0
ClassesTook need blk (c ∷ cs) (d ∷ ds) =
    (NodesTook need blk c d × (ds ≡ cs)) ⊎ ((d ≡ c) × ClassesTook need blk cs ds)
ClassesTook need blk [] ds = ⊥
ClassesTook need blk (c ∷ cs) [] = ⊥

-- No class from the one at the position on has a free block.
abbrev pub FullFrom : ℕ → List (List PoolNode) → Type 0
FullFrom bits [] = Unit {0}
FullFrom (suc bits) (c ∷ cs) = FullFrom bits cs
FullFrom zero (c ∷ cs) = All (λ n. n.pool.bitmask ≡ 0) c × FullFrom zero cs

-- A node from whose pool a block was taken.
pub taken :
    (b need : ℕ) (n : PoolNode)
    → IsNode b n
    → need ≤ 2 ^ b
    → (a : Allocates n.pool (membit_alloc n.pool))
    → IsNode b (record n { pool = a.after })
      × Took need
          (in_pool n.id (n.pool.block_size * a.idx + block_header_size))
          n
          (record n { pool = a.after })
taken b need n (v, big) small a = (
  (a.valid, omega (arith, a.block_size)),
  (a.idx, refl, a.in_range, omega arith, a.was_free, a.others, a.block_size, a.count, refl),
)

abbrev pub NodesServe : ℕ → ℕ → List PoolNode → Type 0
NodesServe b need ns =
    (blk : Block) × (ns' : List PoolNode) × (alloc_in_nodes ns ≡ some (blk, ns'))
    × All (IsNode b) ns'
    × NodesTook need blk ns ns'

alloc_in_nodes_lem :
    (b need : ℕ) (ns : List PoolNode)
    → All (IsNode b) ns
    → need ≤ 2 ^ b
    → ((alloc_in_nodes ns ≡ none) × All (λ n. n.pool.bitmask ≡ 0) ns) ⊎ NodesServe b need ns
unfolding alloc_in_nodes
alloc_in_nodes_lem b need [] h small = inl (refl, tt)
alloc_in_nodes_lem b need (n ∷ ns) (v, vs) small = elim (membit_alloc-Allocates n.pool v.0) [
  | inr a ↦
      let (node, holds) = taken b need n v small a in
      inr (
        in_pool n.id (n.pool.block_size * a.idx + block_header_size),
        record n { pool = a.after } ∷ ns,
        rw (alloc_in_nodes, a.runs) refl,
        (node, vs),
        inl (holds, refl),
      )
  | inl (zeros, full) ↦ elim (alloc_in_nodes_lem b need ns vs small) [
    | inl (e, rest) ↦ inl (rw (alloc_in_nodes, full, e) refl, (zeros, rest))
    | inr (blk, ns', e, vs', holds) ↦
        inr (blk, n ∷ ns', rw (alloc_in_nodes, full, e) refl, (v, vs'), inr (refl, holds))
  ]
]

abbrev pub ClassesServe : ℕ → ℕ → ℕ → List (List PoolNode) → Type 0
ClassesServe bits b need cs =
    (blk : Block) × (cs' : List (List PoolNode)) × (alloc_from bits cs ≡ some (blk, cs'))
    × AreClasses b cs'
    × (length cs' ≡ length cs)
    × ClassesTook need blk cs cs'

pub alloc_from_lem :
    (bits b need : ℕ) (cs : List (List PoolNode))
    → AreClasses b cs
    → need ≤ 2 ^ (b + bits)
    → ((alloc_from bits cs ≡ none) × FullFrom bits cs) ⊎ ClassesServe bits b need cs
unfolding alloc_from
alloc_from_lem zero b need [] h small = inl (refl, tt)
alloc_from_lem (suc bits) b need [] h small = inl (refl, tt)
alloc_from_lem (suc bits) b need (c ∷ cs) (v, vs) small =
    let moved : b + suc bits ≡ suc b + bits = omega arith in
    elim (alloc_from_lem bits (suc b) need cs vs (subst (λ e. need ≤ 2 ^ e) moved small)) [
      | inl (e, rest) ↦ inl (rw (alloc_from, e) refl, rest)
      | inr (blk, cs', e, vs', same, serves) ↦
          inr (blk, c ∷ cs', rw (alloc_from, e) refl, (v, vs'), ap suc same, inr (refl, serves))
    ]
alloc_from_lem zero b need (c ∷ cs) (v, vs) small =
    let here : need ≤ 2 ^ b =
      let e : b + 0 ≡ b = omega arith in subst (λ k. need ≤ 2 ^ k) e small in
    let beyond : need ≤ 2 ^ (suc b + 0) =
      let e : suc b ≡ suc b + 0 = omega arith in
      subst (λ k. need ≤ 2 ^ k) e (omega (arith, double b)) in
    elim (alloc_in_nodes_lem b need c v here) [
      | inr (blk, c', e, v', holds) ↦
          inr (blk, c' ∷ cs, rw (alloc_from, e) refl, (v', vs), refl, inl (holds, refl))
      | inl (full, none_here) ↦ elim (alloc_from_lem zero (suc b) need cs vs beyond) [
        | inl (e, rest) ↦ inl (rw (alloc_from, full, e) refl, (none_here, rest))
        | inr (blk, cs', e, vs', same, serves) ↦
            inr (
              blk,
              c ∷ cs',
              rw (alloc_from, full, e) refl,
              (v, vs'),
              ap suc same,
              inr (refl, serves),
            )
      ]
    ]

-- The lists are the same but for a node in front of the class at the position.
abbrev pub PutAt : ℕ → PoolNode → List (List PoolNode) → List (List PoolNode) → Type 0
PutAt i n cs cs' =
    (before : List (List PoolNode)) × (c : List PoolNode) × (behind : List (List PoolNode)) × (cs
      ≡ before ++ (c ∷ behind))
    × (length before ≡ i)
    × (cs' ≡ before ++ ((n ∷ c) ∷ behind))

pub put_node :
    (i b : ℕ) (n : PoolNode) (cs : List (List PoolNode))
    → AreClasses b cs
    → IsNode (b + i) n
    → i < length cs
    → AreClasses b (set cs i (n ∷ get_or cs i []))
      × (length (set cs i (n ∷ get_or cs i [])) ≡ length cs)
      × PutAt i n cs (set cs i (n ∷ get_or cs i []))
put_node i b n [] vs h lt = absurd (omega arith)
put_node zero b n (c ∷ cs) (v, vs) h lt =
    let e : b + 0 ≡ b = omega arith in
    ((((subst (λ k. IsNode k n) e h), v), vs), refl, ([], c, cs, refl, refl, refl))
put_node (suc i) b n (c ∷ cs) (v, vs) h lt =
    let e : b + suc i ≡ suc b + i = omega arith in
    let (rest, same, (before, d, behind, whole, at, put)) =
      put_node i (suc b) n cs vs (subst (λ k. IsNode k n) e h) (omega arith) in
    (
      (v, rest),
      ap suc same,
      (c ∷ before, d, behind, ap (λ t. c ∷ t) whole, ap suc at, ap (λ t. c ∷ t) put),
    )
