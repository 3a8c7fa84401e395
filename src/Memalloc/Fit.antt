-- ===== src/Memalloc/Fit.antt =====
-- Which block mem_malloc gives out.
use cc_rpc.Base.{
  ◌≤◌, ℕ, ◌+◌, ◌-◌, ◌%◌, ◌^◌, ◌<◌, ◌≡◌, refl, sym, ap, ◌∙◌, subst, arith, Bool, true, false, Option,
  none, some, Outcome, done, ◌>>=◌, ltb, ltb→lt, ◌==◌, if◌then◌else◌, List, ◌∷◌, ◌++◌, Bool-cases,
  inl, inr, length, length-append,
}
use cc_rpc.Rbtree.{RbEntry, RbRoot, rb_insert_node}
use cc_rpc.Rbtree.Order.{to_list, insert_ordered, Below-weaken}
use cc_rpc.Rbtree.Query.{first_greater, last?, rb_first_greater_lem}
use cc_rpc.Rbtree.Root.{IsRbRoot, rb_insert_node-IsRbRoot}
use cc_rpc.Rbtree.Nodes.{rb_remove_node-IsRbRoot}
use cc_rpc.Rbtree.Locate.{IsAt}
use cc_rpc.Memalloc.{
  Xheap, heap_node_size, min_rest, wanted, give_block, give_found, search_block, mem_malloc,
  mem_init,
}
use cc_rpc.Memalloc.Choice.{
  Best, CutAt, IsXheap, first_greater-Best, found_backed, last-Below, last_none, use_block-CutAt,
}

-- The block of x is given out: the ring is cut there, and the node of x leaves the tree, where the free
-- rest comes in.
abbrev pub Given : Xheap → ℕ → RbEntry → Outcome (Option ℕ × Xheap) → Type 0
Given h want x m =
    (h' : Xheap) × (xs : List RbEntry) × (y : RbEntry) × (ys : List RbEntry) × (m
      ≡ done (some (x.addr + heap_node_size), h'))
    × CutAt want x.value x.addr h.ring h'.ring
    × IsRbRoot h'.mem_tree
    × (to_list h.mem_tree.tree ≡ xs ++ (y ∷ ys))
    × (y.addr ≡ x.addr)
    × (to_list h'.mem_tree.tree ≡ (
        if ltb min_rest (x.value - want)
        then insert_ordered (record { addr = x.addr + want; value = x.value - want }) (xs ++ ys)
        else xs ++ ys))

abbrev pub Answers : Xheap → ℕ → Option RbEntry → Outcome (Option ℕ × Xheap) → Type 0
Answers h want none m = m ≡ done (none, h)
Answers h want (some x) m = Given h want x m

put_back :
    (split : Bool) (tree : RbRoot) (rest : RbEntry)
    → IsRbRoot tree
    → tree.count + 1 < 2 ^ 32
    → (tree' : RbRoot) × ((if split then rb_insert_node tree rest else done tree) ≡ done tree')
      × IsRbRoot tree'
      × (to_list tree'.tree
          ≡ (if split then insert_ordered rest (to_list tree.tree) else to_list tree.tree))
put_back false tree rest ok small = (tree, refl, ok, refl)
put_back true tree rest ok small = rb_insert_node-IsRbRoot tree rest ok small

give_block-Given :
    (h : Xheap) (want : ℕ) (x : RbEntry)
    → IsXheap h
    → heap_node_size ≤ want
    → IsAt x.addr (to_list h.mem_tree.tree)
    → Given h want x (give_block h want x)
unfolding give_block
give_block-Given h want x ok whole at =
    let (tree, xs, ys, y, removes, same, before, after, fits, distinct) =
      rb_remove_node-IsRbRoot h.mem_tree x.addr ok.tree ok.distinct at (omega (arith, ok.word)) in
    let (ring, uses, cuts) =
      use_block-CutAt want x.value x.addr h.ring whole
        (found_backed x.addr h.ring (to_list h.mem_tree.tree) at ok.backed) in
    let split = ltb min_rest (x.value - want) in
    let rest : RbEntry = record { addr = x.addr + want; value = x.value - want } in
    let small : tree.count + 1 < 2 ^ 32 = omega (
      arith,
      ok.word,
      ok.tree.counted,
      fits.counted,
      ap length before,
      ap length after,
      length-append xs (y ∷ ys),
      length-append xs ys,
    ) in
    let (tree', puts, fits', list) = put_back split tree rest fits small in
    (
      record {
        linked = h.linked;
        ring = ring;
        all_size = (h.all_size + 2 ^ 64 - (if split then want else x.value)) % 2 ^ 64;
        mem_tree = tree';
      },
      xs,
      y,
      ys,
      rw (removes, uses, puts) refl,
      cuts,
      fits',
      before,
      same,
      list ∙ ap (λ t. if split then insert_ordered rest t else t) after,
    )

give_found-Answers :
    (h : Xheap) (want : ℕ) (r : Option RbEntry)
    → IsXheap h
    → heap_node_size ≤ want
    → Best want (to_list h.mem_tree.tree) r
    → Answers h want r (give_found h want r)
give_found-Answers h want none ok whole b = refl
give_found-Answers h want (some x) ok whole (at, more, between) =
    give_block-Given h want x ok whole at

search_block-Answers :
    (h : Xheap) (want : ℕ) (last : Option RbEntry)
    → IsXheap h
    → heap_node_size ≤ want
    → last? (to_list h.mem_tree.tree) ≡ last
    → (r : Option RbEntry) × Best want (to_list h.mem_tree.tree) r
      × Answers h want r (search_block h want last)
unfolding search_block
search_block-Answers h want none ok whole e =
    (none, rw (last_none (to_list h.mem_tree.tree) e) tt, refl)
search_block-Answers h want (some x) ok whole e =
    let xs = to_list h.mem_tree.tree in
    let o = ok.tree.ordered in
    elim (Bool-cases (ltb x.value want)) [
      | inl f ↦ (
        none,
        Below-weaken x.value want xs (omega (arith, ltb→lt _ _ f)) (last-Below xs x o e),
        rw f refl,
      )
      | inr f ↦
          let best = first_greater-Best want xs o in
          (
            first_greater want xs,
            best,
            rw (f, rb_first_greater_lem h.mem_tree.tree want o)
                (give_found-Answers h want (first_greater want xs) ok whole best),
          )
    ]

if_true : (b : Bool) (x y : Outcome Xheap) → b ≡ true → (if b then x else y) ≡ x
if_true true x y e = refl
if_true false x y e = cc

wanted_large : (want : ℕ) → want + 80 ≤ 2 ^ 64 → heap_node_size ≤ wanted want
unfolding wanted
wanted_large want small = ground arith

-- Once the second heap is set up, with each node of its valid tree in a block of the ring,
-- mem_malloc of a size above 0 and up to 2^64 - 80 (above, the sum with the header may wrap) ends
-- with no access through NULL: it gives out the smallest free block that is larger than the size
-- with its header, rounded up, or NULL, with nothing changed, and then no free block is larger,
-- though one of just that size may be there; the ring is cut at the block, which is used now; its
-- node leaves the tree, which stays valid, and the node of the rest comes in if more than 144 bytes
-- are left.
pub mem_malloc-Best :
    (all_heap : ℕ) (h : Xheap) (want : ℕ)
    → IsXheap h
    → 0 < want
    → want + 80 ≤ 2 ^ 64
    → (r : Option RbEntry) × Best (wanted want) (to_list h.mem_tree.tree) r
      × Answers h (wanted want) r (mem_malloc all_heap h want)
unfolding mem_malloc
mem_malloc-Best all_heap h want ok pos small =
    let nonzero : (want == 0) ≡ false = ground arith in
    let ready = if_true h.linked (done h) (mem_init all_heap h) ok.linked in
    rw nonzero (
      subst
        (λ m.
          (r : Option RbEntry) × Best (wanted want) (to_list h.mem_tree.tree) r
          × Answers h (wanted want) r
              (m >>= λ h'. search_block h' (wanted want) h'.mem_tree.last_node))
        (sym ready)
        (search_block-Answers h (wanted want) h.mem_tree.last_node ok (wanted_large want small)
          (sym ok.tree.last)))
