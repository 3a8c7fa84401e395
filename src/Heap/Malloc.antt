-- ===== src/Heap/Malloc.antt =====
-- The search of `real_heap_malloc` for a block.
use cc_rpc.Base.{
  ℕ, suc, ◌+◌, ◌-◌, ◌%◌, ◌^◌, ◌≤◌, ◌<◌, ◌≡◌, refl, ap, ◌∙◌, arith, List, [], ◌∷◌, true, false, none,
  some, done, ◌⊎◌, inl, inr, ◌↔◌, All, ltb, ltb→le, ltb→lt, lt→ltb, le→ltb, Bool-cases,
}
use cc_rpc.Heap.{
  HeapNode, node, heap_struct_size, min_size, take_block, merge_next, insert_after,
  insert_free_block,
}
use cc_rpc.Heap.Blocks.{
  IsBlock, IsChain, IsIn, Covers, Covers-ge, IsChain-weaken, merge_next_far, merge_next_meets,
  total,
}

-- A block is taken out of the list, and freeing it would put the list back as it was.
pub record Takes (limit lo size : ℕ) (ns : List HeapNode) (u : HeapNode) (rest : List HeapNode)
    : Type 0 where
  pub runs : take_block size ns ≡ some (u, rest)
  pub rest_chain : IsChain limit lo rest
  pub block : IsBlock limit lo u
  pub fits : size ≤ u.block_size
  pub sum : total rest + u.block_size ≡ total ns
  pub bytes : (x : ℕ) → Covers x ns ↔ (IsIn x u ⊎ Covers x rest)
  pub alone : (x : ℕ) → IsIn x u → Covers x rest → ⊥
  pub back :
      (t : ℕ) (iter : HeapNode)
      → limit ≤ t + heap_struct_size
      → iter.addr + iter.block_size < lo
      → insert_after t u iter rest ≡ done (iter ∷ ns)
  pub back_front : (t : ℕ) → limit ≤ t + heap_struct_size → insert_free_block t u rest ≡ done ns

-- A block in front of a chain, behind a gap, is linked in as it is.
insert_back :
    (limit t : ℕ) (iter n : HeapNode) (ns : List HeapNode) (lo : ℕ)
    → IsChain limit lo (n ∷ ns)
    → limit ≤ t + heap_struct_size
    → iter.addr + iter.block_size < lo
    → insert_after t n iter ns ≡ done (iter ∷ n ∷ ns)
unfolding insert_after merge_next
insert_back limit t iter n [] lo (b, c) room far =
    rw (insert_after, le→ltb t n.addr (omega arith))
      (ap done (merge_next_far iter n [] (λ e. absurd (omega arith))))
insert_back limit t iter n (m ∷ ms) lo (b, c) room far =
    rw
      (
        insert_after,
        le→ltb m.addr n.addr (omega arith),
        merge_next_far n m ms (λ e. absurd (omega arith)),
      )
      (ap done (merge_next_far iter n (m ∷ ms) (λ e. absurd (omega arith))))

insert_front :
    (limit t : ℕ) (n : HeapNode) (ns : List HeapNode) (lo : ℕ)
    → IsChain limit lo (n ∷ ns)
    → limit ≤ t + heap_struct_size
    → insert_free_block t n ns ≡ done (n ∷ ns)
unfolding insert_free_block merge_next
insert_front limit t n [] lo (b, c) room =
    rw (insert_free_block, le→ltb t n.addr (omega arith)) refl
insert_front limit t n (m ∷ ms) lo (b, c) room =
    rw (insert_free_block, le→ltb m.addr n.addr (omega arith))
      (ap done (merge_next_far n m ms (λ e. absurd (omega arith))))

module _ (limit size : ℕ) (word : limit < 2 ^ 64) (min : heap_struct_size ≤ size)
    (mult : size % 8 ≡ 0) where
  cut :
      (lo : ℕ) (n : HeapNode) (ns : List HeapNode)
      → IsChain limit lo (n ∷ ns)
      → ltb n.block_size size ≡ false
      → ltb min_size (n.block_size - size) ≡ true
      → Takes limit lo size
          (n ∷ ns)
          (node n.addr size)
          (node (n.addr + size) (n.block_size - size) ∷ ns)
  unfolding take_block insert_after insert_free_block
  cut lo n ns (b, c) large split =
      let fits : size ≤ n.block_size = ltb→le _ _ large in
      let left : min_size < n.block_size - size = ltb→lt _ _ split in
      let u = node n.addr size in
      let new = node (n.addr + size) (n.block_size - size) in
      let same : n.addr + size + (n.block_size - size) ≡ n.addr + n.block_size = omega arith in
      let joined : merge_next u (new ∷ ns) ≡ n ∷ ns =
        merge_next_meets u new ns refl (omega arith) ∙ ap (λ k. node n.addr k ∷ ns) (omega arith) in
      let stop : ltb (n.addr + size) n.addr ≡ false = le→ltb _ _ (omega arith) in
      record {
        runs = rw (take_block, large, split) refl;
        rest_chain = (omega arith, rw same c);
        block = omega arith;
        fits = omega arith;
        sum = omega arith;
        bytes = λ x. ground arith;
        alone = λ x i. elim [
          | inl k ↦ omega arith
          | inr k ↦ let g = Covers-ge limit x ns (suc (n.addr + n.block_size)) c k in omega arith
        ];
        back = λ t iter room far.
            rw (insert_after, stop, joined)
              (ap done (merge_next_far iter n ns (λ e. absurd (omega arith))));
        back_front = λ t room. rw (insert_free_block, stop) (ap done joined);
      }

  whole :
      (lo : ℕ) (n : HeapNode) (ns : List HeapNode)
      → IsChain limit lo (n ∷ ns)
      → ltb n.block_size size ≡ false
      → ltb min_size (n.block_size - size) ≡ false
      → Takes limit lo size (n ∷ ns) n ns
  unfolding take_block
  whole lo n ns (b, c) large split =
      let fits : size ≤ n.block_size = ltb→le _ _ large in
      record {
        runs = rw (take_block, large, split) refl;
        rest_chain = IsChain-weaken limit ns _ lo (omega arith) c;
        block = b;
        fits = fits;
        sum = omega arith;
        bytes = λ x. (λ i. i, λ i. i);
        alone = λ x i j. let g = Covers-ge limit x ns _ c j in omega arith;
        back = λ t iter room far. insert_back limit t iter n ns lo (b, c) room far;
        back_front = λ t room. insert_front limit t n ns lo (b, c) room;
      }

  behind :
      (lo : ℕ) (n : HeapNode) (ns : List HeapNode) (u : HeapNode) (rest : List HeapNode)
      → IsBlock limit lo n
      → ltb n.block_size size ≡ true
      → Takes limit (suc (n.addr + n.block_size)) size ns u rest
      → Takes limit lo size (n ∷ ns) u (n ∷ rest)
  unfolding take_block insert_after insert_free_block
  behind lo n ns u rest b small t =
      let after : ltb n.addr u.addr ≡ true = lt→ltb _ _ (omega (arith, t.block)) in
      record {
        runs = rw (take_block, small, t.runs) refl;
        rest_chain = (b, t.rest_chain);
        block = omega (arith, t.block);
        fits = t.fits;
        sum = omega (arith, t.sum);
        bytes = λ x. ground (arith, t.bytes x);
        alone = λ x i. elim [ inl j ↦ omega (arith, t.block) | inr j ↦ t.alone x i j ];
        back =
            λ tail iter room far. rw (insert_after, after, t.back tail n room (omega arith)) refl;
        back_front = λ tail room. rw (insert_free_block, after) (t.back tail n room (omega arith));
      }

  pub take_block-Takes :
      (ns : List HeapNode) (lo : ℕ)
      → IsChain limit lo ns
      → (take_block size ns ≡ none) × All (λ n. n.block_size < size) ns
        ⊎ ((u : HeapNode) × (rest : List HeapNode) × Takes limit lo size ns u rest)
  unfolding take_block insert_after insert_free_block
  take_block-Takes [] lo c = inl (refl, tt)
  take_block-Takes (n ∷ ns) lo (b, c) = elim (Bool-cases (ltb n.block_size size)) [
    | inr large ↦ elim (Bool-cases (ltb min_size (n.block_size - size))) [
      | inl split ↦ inr (_, _, cut lo n ns (b, c) large split)
      | inr keep ↦ inr (_, _, whole lo n ns (b, c) large keep)
    ]
    | inl small ↦ elim (take_block-Takes ns (suc (n.addr + n.block_size)) c) [
      | inl (e, all) ↦ inl (rw (take_block, small, e) refl, (ltb→lt _ _ small, all))
      | inr (u, rest, t) ↦ inr (u, n ∷ rest, behind lo n ns u rest b small t)
    ]
  ]
