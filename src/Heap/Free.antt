-- ===== src/Heap/Free.antt =====
-- `insert_free_block` links a block in where its address belongs, and joins it with its neighbours.
use cc_rpc.Base.{
  ℕ, suc, ◌+◌, ◌^◌, ◌≤◌, ◌<◌, ◌≡◌, refl, arith, List, [], ◌∷◌, false, done, ◌==◌, ◌⊎◌, inl, inr,
  ◌↔◌, All, ltb, ltb→le, ltb→lt, le→ltb, ==_iff, Bool-cases,
}
use cc_rpc.Heap.{HeapNode, heap_struct_size, merge_next, insert_after, insert_free_block}
use cc_rpc.Heap.Blocks.{
  IsBlock, IsChain, IsIn, Covers, Apart, merge_next_far, merge_next_meets, total,
}

-- A chain with one more block in it, as a number of bytes and as a set of bytes.
pub record Inserted (limit lo : ℕ) (n : HeapNode) (ns ns' : List HeapNode) : Type 0 where
  pub chain : IsChain limit lo ns'
  pub sum : total ns' ≡ n.block_size + total ns
  pub bytes : (x : ℕ) → Covers x ns' ↔ (IsIn x n ⊎ Covers x ns)

module _ (limit : ℕ) (word : limit < 2 ^ 64) where
  merge_next-Inserted :
      (lo : ℕ) (n : HeapNode) (ns : List HeapNode)
      → IsBlock limit lo n
      → IsChain limit (n.addr + n.block_size) ns
      → Inserted limit lo n ns (merge_next n ns)
  unfolding merge_next
  merge_next-Inserted lo n [] b c = record {
    chain = (b, tt);
    sum = omega arith;
    bytes = λ x. (λ i. i, λ i. i);
  }
  merge_next-Inserted lo n (m ∷ ms) b (d, c) = elim (Bool-cases (n.addr + n.block_size == m.addr)) [
    | inl e ↦
        let meets : n.addr + n.block_size ≡ m.addr = (==_iff _ _).0 e in
        let same : n.addr + (n.block_size + m.block_size) ≡ m.addr + m.block_size = omega arith in
        rw (merge_next_meets n m ms meets (omega arith))
          record { chain = (omega arith, rw same c); sum = omega arith; bytes = λ x. ground arith }
    | inr e ↦
        let gap : n.addr + n.block_size ≡ m.addr → ⊥ = λ h. cc ((==_iff _ _).1 h) in
        rw (merge_next_far n m ms gap) record {
          chain = (b, (omega (arith, gap), c));
          sum = omega arith;
          bytes = λ x. (λ i. i, λ i. i);
        }
  ]

  -- The chain behind the place of the block.
  from_end :
      (lo : ℕ) (n m : HeapNode) (ms : List HeapNode)
      → IsChain limit lo (m ∷ ms)
      → heap_struct_size ≤ n.block_size
      → Apart n m
      → ltb m.addr n.addr ≡ false
      → IsChain limit (n.addr + n.block_size) (m ∷ ms)
  from_end lo n m ms (b, c) big apart e =
      let behind : n.addr ≤ m.addr = ltb→le _ _ e in (omega arith, c)

  insert_after-Inserted :
      (tail : ℕ) (n : HeapNode) (ns : List HeapNode) (iter : HeapNode) (lo : ℕ)
      → limit ≤ tail + heap_struct_size
      → IsBlock limit 0 n
      → IsChain limit lo (iter ∷ ns)
      → iter.addr < n.addr
      → All (Apart n) (iter ∷ ns)
      → (ns' : List HeapNode) × (insert_after tail n iter ns ≡ done ns')
        × Inserted limit lo n (iter ∷ ns) ns'
  unfolding insert_after
  insert_after-Inserted tail n [] iter lo room b (d, c) lt (apart, _) =
      let new = merge_next-Inserted (iter.addr + iter.block_size) n [] (omega arith) tt in
      let both = merge_next-Inserted lo iter (merge_next n []) d new.chain in
      (
        merge_next iter (merge_next n []),
        rw (insert_after, le→ltb tail n.addr (omega arith)) refl,
        record {
          chain = both.chain;
          sum = omega (arith, both.sum, new.sum);
          bytes = λ x. ground (arith, both.bytes x, new.bytes x);
        },
      )
  insert_after-Inserted tail n (m ∷ ms) iter lo room b (d, c) lt (apart, (next, rest)) =
      elim (Bool-cases (ltb m.addr n.addr)) [
        | inl e ↦
            let (ns', runs, i) =
              insert_after-Inserted tail n ms m (suc (iter.addr + iter.block_size)) room b c
                (ltb→lt _ _ e) (next, rest) in
            (
              iter ∷ ns',
              rw (insert_after, e, runs) refl,
              record {
                chain = (d, i.chain);
                sum = omega (arith, i.sum);
                bytes = λ x. ground (arith, i.bytes x);
              },
            )
        | inr e ↦
            let new =
              merge_next-Inserted (iter.addr + iter.block_size) n (m ∷ ms) (omega arith)
                (from_end (suc (iter.addr + iter.block_size)) n m ms c (omega arith) next e) in
            let both = merge_next-Inserted lo iter (merge_next n (m ∷ ms)) d new.chain in
            (
              merge_next iter (merge_next n (m ∷ ms)),
              rw (insert_after, e) refl,
              record {
                chain = both.chain;
                sum = omega (arith, both.sum, new.sum);
                bytes = λ x. ground (arith, both.bytes x, new.bytes x);
              },
            )
      ]

  pub insert_free_block-Inserted :
      (tail : ℕ) (n : HeapNode) (ns : List HeapNode) (lo : ℕ)
      → limit ≤ tail + heap_struct_size
      → IsBlock limit lo n
      → IsChain limit lo ns
      → All (Apart n) ns
      → (ns' : List HeapNode) × (insert_free_block tail n ns ≡ done ns')
        × Inserted limit lo n ns ns'
  unfolding insert_free_block
  insert_free_block-Inserted tail n [] lo room b c apart = (
    merge_next n [],
    rw (insert_free_block, le→ltb tail n.addr (omega arith)) refl,
    merge_next-Inserted lo n [] b tt,
  )
  insert_free_block-Inserted tail n (m ∷ ms) lo room b c apart =
      elim (Bool-cases (ltb m.addr n.addr)) [
        | inl e ↦
            let (ns', runs, i) =
              insert_after-Inserted tail n ms m lo room (omega arith) c (ltb→lt _ _ e) apart in
            (ns', rw (insert_free_block, e) runs, i)
        | inr e ↦ (
          merge_next n (m ∷ ms),
          rw (insert_free_block, e) refl,
          merge_next-Inserted lo n (m ∷ ms) b (from_end lo n m ms c (omega arith) apart.0 e),
        )
      ]
