-- ===== src/Heap/Laws.antt =====
-- The heap as a set of bytes: `heap_malloc_dbg` takes a block from the free bytes, `heap_free_dbg`
-- gives it back.
use cc_rpc.Base.{
  ℕ, ◌+◌, ◌-◌, ◌%◌, ◌^◌, ◌≤◌, ◌<◌, ◌≡◌, refl, sym, ap, ◌∙◌, arith, List, ◌∷◌, Bool, true, false,
  none, some, done, ◌>>=◌, ◌==◌, ◌⊎◌, inl, inr, ◌↔◌, All, ltb, le→ltb, ==_iff,
}
use cc_rpc.Heap.{
  HeapNode, HeapHead, heap_struct_size, request_size, ready, malloc_ready, real_heap_malloc,
  take_used, real_heap_free, heap_lock, heap_unlock, heap_malloc_dbg, heap_free_dbg,
}
use cc_rpc.Heap.Blocks.{IsIn, Covers, All-Apart_of_bytes, total-le}
use cc_rpc.Heap.Malloc.{Takes, take_block-Takes}
use cc_rpc.Heap.Free.{insert_free_block-Inserted}
use cc_rpc.Heap.Valid.{IsHeap, IsUsed, take_used-Split}

request_size_lem :
    (size : ℕ)
    → size + 24 < 2 ^ 64
    → (size + heap_struct_size ≤ request_size size) × (request_size size % 8 ≡ 0)
unfolding request_size
request_size_lem size h = ground arith

ready_lem : (all_heap t : ℕ) (h : HeapHead) → h.tail ≡ some t → ready all_heap h ≡ h
unfolding ready
ready_lem all_heap t h e = ground arith

abbrev set_lock : Bool → HeapHead → HeapHead
set_lock b h = record h { locked = b }

set_lock_same : (b : Bool) (h : HeapHead) → h.locked ≡ b → set_lock b h ≡ h
set_lock_same b h e = ap (λ l. set_lock l h) (sym e)

heap_malloc_dbg_ready :
    (all_heap size t : ℕ) (h : HeapHead)
    → h.tail ≡ some t
    → h.locked ≡ false
    → heap_malloc_dbg all_heap h size
      ≡ (malloc_ready (set_lock true h) size >>= λ r. done (r.0, heap_unlock r.1))
unfolding heap_malloc_dbg heap_lock real_heap_malloc
heap_malloc_dbg_ready all_heap size t h has_tail unlocked =
    rw (heap_lock, unlocked)
      (ap (λ g. malloc_ready g size >>= λ r. done (r.0, heap_unlock r.1))
        (ready_lem all_heap t (set_lock true h) has_tail))

-- The heap after a block was given out. Freeing it at once brings the old heap back.
pub record Granted (start limit size : ℕ) (h : HeapHead) (ptr : ℕ) (h' : HeapHead) : Type 0 where
  pub block : HeapNode
  pub at : ptr ≡ block.addr + heap_struct_size
  pub room : ptr + size ≤ block.addr + block.block_size
  pub aligned : ptr % 8 ≡ 0
  pub now_used : h'.used ≡ block ∷ h.used
  pub bytes : (x : ℕ) → Covers x h.chain ↔ (IsIn x block ⊎ Covers x h'.chain)
  pub valid : IsHeap start limit h'
  pub unlocked : h'.locked ≡ false
  pub undone : heap_free_dbg h' (some ptr) ≡ done h

-- The heap after a block was given back.
pub record Freed (start limit : ℕ) (h : HeapHead) (ptr : ℕ) (h' : HeapHead) : Type 0 where
  pub block : HeapNode
  pub at : block.addr + heap_struct_size ≡ ptr
  pub bytes : (x : ℕ) → Covers x h'.chain ↔ (IsIn x block ⊎ Covers x h.chain)
  pub still_used : (x : ℕ) → Covers x h.used ↔ (IsIn x block ⊎ Covers x h'.used)
  pub now_free : (x : ℕ) → IsIn x block → Covers x h'.used → ⊥
  pub valid : IsHeap start limit h'
  pub unlocked : h'.locked ≡ false

module _ (start limit : ℕ) (h : HeapHead) (v : IsHeap start limit h)
    (unlocked : h.locked ≡ false) where
  module _ (size : ℕ) (small : size + 24 < 2 ^ 64) (u : HeapNode) (rest : List HeapNode)
      (t : Takes limit start (request_size size) h.chain u rest) where
    abbrev after : HeapHead
    after = record h {
      chain = rest;
      all_size = (h.all_size + 2 ^ 64 - u.block_size) % 2 ^ 64;
      used = u ∷ h.used;
    }

    less : after.all_size + u.block_size ≡ h.all_size
    less = omega (arith, t.sum, v.counted, v.counted_word)

    after-IsHeap : IsHeap start limit after
    after-IsHeap = record {
      tail = v.tail;
      has_tail = v.has_tail;
      at_end = v.at_end;
      word = v.word;
      chain = t.rest_chain;
      counted = omega (arith, t.sum, v.counted, less);
      counted_word = omega (arith, v.counted_word, less);
      used = (t.block, v.used);
      separate = (λ x i j. v.free x ((t.bytes x).1 (inl i)) j, v.separate);
      free = λ x c. elim [ inl i ↦ t.alone x i c | inr j ↦ v.free x ((t.bytes x).1 (inr c)) j ];
      all = λ x lo hi. ground (arith, v.all x lo hi, t.bytes x);
    }

    undone : heap_free_dbg after (some (u.addr + heap_struct_size)) ≡ done h
    unfolding heap_free_dbg heap_lock heap_unlock real_heap_free take_used
    undone =
        let here : (u.addr + heap_struct_size == u.addr + heap_struct_size) ≡ true =
          (==_iff _ _).1 refl in
        let size_back : (after.all_size + u.block_size) % 2 ^ 64 ≡ h.all_size =
          omega (arith, less, v.counted_word) in
        rw
          (
            heap_lock,
            unlocked,
            real_heap_free,
            take_used,
            here,
            v.has_tail,
            t.back_front v.tail v.at_end,
            size_back,
          )
          (ap (λ o. done (record h { tail = o; locked = false })) v.has_tail)

    granted : Granted start limit size h (u.addr + heap_struct_size) after
    granted = record {
      block = u;
      at = refl;
      room = omega (arith, t.fits, request_size_lem size small);
      aligned = omega (arith, t.block);
      now_used = refl;
      bytes = t.bytes;
      valid = after-IsHeap;
      unlocked = unlocked;
      undone = undone;
    }

  -- On a valid heap with its lock free, for a size below 2^64 - 24, heap_malloc_dbg returns: either
  -- NULL, with nothing changed, and every free block is smaller than the size with its header,
  -- rounded up; or an aligned pointer with room for the size behind it, into a block whose bytes
  -- were free and which alone is now used, with the heap valid and the lock free, and heap_free_dbg
  -- of that pointer at once brings the heap back to just the state before.
  pub heap_malloc_dbg-Granted :
      (all_heap size : ℕ)
      → size + 24 < 2 ^ 64
      → (heap_malloc_dbg all_heap h size ≡ done (none, h))
          × All (λ n. n.block_size < request_size size) h.chain
        ⊎ ((ptr : ℕ) × (h' : HeapHead) × (heap_malloc_dbg all_heap h size ≡ done (some ptr, h'))
            × Granted start limit size h ptr h')
  unfolding heap_unlock malloc_ready
  heap_malloc_dbg-Granted all_heap size small =
      let (big, mult) = request_size_lem size small in
      let header : ltb (request_size size) heap_struct_size ≡ false = le→ltb _ _ (omega arith) in
      let start_up = heap_malloc_dbg_ready all_heap size v.tail h v.has_tail unlocked in
      elim (take_block-Takes limit (request_size size) v.word (omega arith) mult h.chain start
        v.chain) [
          | inl (e, all) ↦ inl (
            start_up
                ∙ rw (malloc_ready, header, e)
                    (ap (λ g. done (none, g)) (set_lock_same false h unlocked)),
            all,
          )
          | inr (u, rest, t) ↦ inr (
            u.addr + heap_struct_size,
            after size small u rest t,
            start_up
                ∙ rw (malloc_ready, header, t.runs)
                    (ap
                      (λ b.
                        done (
                          some (u.addr + heap_struct_size),
                          set_lock b (after size small u rest t),
                        ))
                      (sym unlocked)),
            granted size small u rest t,
          )
        ]

  -- On a valid heap with its lock free, for a pointer that was given out and is not freed yet,
  -- heap_free_dbg returns: the bytes of the pointer's block, and no others, go from used to free,
  -- joined with the free blocks beside it, and the heap is valid with its lock free.
  pub heap_free_dbg-Freed :
      (ptr : ℕ)
      → IsUsed ptr h.used
      → (h' : HeapHead) × (heap_free_dbg h (some ptr) ≡ done h') × Freed start limit h ptr h'
  unfolding heap_free_dbg heap_lock heap_unlock real_heap_free
  heap_free_dbg-Freed ptr i =
      let s = take_used-Split limit start ptr h.used v.used v.separate i in
      let (chain, runs, ins) =
        insert_free_block-Inserted limit v.word v.tail s.block h.chain start v.at_end s.valid
          v.chain
          (All-Apart_of_bytes limit s.block h.chain start (omega (arith, s.valid)) v.chain
            (λ x a b. v.free x b ((s.bytes x).1 (inl a)))) in
      let fits = total-le limit chain start ins.chain in
      let size = (h.all_size + s.block.block_size) % 2 ^ 64 in
      (
        record h { chain = chain; all_size = size; used = s.rest; locked = false },
        rw (heap_lock, unlocked, real_heap_free, s.runs, v.has_tail, runs)
            (ap
              (λ o. done (record h {
                chain = chain;
                tail = o;
                all_size = size;
                used = s.rest;
                locked = false;
              }))
              v.has_tail),
        record {
          block = s.block;
          at = s.at;
          bytes = ins.bytes;
          still_used = s.bytes;
          now_free = s.alone;
          valid = record {
            tail = v.tail;
            has_tail = v.has_tail;
            at_end = v.at_end;
            word = v.word;
            chain = ins.chain;
            counted = omega (arith, v.counted, ins.sum, fits);
            counted_word = omega (arith, v.word);
            used = s.others;
            separate = s.separate;
            free = λ x c d. elim ((ins.bytes x).0 c) [
              | inl a ↦ s.alone x a d
              | inr a ↦ v.free x a ((s.bytes x).1 (inr d))
            ];
            all = λ x lo hi. ground (arith, v.all x lo hi, ins.bytes x, s.bytes x);
          };
          unlocked = refl;
        },
      )
