-- ===== src/Heap/Steps.antt =====
-- Any sequence of allocations and frees.
use cc_rpc.Base.{
  ℕ, ◌+◌, ◌^◌, ◌<◌, ◌≡◌, refl, sym, ◌∙◌, false, Option, none, some, Outcome, done, ◌⊎◌, inl, inr,
  subst,
}
use cc_rpc.Heap.{HeapHead, config_heap, align_up, the_heap, heap_malloc_dbg, heap_free_dbg}
use cc_rpc.Heap.Laws.{heap_malloc_dbg-Granted, heap_free_dbg-Freed}
use cc_rpc.Heap.Valid.{IsHeap, IsUsed}
use cc_rpc.Heap.Init.{heap_limit, fresh, fresh-IsHeap, heap_malloc_dbg_first}

-- A size that does not wrap around, and a pointer that was given out and is not freed yet.
pub data HeapStep (all_heap : ℕ) : HeapHead → HeapHead → Type 0 where
  malloc :
      {h h' : HeapHead} (size : ℕ) (r : Option ℕ)
      → size + 24 < 2 ^ 64
      → heap_malloc_dbg all_heap h size ≡ done (r, h')
      → HeapStep all_heap h h'
  free :
      {h h' : HeapHead} (ptr : ℕ)
      → IsUsed ptr h.used
      → heap_free_dbg h (some ptr) ≡ done h'
      → HeapStep all_heap h h'

pub data HeapReach (all_heap : ℕ) : HeapHead → Type 0 where
  here : HeapReach all_heap the_heap
  next : {h h' : HeapHead} → HeapReach all_heap h → HeapStep all_heap h h' → HeapReach all_heap h'

abbrev pub IsSound : ℕ → HeapHead → Type 0
IsSound all_heap h = IsHeap (align_up all_heap) (heap_limit all_heap) h × (h.locked ≡ false)

module _ (all_heap : ℕ) (word : all_heap + config_heap < 2 ^ 64) where
  same :
      (h h' : HeapHead) (p q : Option ℕ)
      → IsSound all_heap h
      → ◌≡◌ {A = Outcome (Option ℕ × HeapHead)} (done (p, h)) (done (q, h'))
      → IsSound all_heap h'
  same h h' p q v e = let e' : h ≡ h' = cc e in subst (IsSound all_heap) e' v

  malloc-IsSound :
      (h h' : HeapHead) (size : ℕ) (r : Option ℕ)
      → IsSound all_heap h
      → size + 24 < 2 ^ 64
      → heap_malloc_dbg all_heap h size ≡ done (r, h')
      → IsSound all_heap h'
  malloc-IsSound h h' size r (v, unlocked) small e =
      elim (heap_malloc_dbg-Granted _ _ h v unlocked all_heap size small) [
        | inl (f, _) ↦ same h h' none r (v, unlocked) (sym f ∙ e)
        | inr (ptr, h'', f, g) ↦ same h'' h' (some ptr) r (g.valid, g.unlocked) (sym f ∙ e)
      ]

  Step-IsSound :
      {h h' : HeapHead} → HeapStep all_heap h h' → IsSound all_heap h → IsSound all_heap h'
  Step-IsSound (malloc {h} {h'} size r small e) s = malloc-IsSound h h' size r s small e
  Step-IsSound (free {h} {h'} ptr i e) (v, unlocked) =
      let (h'', f, g) = heap_free_dbg-Freed _ _ h v unlocked ptr i in
      let e' : h'' ≡ h' = cc (f, e) in subst (IsSound all_heap) e' (g.valid, g.unlocked)

  Step-first : {g h : HeapHead} → g ≡ the_heap → HeapStep all_heap g h → IsSound all_heap h
  Step-first first (malloc {h = g} {h' = h} size r small e) =
      malloc-IsSound (fresh all_heap) h size r (fresh-IsHeap all_heap word, refl) small
        (sym (heap_malloc_dbg_first all_heap size)
          ∙ subst (λ k. heap_malloc_dbg all_heap k size ≡ done (r, h)) first e)
  Step-first first (free {h = g} ptr i e) = absurd (subst (λ k. IsUsed ptr k.used) first i)

  -- If the array of the heap ends below 2^64, then every state that any sequence of heap_malloc_dbg,
  -- with sizes that do not wrap around, and of heap_free_dbg, on pointers that were given out and
  -- not freed since, reaches from the_heap is either the_heap itself, before the first call, or a
  -- valid heap with its lock free: every byte of it is in exactly one block, which is either free or
  -- given out; the free blocks are in the order of their addresses with a gap between each two, so
  -- that none are left to join; and all_size is the number of free bytes.
  pub Reach-IsHeap : {h : HeapHead} → HeapReach all_heap h → (h ≡ the_heap) ⊎ IsSound all_heap h
  Reach-IsHeap here = inl refl
  Reach-IsHeap (next r st) = elim (Reach-IsHeap r) [
    | inl e ↦ inr (Step-first e st)
    | inr s ↦ inr (Step-IsSound st s)
  ]
