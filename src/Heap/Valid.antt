-- ===== src/Heap/Valid.antt =====
-- When a heap is valid, and how a block is found by its pointer.
use cc_rpc.Base.{
  ℕ, ◌+◌, ◌^◌, ◌≤◌, ◌<◌, ◌≡◌, refl, arith, List, [], ◌∷◌, some, ◌==◌, ◌⊎◌, inl, inr, ◌↔◌, All,
  ==_iff, Bool-cases,
}
use cc_rpc.Heap.{HeapNode, HeapHead, heap_struct_size, take_used}
use cc_rpc.Heap.Blocks.{IsBlock, IsChain, IsIn, Covers, Separate, total}

-- The heap after `heap_init`, over the bytes from `start` to `limit`. Every byte is free or used, and
-- none is both; the free blocks are counted and do not touch.
pub record IsHeap (start limit : ℕ) (h : HeapHead) : Type 0 where
  pub tail : ℕ
  pub has_tail : h.tail ≡ some tail
  pub at_end : limit ≤ tail + heap_struct_size
  pub word : limit < 2 ^ 64
  pub chain : IsChain limit start h.chain
  pub counted : h.all_size ≡ total h.chain
  pub counted_word : h.all_size < 2 ^ 64
  pub used : All (IsBlock limit start) h.used
  pub separate : Separate h.used
  pub free : (x : ℕ) → Covers x h.chain → Covers x h.used → ⊥
  pub all : (x : ℕ) → start ≤ x → x < limit → Covers x h.chain ⊎ Covers x h.used

-- The pointer was given out and is not freed yet.
abbrev pub IsUsed : ℕ → List HeapNode → Type 0
IsUsed ptr [] = ⊥
IsUsed ptr (u ∷ us) = (u.addr + heap_struct_size ≡ ptr) ⊎ IsUsed ptr us

pub record Split (limit start ptr : ℕ) (us : List HeapNode) : Type 0 where
  pub block : HeapNode
  pub rest : List HeapNode
  pub runs : take_used ptr us ≡ some (block, rest)
  pub at : block.addr + heap_struct_size ≡ ptr
  pub valid : IsBlock limit start block
  pub others : All (IsBlock limit start) rest
  pub separate : Separate rest
  pub bytes : (x : ℕ) → Covers x us ↔ (IsIn x block ⊎ Covers x rest)
  pub alone : (x : ℕ) → IsIn x block → Covers x rest → ⊥

pub take_used-Split :
    (limit start ptr : ℕ) (us : List HeapNode)
    → All (IsBlock limit start) us
    → Separate us
    → IsUsed ptr us
    → Split limit start ptr us
unfolding take_used
take_used-Split limit start ptr [] bs sep i = absurd i
take_used-Split limit start ptr (u ∷ us) (b, bs) (s, sep) i =
    elim (Bool-cases (u.addr + heap_struct_size == ptr)) [
      | inl e ↦ record {
        block = u;
        rest = us;
        runs = rw (take_used, e) refl;
        at = (==_iff _ _).0 e;
        valid = b;
        others = bs;
        separate = sep;
        bytes = λ x. (λ c. c, λ c. c);
        alone = s;
      }
      | inr e ↦
          let i' : IsUsed ptr us = elim i [ inl h ↦ cc ((==_iff _ _).1 h) | inr j ↦ j ] in
          let t = take_used-Split limit start ptr us bs sep i' in
          record {
            block = t.block;
            rest = u ∷ t.rest;
            runs = rw (take_used, e, t.runs) refl;
            at = t.at;
            valid = t.valid;
            others = (b, t.others);
            separate = (λ x c d. s x c ((t.bytes x).1 (inr d)), t.separate);
            bytes = λ x. ground (arith, t.bytes x);
            alone = λ x c. elim [ inl d ↦ s x d ((t.bytes x).1 (inl c)) | inr d ↦ t.alone x c d ];
          }
    ]
