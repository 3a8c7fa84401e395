-- ===== src/Heap/Blocks.antt =====
-- What a list of heap nodes stands for: blocks in the order of their addresses that do not touch, and
-- the set of their bytes.
use cc_rpc.Base.{
  ℕ, suc, ◌+◌, ◌-◌, ◌%◌, ◌^◌, ◌≤◌, ◌<◌, ◌≡◌, refl, arith, List, [], ◌∷◌, ◌⊎◌, inl, inr, All, ltb,
  Bool-cases, ◌≢◌, ==_iff,
}
use cc_rpc.Heap.{HeapNode, node, heap_struct_size, merge_next}

-- A block from `lo` on that ends at `limit` at the latest, with room for its header.
abbrev pub IsBlock : ℕ → ℕ → HeapNode → Type 0
IsBlock limit lo n =
    (lo ≤ n.addr)
    × (heap_struct_size ≤ n.block_size)
    × (n.addr + n.block_size ≤ limit)
    × (n.addr % 8 ≡ 0)
    × (n.block_size % 8 ≡ 0)

-- Between two blocks of the list lies at least one byte.
abbrev pub IsChain : ℕ → ℕ → List HeapNode → Type 0
IsChain limit lo [] = Unit {0}
IsChain limit lo (n ∷ ns) = IsBlock limit lo n × IsChain limit (suc (n.addr + n.block_size)) ns

abbrev pub IsIn : ℕ → HeapNode → Type 0
IsIn x n = (n.addr ≤ x) × (x < n.addr + n.block_size)

-- The byte at `x` belongs to one of the blocks.
abbrev pub Covers : ℕ → List HeapNode → Type 0
Covers x [] = ⊥
Covers x (n ∷ ns) = IsIn x n ⊎ Covers x ns

-- No byte belongs to two of the blocks.
abbrev pub Separate : List HeapNode → Type 0
Separate [] = Unit {0}
Separate (n ∷ ns) = ((x : ℕ) → IsIn x n → Covers x ns → ⊥) × Separate ns

abbrev pub total : List HeapNode → ℕ
total [] = 0
total (n ∷ ns) = n.block_size + total ns

pub IsBlock-weaken :
    {limit lo lo' : ℕ} {n : HeapNode} → lo' ≤ lo → IsBlock limit lo n → IsBlock limit lo' n
IsBlock-weaken h b = omega arith

pub IsChain-weaken :
    (limit : ℕ) (ns : List HeapNode) (lo lo' : ℕ)
    → lo' ≤ lo
    → IsChain limit lo ns
    → IsChain limit lo' ns
IsChain-weaken limit [] lo lo' h c = tt
IsChain-weaken limit (n ∷ ns) lo lo' h (b, c) = (IsBlock-weaken h b, c)

-- All bytes of a chain lie from its bound on.
pub Covers-ge :
    (limit x : ℕ) (ns : List HeapNode) (lo : ℕ) → IsChain limit lo ns → Covers x ns → lo ≤ x
Covers-ge limit x [] lo c i = absurd i
Covers-ge limit x (n ∷ ns) lo (b, c) (inl i) = omega arith
Covers-ge limit x (n ∷ ns) lo (b, c) (inr i) =
    let h = Covers-ge limit x ns (suc (n.addr + n.block_size)) c i in omega arith

-- Two blocks with no byte in common follow each other.
abbrev pub Apart : HeapNode → HeapNode → Type 0
Apart u n = (u.addr + u.block_size ≤ n.addr) ⊎ (n.addr + n.block_size ≤ u.addr)

pub Apart-of_bytes :
    (u n : HeapNode)
    → heap_struct_size ≤ u.block_size
    → heap_struct_size ≤ n.block_size
    → ((x : ℕ) → IsIn x u → IsIn x n → ⊥)
    → Apart u n
Apart-of_bytes u n bu bn h = elim (Bool-cases (ltb u.addr n.addr)) [
  | inl e ↦ elim (Bool-cases (ltb n.addr (u.addr + u.block_size))) [
    | inl e' ↦ absurd (h n.addr (ground arith) (ground arith))
    | inr e' ↦ inl (ground arith)
  ]
  | inr e ↦ elim (Bool-cases (ltb u.addr (n.addr + n.block_size))) [
    | inl e' ↦ absurd (h u.addr (ground arith) (ground arith))
    | inr e' ↦ inr (ground arith)
  ]
]

pub All-Apart_of_bytes :
    (limit : ℕ) (u : HeapNode) (ns : List HeapNode) (lo : ℕ)
    → heap_struct_size ≤ u.block_size
    → IsChain limit lo ns
    → ((x : ℕ) → IsIn x u → Covers x ns → ⊥)
    → All (Apart u) ns
All-Apart_of_bytes limit u [] lo bu c h = tt
All-Apart_of_bytes limit u (n ∷ ns) lo bu (b, c) h = (
  Apart-of_bytes u n bu (omega arith) (λ x i j. h x i (inl j)),
  All-Apart_of_bytes limit u ns (suc (n.addr + n.block_size)) bu c (λ x i j. h x i (inr j)),
)

pub merge_next_far :
    (n m : HeapNode) (ms : List HeapNode)
    → n.addr + n.block_size ≢ m.addr
    → merge_next n (m ∷ ms) ≡ n ∷ m ∷ ms
unfolding merge_next
merge_next_far n m ms h = ground arith

pub merge_next_meets :
    (n m : HeapNode) (ms : List HeapNode)
    → n.addr + n.block_size ≡ m.addr
    → n.block_size + m.block_size < 2 ^ 64
    → merge_next n (m ∷ ms) ≡ node n.addr (n.block_size + m.block_size) ∷ ms
unfolding merge_next
merge_next_meets n m ms h w =
    let e : (n.block_size + m.block_size) % 2 ^ 64 ≡ n.block_size + m.block_size = omega arith in
    rw ((==_iff _ _).1 h, e) refl

-- A block in front of a chain that does not begin where it ends.
pub merge_next_chain :
    (limit : ℕ) (n : HeapNode) (ns : List HeapNode) (lo : ℕ)
    → IsChain limit lo ns
    → n.addr + n.block_size < lo
    → merge_next n ns ≡ n ∷ ns
unfolding merge_next
merge_next_chain limit n [] lo c h = refl
merge_next_chain limit n (m ∷ ms) lo (b, c) h = merge_next_far n m ms (λ e. absurd (omega arith))

pub total-le :
    (limit : ℕ) (ns : List HeapNode) (lo : ℕ) → IsChain limit lo ns → total ns ≤ limit - lo
total-le limit [] lo c = omega arith
total-le limit (n ∷ ns) lo (b, c) = omega (arith, total-le limit ns (suc (n.addr + n.block_size)) c)
