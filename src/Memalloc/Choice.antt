-- ===== src/Memalloc/Choice.antt =====
-- The smallest free block that is large enough, and the ring where it is cut.
use cc_rpc.Base.{
  le→ltb, if◌then◌else◌, ◌-◌, false, ℕ, ◌+◌, ◌^◌, ◌<◌, ◌≤◌, ◌≡◌, refl, ap, subst, arith, true,
  Option, none, some, done, ltb, ltb→lt, ltb→le, ◌==◌, ==_iff, List, [], ◌∷◌, ◌++◌, All, Bool-cases,
  inl, inr, ◌⊎◌,
}
use cc_rpc.Rbtree.{RbEntry}
use cc_rpc.Rbtree.Order.{to_list, IsOrdered, Above, Below}
use cc_rpc.Rbtree.Query.{first_greater, last?}
use cc_rpc.Rbtree.Root.{IsRbRoot}
use cc_rpc.Rbtree.Locate.{IsAt, IsDistinct}
use cc_rpc.Memalloc.{HeapBlock, Xheap, heap_node_size, min_rest, cut_block, use_block}

abbrev pub HasBlock : ℕ → List HeapBlock → Type 0
HasBlock addr [] = ⊥
HasBlock addr (b ∷ bs) = (b.addr ≡ addr) ⊎ HasBlock addr bs

-- The tree keeps its rules, and each of its nodes stands in a block of the ring.
pub record IsXheap (h : Xheap) : Type 0 where
  pub linked : h.linked ≡ true
  pub tree : IsRbRoot h.mem_tree
  pub distinct : IsDistinct (to_list h.mem_tree.tree)
  pub word : h.mem_tree.count + 1 < 2 ^ 32
  pub backed : All (λ x. HasBlock x.addr h.ring) (to_list h.mem_tree.tree)

-- No free block that is larger than the size is smaller than v.
abbrev pub NoneBetween : ℕ → ℕ → List RbEntry → Type 0
NoneBetween size v xs = All (λ y. (y.value ≤ size) ⊎ (v ≤ y.value)) xs

abbrev pub Best : ℕ → List RbEntry → Option RbEntry → Type 0
Best size xs none = Below size xs
Best size xs (some x) = IsAt x.addr xs × (size < x.value) × NoneBetween size x.value xs

pub Above-NoneBetween : (size v : ℕ) (xs : List RbEntry) → Above v xs → NoneBetween size v xs
Above-NoneBetween size v [] a = tt
Above-NoneBetween size v (x ∷ xs) (a, more) = (inr a, Above-NoneBetween size v xs more)

pub Best-cons :
    (size : ℕ) (x : RbEntry) (xs : List RbEntry) (r : Option RbEntry)
    → x.value ≤ size
    → Best size xs r
    → Best size (x ∷ xs) r
Best-cons size x xs none le b = (le, b)
Best-cons size x xs (some y) le (at, more, between) = (inr at, more, (inl le, between))

pub first_greater-Best :
    (size : ℕ) (xs : List RbEntry) → IsOrdered xs → Best size xs (first_greater size xs)
first_greater-Best size [] o = tt
first_greater-Best size (x ∷ xs) (above, o) = elim (Bool-cases (ltb size x.value)) [
  | inl e ↦
      rw e (inl refl, ltb→lt _ _ e, (inr (omega arith), Above-NoneBetween size x.value xs above))
  | inr e ↦
      rw e
        (Best-cons size x xs (first_greater size xs) (ltb→le _ _ e) (first_greater-Best size xs o))
]

-- The last entry has the largest value.
pub last-Below :
    (xs : List RbEntry) (x : RbEntry) → IsOrdered xs → last? xs ≡ some x → Below x.value xs
last-Below [] x o e = tt
last-Below (y ∷ []) x o e =
    let same : y ≡ x = cc e in (subst (λ z. y.value ≤ z.value) same (omega arith), tt)
last-Below (y ∷ (z ∷ xs)) x (a, o) e =
    let rest = last-Below (z ∷ xs) x o e in (omega (arith, a.0, rest.0), rest)

pub last_none : (xs : List RbEntry) → last? xs ≡ none → xs ≡ []
last_none [] e = refl
last_none (y ∷ []) e = cc
last_none (y ∷ (z ∷ xs)) e = absurd (cc (last_none (z ∷ xs) e))

pub found_backed :
    (addr : ℕ) (ring : List HeapBlock) (xs : List RbEntry)
    → IsAt addr xs
    → All (λ x. HasBlock x.addr ring) xs
    → HasBlock addr ring
found_backed addr ring (x ∷ xs) (inl e) (b, bs) = subst (λ a. HasBlock a ring) e b
found_backed addr ring (x ∷ xs) (inr m) (b, bs) = found_backed addr ring xs m bs
found_backed addr ring [] m bs = absurd m

-- The blocks of one that is cut
abbrev pub pieces : ℕ → ℕ → ℕ → List HeapBlock
pieces want size addr =
    if ltb min_rest (size - want)
    then record { addr = addr; size = want; used = true }
      ∷ record { addr = addr + want; size = size - want; used = false }
      ∷ []
    else record { addr = addr; size = size; used = true } ∷ []

-- The ring, cut at the block at the address
abbrev pub CutAt : ℕ → ℕ → ℕ → List HeapBlock → List HeapBlock → Type 0
CutAt want size addr ring ring' =
    (bs : List HeapBlock) × (b : HeapBlock) × (cs : List HeapBlock) × (ring ≡ bs ++ (b ∷ cs))
    × (b.addr ≡ addr)
    × (ring' ≡ bs ++ (pieces want size addr ++ cs))

pub cut_block_lem :
    (want size : ℕ) (b : HeapBlock) (bs : List HeapBlock)
    → heap_node_size ≤ want
    → cut_block want size b bs ≡ done (pieces want size b.addr ++ bs)
unfolding cut_block
cut_block_lem want size b bs whole = elim (Bool-cases (ltb min_rest (size - want))) [
  | inl e ↦ let f = le→ltb want heap_node_size whole in rw (e, f) refl
  | inr e ↦ rw e refl
]

pub use_block-CutAt :
    (want size addr : ℕ) (ring : List HeapBlock)
    → heap_node_size ≤ want
    → HasBlock addr ring
    → (ring' : List HeapBlock) × (use_block want size addr ring ≡ done ring')
      × CutAt want size addr ring ring'
unfolding use_block
use_block-CutAt want size addr [] whole m = absurd m
use_block-CutAt want size addr (b ∷ bs) whole m = elim (Bool-cases (b.addr == addr)) [
  | inl e ↦
      let same = (==_iff _ _).0 e in
      (
        pieces want size addr ++ bs,
        rw (e, cut_block_lem want size b bs whole) (ap (λ a. done (pieces want size a ++ bs)) same),
        ([], b, bs, refl, same, refl),
      )
  | inr e ↦
      let (ring', runs, (xs, c, ys, split, at, new)) =
        use_block-CutAt want size addr bs whole
          (elim m [ inl f ↦ absurd (cc ((==_iff _ _).1 f, e)) | inr n ↦ n ]) in
      (
        b ∷ ring',
        rw (e, runs) refl,
        (b ∷ xs, c, ys, ap (λ t. b ∷ t) split, at, ap (λ t. b ∷ t) new),
      )
]
