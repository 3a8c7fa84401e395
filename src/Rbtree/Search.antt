-- ===== src/Rbtree/Search.antt =====
-- What a search by value finds.
use cc_rpc.Base.{
  ℕ, ◌<◌, ◌≡◌, ◌≢◌, refl, arith, List, [], ◌∷◌, ◌++◌, Option, none, some, ltb, ltb→lt, Bool-cases,
  inl, inr, ◌⊎◌, All,
}
use cc_rpc.Rbtree.{black, RbEntry, RbTree, leaf, node, search_node}
use cc_rpc.Rbtree.Order.{to_list, Above, Below, IsOrdered, split-IsOrdered}

abbrev pub Member : RbEntry → List RbEntry → Type 0
Member x [] = ⊥
Member x (y ∷ ys) = (x ≡ y) ⊎ Member x ys

-- What a search by value finds.
abbrev pub Finds : ℕ → List RbEntry → Option RbEntry → Type 0
Finds key xs none = All (λ y. y.value ≢ key) xs
Finds key xs (some x) = Member x xs × (x.value ≡ key)

Member-append :
    (x y : RbEntry) (xs ys : List RbEntry)
    → (Member x xs ⊎ (x ≡ y)) ⊎ Member x ys
    → Member x (xs ++ (y ∷ ys))
Member-append x y [] ys (inl (inl m)) = absurd m
Member-append x y [] ys (inl (inr m)) = inl m
Member-append x y [] ys (inr m) = inr m
Member-append x y (w ∷ xs) ys (inl (inl (inl m))) = inl m
Member-append x y (w ∷ xs) ys (inl (inl (inr m))) = inr (Member-append x y xs ys (inl (inl m)))
Member-append x y (w ∷ xs) ys (inl (inr m)) = inr (Member-append x y xs ys (inl (inr m)))
Member-append x y (w ∷ xs) ys (inr m) = inr (Member-append x y xs ys (inr m))

absent :
    (key : ℕ) (xs : List RbEntry) (x : RbEntry) (ys : List RbEntry)
    → All (λ y. y.value ≢ key) xs
    → x.value ≢ key
    → All (λ y. y.value ≢ key) ys
    → All (λ y. y.value ≢ key) (xs ++ (x ∷ ys))
absent key [] x ys a n b = (n, b)
absent key (w ∷ xs) x ys (a, more) n b = (a, absent key xs x ys more n b)

Above-absent : (key v : ℕ) (xs : List RbEntry) → key < v → Above v xs → All (λ y. y.value ≢ key) xs
Above-absent key v [] h a = tt
Above-absent key v (x ∷ xs) h (a, more) = (omega arith, Above-absent key v xs h more)

Below-absent : (key v : ℕ) (xs : List RbEntry) → v < key → Below v xs → All (λ y. y.value ≢ key) xs
Below-absent key v [] h a = tt
Below-absent key v (x ∷ xs) h (a, more) = (omega arith, Below-absent key v xs h more)

widen_left :
    (key : ℕ) (l : RbTree) (x : RbEntry) (r : RbTree)
    → key < x.value
    → Above x.value (to_list r)
    → (f : Option RbEntry) → Finds key (to_list l) f
    → Finds key (to_list (node black l x r)) f
widen_left key l x r h ar none a =
    absent key (to_list l) x (to_list r) a (omega arith) (Above-absent key x.value (to_list r) h ar)
widen_left key l x r h ar (some y) (m, e) =
    (Member-append y x (to_list l) (to_list r) (inl (inl m)), e)

widen_right :
    (key : ℕ) (l : RbTree) (x : RbEntry) (r : RbTree)
    → x.value < key
    → Below x.value (to_list l)
    → (f : Option RbEntry) → Finds key (to_list r) f
    → Finds key (to_list (node black l x r)) f
widen_right key l x r h bl none a =
    absent key (to_list l) x (to_list r) (Below-absent key x.value (to_list l) h bl) (omega arith) a
widen_right key l x r h bl (some y) (m, e) = (Member-append y x (to_list l) (to_list r) (inr m), e)

-- On an ordered tree search_node finds a node of the tree whose value is the key, or NULL, and then
-- no node has that value.
pub search_node-Finds :
    (t : RbTree) (key : ℕ) → IsOrdered (to_list t) → Finds key (to_list t) (search_node t key)
unfolding search_node
search_node-Finds leaf key o = tt
search_node-Finds (node c l x r) key o =
    let (ol, bl, ar, os) = split-IsOrdered (to_list l) x (to_list r) o in
    elim (Bool-cases (ltb key x.value)) [
      | inl e ↦
          rw (search_node, e)
            (widen_left key l x r (ltb→lt _ _ e) ar (search_node l key)
              (search_node-Finds l key ol))
      | inr e ↦ elim (Bool-cases (ltb x.value key)) [
        | inl f ↦
            rw (search_node, e, f)
              (widen_right key l x r (ltb→lt _ _ f) bl (search_node r key)
                (search_node-Finds r key os))
        | inr f ↦
            rw (search_node, e, f)
              (Member-append x x (to_list l) (to_list r) (inl (inr refl)), ground arith)
      ]
    ]
