-- ===== src/Rbtree/Locate.antt =====
-- The node at an address.
use cc_rpc.Base.{
  ℕ, ◌≡◌, ◌≢◌, refl, List, [], ◌∷◌, ◌++◌, false, Option, none, some, ◌⊎◌, inl, inr, Bool-cases,
  ◌==◌, ==_iff, All,
}
use cc_rpc.Rbtree.{RbEntry, RbTree, leaf, node, Frame, from_left, from_right, plug}
use cc_rpc.Rbtree.Order.{to_list}
use cc_rpc.Rbtree.Remove.{Location, locate}

-- No entry is at the address.
abbrev pub NotAt : ℕ → List RbEntry → Type 0
NotAt addr xs = All (λ y. y.addr ≢ addr) xs

abbrev pub IsAt : ℕ → List RbEntry → Type 0
IsAt addr [] = ⊥
IsAt addr (x ∷ xs) = (x.addr ≡ addr) ⊎ IsAt addr xs

-- Every node is in the tree once.
abbrev pub IsDistinct : List RbEntry → Type 0
IsDistinct [] = Unit {0}
IsDistinct (x ∷ xs) = NotAt x.addr xs × IsDistinct xs

abbrev pub Found : ℕ → RbTree → List Frame → Option Location → Type 0
Found addr t fs none = NotAt addr (to_list t)
Found addr t fs (some p) =
    (p.entry.addr ≡ addr) × (plug (node p.color p.left p.entry p.right) p.path ≡ plug t fs)

pub NotAt-append :
    (addr : ℕ) (xs ys : List RbEntry) → NotAt addr xs → NotAt addr ys → NotAt addr (xs ++ ys)
NotAt-append addr [] ys a b = b
NotAt-append addr (x ∷ xs) ys (a, more) b = (a, NotAt-append addr xs ys more b)

pub locate-Found : (addr : ℕ) (t : RbTree) (fs : List Frame) → Found addr t fs (locate addr t fs)
unfolding locate
locate-Found addr leaf fs = tt
locate-Found addr (node c l x r) fs = elim (Bool-cases (x.addr == addr)) [
  | inl e ↦ rw (locate, e) ((==_iff _ _).0 e, refl)
  | inr e ↦
      rw (locate, e)
        (go (locate addr l (from_left c x r ∷ fs)) (locate addr r (from_right c l x ∷ fs))
          (locate-Found addr l (from_left c x r ∷ fs)) (locate-Found addr r (from_right c l x ∷ fs))
          e)
]
  where
    go :
        (o₁ o₂ : Option Location)
        → Found addr l (from_left c x r ∷ fs) o₁
        → Found addr r (from_right c l x ∷ fs) o₂
        → (x.addr == addr) ≡ false
        → Found addr (node c l x r) fs (elim o₁ [ some p ↦ some p | none ↦ o₂ ])
    go none none a b e =
        NotAt-append addr (to_list l) (x ∷ to_list r) a (λ h. cc ((==_iff _ _).1 h), b)
    go none (some p) a b e = b
    go (some p) o₂ a b e = a

pub not_both : (addr : ℕ) (xs : List RbEntry) → NotAt addr xs → IsAt addr xs → ⊥
not_both addr [] a i = i
not_both addr (x ∷ xs) (a, more) (inl e) = a e
not_both addr (x ∷ xs) (a, more) (inr i) = not_both addr xs more i
