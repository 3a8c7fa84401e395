-- ===== src/Rbtree/Balance.antt =====
-- The rules of a red-black tree: a red node has no red child, and all ways down pass equally many
-- black nodes. What they say of a subtree and of the way up from it.
use cc_rpc.Base.{Bool-cases, inl, inr, ℕ, zero, suc, ◌≡◌, refl, List, [], ◌∷◌, true, false}
use cc_rpc.Rbtree.{
  Color, red, black, RbEntry, RbTree, leaf, node, Frame, from_left, from_right, plug, is_black,
  set_color, frame_color,
}

-- h black nodes on every way down.
abbrev pub IsBalanced : ℕ → RbTree → Type 0
IsBalanced h leaf = h ≡ 0
IsBalanced h (node red l x r) =
    IsBalanced h l × IsBalanced h r × (is_black l ≡ true) × (is_black r ≡ true)
IsBalanced zero (node black l x r) = ⊥
IsBalanced (suc h) (node black l x r) = IsBalanced h l × IsBalanced h r

-- The parent is black, and there is one.
abbrev pub HasBlackParent : List Frame → Type 0
HasBlackParent [] = ⊥
HasBlackParent (f ∷ fs) = frame_color f ≡ black

-- A way up from a subtree with h black nodes on every way down, to a black root.
abbrev pub IsPath : ℕ → List Frame → Type 0
IsPath h [] = Unit {0}
IsPath h (from_left red x r ∷ fs) =
    IsBalanced h r × (is_black r ≡ true) × HasBlackParent fs × IsPath h fs
IsPath h (from_left black x r ∷ fs) = IsBalanced h r × IsPath (suc h) fs
IsPath h (from_right red l x ∷ fs) =
    IsBalanced h l × (is_black l ≡ true) × HasBlackParent fs × IsPath h fs
IsPath h (from_right black l x ∷ fs) = IsBalanced h l × IsPath (suc h) fs

-- The subtree may stand below its parent.
abbrev pub Joins : RbTree → List Frame → Type 0
Joins t [] = Unit {0}
Joins t (f ∷ fs) = frame_color f ≡ red → is_black t ≡ true

-- A tree with a black root that keeps the rules.
abbrev pub IsRbTree : RbTree → Type 0
IsRbTree t = (is_black t ≡ true) × (h : ℕ) × IsBalanced h t

pub blacken-IsRbTree : (h : ℕ) (t : RbTree) → IsBalanced h t → IsRbTree (set_color black t)
blacken-IsRbTree h leaf b = (refl, h, b)
blacken-IsRbTree h (node red l x r) (bl, br, _, _) = (refl, suc h, (bl, br))
blacken-IsRbTree zero (node black l x r) b = absurd b
blacken-IsRbTree (suc h) (node black l x r) b = (refl, suc h, b)

pub Joins-black : (t : RbTree) (fs : List Frame) → is_black t ≡ true → Joins t fs
Joins-black t [] e = tt
Joins-black t (f ∷ fs) e = λ _. e

pub Joins-up : (t : RbTree) (fs : List Frame) → HasBlackParent fs → Joins t fs
Joins-up t [] p = tt
Joins-up t (f ∷ fs) p = λ r. cc

pub plug-IsBalanced :
    (h : ℕ) (t : RbTree) (fs : List Frame)
    → IsBalanced h t
    → IsPath h fs
    → Joins t fs
    → (h' : ℕ) × IsBalanced h' (plug t fs)
plug-IsBalanced h t [] b p j = (h, b)
plug-IsBalanced h t (from_left red x r ∷ fs) b (br, kr, up, p) j =
    plug-IsBalanced h (node red t x r) fs (b, br, j refl, kr) p (Joins-up (node red t x r) fs up)
plug-IsBalanced h t (from_left black x r ∷ fs) b (br, p) j =
    plug-IsBalanced (suc h) (node black t x r) fs (b, br) p (Joins-black (node black t x r) fs refl)
plug-IsBalanced h t (from_right red l x ∷ fs) b (bl, kl, up, p) j =
    plug-IsBalanced h (node red l x t) fs (bl, b, kl, j refl) p (Joins-up (node red l x t) fs up)
plug-IsBalanced h t (from_right black l x ∷ fs) b (bl, p) j =
    plug-IsBalanced (suc h) (node black l x t) fs (bl, b) p (Joins-black (node black l x t) fs refl)

-- The whole tree, where a red subtree has a black parent.
pub plug-IsRbTree :
    (h : ℕ) (t : RbTree) (fs : List Frame)
    → IsBalanced h t
    → IsPath h fs
    → (is_black t ≡ false → HasBlackParent fs)
    → IsRbTree (plug t fs)
plug-IsRbTree h t [] b p up = elim (Bool-cases (is_black t)) [
  | inl k ↦ (k, h, b)
  | inr k ↦ absurd (up k)
]
plug-IsRbTree h t (from_left red x r ∷ fs) b (br, kr, top, p) up = elim (Bool-cases (is_black t)) [
  | inl k ↦ plug-IsRbTree h (node red t x r) fs (b, br, k, kr) p (λ _. top)
  | inr k ↦ cc (up k)
]
plug-IsRbTree h t (from_left black x r ∷ fs) b (br, p) up =
    plug-IsRbTree (suc h) (node black t x r) fs (b, br) p (λ k. cc)
plug-IsRbTree h t (from_right red l x ∷ fs) b (bl, kl, top, p) up = elim (Bool-cases (is_black t)) [
  | inl k ↦ plug-IsRbTree h (node red l x t) fs (bl, b, kl, k) p (λ _. top)
  | inr k ↦ cc (up k)
]
plug-IsRbTree h t (from_right black l x ∷ fs) b (bl, p) up =
    plug-IsRbTree (suc h) (node black l x t) fs (bl, b) p (λ k. cc)

-- The other child of a parent, and what stands above it.
pub sibling_left :
    (h : ℕ) (c : Color) (x : RbEntry) (r : RbTree) (fs : List Frame)
    → IsPath h (from_left c x r ∷ fs)
    → IsBalanced h r × (c ≡ red → is_black r ≡ true)
sibling_left h red x r fs (b, k, _, _) = (b, λ _. k)
sibling_left h black x r fs (b, _) = (b, λ e. cc)

pub sibling_right :
    (h : ℕ) (c : Color) (l : RbTree) (x : RbEntry) (fs : List Frame)
    → IsPath h (from_right c l x ∷ fs)
    → IsBalanced h l × (c ≡ red → is_black l ≡ true)
sibling_right h red l x fs (b, k, _, _) = (b, λ _. k)
sibling_right h black l x fs (b, _) = (b, λ e. cc)
