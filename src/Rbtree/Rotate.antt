-- ===== src/Rbtree/Rotate.antt =====
-- The rotations of `rb_insert_color`, and its change of colors, keep the rules.
use cc_rpc.Base.{
  ℕ, suc, ◌≡◌, refl, sym, ap, ◌∙◌, List, ◌∷◌, ◌++◌, append_assoc, true, false, Outcome, done, ◌⊎◌,
  inl, inr,
}
use cc_rpc.Rbtree.{
  Color, red, black, RbEntry, RbTree, leaf, node, Frame, from_left, from_right, fill, plug,
  is_black, set_color, rb_rotate_left, rb_rotate_right, insert_rotate_left, insert_rotate_right,
  frame_color,
}
use cc_rpc.Rbtree.Order.{to_list, before, after, to_list-plug}
use cc_rpc.Rbtree.Balance.{IsBalanced, HasBlackParent, IsPath}

pub plug-list :
    (s t : RbTree) (fs : List Frame)
    → to_list s ≡ to_list t
    → to_list (plug s fs) ≡ to_list (plug t fs)
plug-list s t fs e =
    to_list-plug s fs ∙ (ap (λ xs. before fs ++ (xs ++ after fs)) e ∙ sym (to_list-plug t fs))

pub set_color-list : (c : Color) (t : RbTree) → to_list (set_color c t) ≡ to_list t
set_color-list c leaf = refl
set_color-list c (node d l x r) = refl

-- The frame of a red parent.
abbrev pub RedFrame : ℕ → Frame → Type 0
RedFrame h (from_left red x r) = IsBalanced h r × (is_black r ≡ true)
RedFrame h (from_right red l x) = IsBalanced h l × (is_black l ≡ true)
RedFrame h (from_left black x r) = ⊥
RedFrame h (from_right black l x) = ⊥

abbrev pub IsRedPath : ℕ → Frame → List Frame → Type 0
IsRedPath h p fs = (frame_color p ≡ red) × RedFrame h p × HasBlackParent fs × IsPath h fs

pub frame_cases :
    (h : ℕ) (p : Frame) (fs : List Frame)
    → IsPath h (p ∷ fs)
    → (frame_color p ≡ black) ⊎ IsRedPath h p fs
frame_cases h (from_left red x r) fs (b, k, up, path) = inr (refl, (b, k), up, path)
frame_cases h (from_left black x r) fs p = inl refl
frame_cases h (from_right red l x) fs (b, k, up, path) = inr (refl, (b, k), up, path)
frame_cases h (from_right black l x) fs p = inl refl

-- A black subtree with the same entries in the place of the grandparent.
abbrev pub Rotated : ℕ → RbTree → Outcome RbTree → Type 0
Rotated h old r =
    (s : RbTree) × (r ≡ done s)
    × IsBalanced (suc h) s
    × (is_black s ≡ true)
    × (to_list s ≡ to_list old)

pub insert_rotate_left-Rotated :
    (h : ℕ) (a : RbTree) (y : RbEntry) (b : RbTree) (p : Frame) (x : RbEntry) (u : RbTree)
    → IsBalanced h (node red a y b)
    → RedFrame h p
    → IsBalanced h u
    → is_black u ≡ true
    → Rotated h
        (node black (fill (node red a y b) p) x u)
        (insert_rotate_left (node red a y b) p x u)
unfolding insert_rotate_left rb_rotate_left rb_rotate_right
insert_rotate_left-Rotated h a y b (from_left red q s) x u (ba, bb, ka, kb) (bs, ks) bu ku = (
  node black (node red a y b) q (node red s x u),
  refl,
  ((ba, bb, ka, kb), (bs, bu, ks, ku)),
  refl,
  simp append_assoc,
)
insert_rotate_left-Rotated h a y b (from_right red s q) x u (ba, bb, ka, kb) (bs, ks) bu ku = (
  node black (node red s q a) y (node red b x u),
  refl,
  ((bs, ba, ks, ka), (bb, bu, kb, ku)),
  refl,
  simp append_assoc,
)
insert_rotate_left-Rotated h a y b (from_left black q s) x u t f bu ku = absurd f
insert_rotate_left-Rotated h a y b (from_right black s q) x u t f bu ku = absurd f

pub insert_rotate_right-Rotated :
    (h : ℕ) (a : RbTree) (y : RbEntry) (b : RbTree) (p : Frame) (u : RbTree) (x : RbEntry)
    → IsBalanced h (node red a y b)
    → RedFrame h p
    → IsBalanced h u
    → is_black u ≡ true
    → Rotated h
        (node black u x (fill (node red a y b) p))
        (insert_rotate_right (node red a y b) p u x)
unfolding insert_rotate_right rb_rotate_left rb_rotate_right
insert_rotate_right-Rotated h a y b (from_right red s q) u x (ba, bb, ka, kb) (bs, ks) bu ku = (
  node black (node red u x s) q (node red a y b),
  refl,
  ((bu, bs, ku, ks), (ba, bb, ka, kb)),
  refl,
  simp append_assoc,
)
insert_rotate_right-Rotated h a y b (from_left red q s) u x (ba, bb, ka, kb) (bs, ks) bu ku = (
  node black (node red u x a) y (node red b q s),
  refl,
  ((bu, ba, ku, ka), (bb, bs, kb, ks)),
  refl,
  simp append_assoc,
)
insert_rotate_right-Rotated h a y b (from_left black q s) u x t f bu ku = absurd f
insert_rotate_right-Rotated h a y b (from_right black s q) u x t f bu ku = absurd f

-- The parent and the uncle made black.
pub parent_black :
    (h : ℕ) (t : RbTree) (p : Frame)
    → IsBalanced h t
    → RedFrame h p
    → IsBalanced (suc h) (set_color black (fill t p))
      × (is_black (set_color black (fill t p)) ≡ true)
parent_black h t (from_left red x r) b (br, k) = ((b, br), refl)
parent_black h t (from_right red l x) b (bl, k) = ((bl, b), refl)
parent_black h t (from_left black x r) b f = absurd f
parent_black h t (from_right black l x) b f = absurd f

pub uncle_black :
    (h : ℕ) (u : RbTree)
    → IsBalanced h u
    → is_black u ≡ false
    → IsBalanced (suc h) (set_color black u) × (is_black (set_color black u) ≡ true)
uncle_black h leaf b e = cc
uncle_black h (node red l x r) (bl, br, _, _) e = ((bl, br), refl)
uncle_black h (node black l x r) b e = cc
