-- ===== src/Rbtree/Height.antt =====
-- A red-black tree is not deep, so every walk down is short.
use cc_rpc.Base.{
  ℕ, zero, suc, ◌+◌, ◌*◌, ◌^◌, ◌≤◌, ◌≡◌, refl, arith, ◌∷◌, true, max, length, length-append,
}
use cc_rpc.HashMap.Init.{double}
use cc_rpc.Rbtree.Steps.{RbReach, Reach-IsSound}
use cc_rpc.Rbtree.{RbRoot, red, black, RbTree, leaf, node, is_black}
use cc_rpc.Rbtree.Order.{to_list}
use cc_rpc.Rbtree.Balance.{IsBalanced, IsRbTree}

-- The number of nodes on the longest way down.
abbrev pub depth : RbTree → ℕ
depth leaf = 0
depth (node c l x r) = suc (max (depth l) (depth r))

-- With a red root, one more.
abbrev room : RbTree → ℕ
room leaf = 0
room (node red l x r) = 1
room (node black l x r) = 0

room-black : (t : RbTree) → is_black t ≡ true → room t ≡ 0
room-black leaf e = refl
room-black (node red l x r) e = cc
room-black (node black l x r) e = refl

room-le : (t : RbTree) → room t ≤ 1
room-le leaf = omega arith
room-le (node red l x r) = omega arith
room-le (node black l x r) = omega arith

depth-le : (h : ℕ) (t : RbTree) → IsBalanced h t → depth t ≤ 2 * h + room t
depth-le h leaf b = omega arith
depth-le h (node red l x r) (bl, br, kl, kr) =
    omega (arith, depth-le h l bl, depth-le h r br, room-black l kl, room-black r kr)
depth-le zero (node black l x r) b = absurd b
depth-le (suc h) (node black l x r) (bl, br) =
    omega (arith, depth-le h l bl, depth-le h r br, room-le l, room-le r)

size-ge : (h : ℕ) (t : RbTree) → IsBalanced h t → 2 ^ h ≤ length (to_list t) + 1
size-ge h leaf b = rw b (omega arith)
size-ge h (node red l x r) (bl, br, kl, kr) =
    omega (arith, size-ge h l bl, length-append (to_list l) (x ∷ to_list r))
size-ge zero (node black l x r) b = absurd b
size-ge (suc h) (node black l x r) (bl, br) =
    omega
      (arith, double h, size-ge h l bl, size-ge h r br, length-append (to_list l) (x ∷ to_list r))

depth-le_log :
    (t : RbTree) → IsRbTree t → (h : ℕ) × (depth t ≤ 2 * h) × (2 ^ h ≤ length (to_list t) + 1)
depth-le_log t (k, h, b) = (h, omega (arith, depth-le h t b, room-black t k), size-ge h t b)

-- Whatever sequence of rb_insert_node, of nodes that are not in the tree, and rb_remove_node, of
-- nodes that are, is run from rb_root_init, with fewer than 2^32 nodes, there is an h such that no
-- way down from the root has more than 2h nodes and count is at least 2^h - 1.
pub Reach-depth :
    {r : RbRoot} → RbReach r → (h : ℕ) × (depth r.tree ≤ 2 * h) × (2 ^ h ≤ r.count + 1)
Reach-depth {r} reached =
    let fits = (Reach-IsSound reached).fits in
    let (h, short, many) = depth-le_log r.tree fits.rules in
    (h, short, omega (arith, many, fits.counted))
