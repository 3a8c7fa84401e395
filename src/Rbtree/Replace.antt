-- ===== src/Rbtree/Replace.antt =====
-- `rb_replace_node` puts a node in the place of another.
use cc_rpc.Base.{
  ℕ, zero, suc, false, ◌≡◌, refl, sym, ap, ◌∙◌, subst, List, [], ◌∷◌, ◌++◌, append_assoc, done, inl,
  inr, Option-cases,
}
use cc_rpc.Rbtree.{Color, red, black, RbEntry, RbTree, node, Frame, RbRoot, plug, is_black}
use cc_rpc.Rbtree.Order.{to_list, to_list-plug, before, after}
use cc_rpc.Rbtree.Balance.{IsBalanced, IsPath, HasBlackParent, IsRbTree, plug-IsRbTree}
use cc_rpc.Rbtree.Remove.{locate, rb_replace_node}
use cc_rpc.Rbtree.Gap.{plug-Around}
use cc_rpc.Rbtree.Locate.{Found, locate-Found, not_both, IsAt}

other_entry :
    (h : ℕ) (c : Color) (l : RbTree) (x y : RbEntry) (r : RbTree) (fs : List Frame)
    → IsBalanced h (node c l x r)
    → IsPath h fs
    → (is_black (node c l x r) ≡ false → HasBlackParent fs)
    → IsRbTree (plug (node c l y r) fs)
other_entry h red l x y r fs b p up = plug-IsRbTree h (node red l y r) fs b p up
other_entry zero black l x y r fs b p up = absurd b
other_entry (suc h) black l x y r fs b p up = plug-IsRbTree (suc h) (node black l y r) fs b p up

-- The new node stands in the victim's place, with its value.
pub rb_replace_node_lem :
    (root : RbRoot) (victim new : ℕ)
    → IsRbTree root.tree
    → IsAt victim (to_list root.tree)
    → (root' : RbRoot) × (xs ys : List RbEntry) × (x : RbEntry) × (rb_replace_node root victim new
        ≡ done root')
      × (x.addr ≡ victim)
      × (to_list root.tree ≡ xs ++ (x ∷ ys))
      × (to_list root'.tree ≡ xs ++ (record { addr = new; value = x.value } ∷ ys))
      × IsRbTree root'.tree
      × (root'.first_node ≡ root.first_node)
      × (root'.last_node ≡ root.last_node)
unfolding rb_replace_node
rb_replace_node_lem root victim new rules is_at = elim (Option-cases (locate victim root.tree [])) [
  | inl e ↦ absurd (
      not_both victim (to_list root.tree)
        (subst (Found victim root.tree []) e (locate-Found victim root.tree [])) is_at)
  | inr (p, e) ↦
      let (at, whole) = subst (Found victim root.tree []) e (locate-Found victim root.tree []) in
      let y : RbEntry = record { addr = new; value = p.entry.value } in
      let a =
        plug-Around (node p.color p.left p.entry p.right) p.path
          (subst IsRbTree (sym whole) rules) in
      (
        record root { tree = plug (node p.color p.left y p.right) p.path },
        before p.path ++ to_list p.left,
        to_list p.right ++ after p.path,
        p.entry,
        rw (rb_replace_node, e) refl,
        at,
        ap to_list (sym whole)
            ∙ (to_list-plug (node p.color p.left p.entry p.right) p.path ∙ simp append_assoc),
        to_list-plug (node p.color p.left y p.right) p.path ∙ simp append_assoc,
        other_entry a.height p.color p.left p.entry y p.right p.path a.balanced a.path a.parent,
        refl,
        refl,
      )
]
