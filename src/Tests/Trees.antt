-- ===== src/Tests/Trees.antt =====
-- A red-black tree of three nodes: insertion, removal and searches.
use cc_rpc.Base.{ℕ, ◌+◌, ◌*◌, ◌^◌, ◌≤◌, ◌≡◌, refl, arith, List, ◌∷◌, ◌++◌, some, done, inl, inr}
use cc_rpc.Rbtree.{
  red, black, RbEntry, RbTree, leaf, node, RbRoot, rb_root_init, rb_insert_node, insert_color_loop,
  rb_insert_color, find_link, insert_ends, rb_next, climb_next, rb_first_greater,
}
use cc_rpc.Rbtree.Order.{to_list, insert_ordered}
use cc_rpc.Rbtree.Query.{first_greater, rb_first_greater_lem}
use cc_rpc.Rbtree.Root.{IsRbRoot, rb_insert_node-IsRbRoot}
use cc_rpc.Rbtree.Remove.{
  rb_erase_color, rb_erase, rb_remove_node, locate, close_gap, leftmost, rb_replace_node,
}
use cc_rpc.Rbtree.Nodes.{rb_remove_node-IsRbRoot}
use cc_rpc.Rbtree.Locate.{IsDistinct}
use cc_rpc.Rbtree.Height.{depth, Reach-depth}
use cc_rpc.Rbtree.Steps.{insert, remove, here, next, IsSound, Reach-IsSound}

abbrev entry : ℕ → ℕ → RbEntry
entry a v = record { addr = a; value = v }

abbrev three : RbTree
three = node black (node red leaf (entry 1 10) leaf) (entry 2 20) (node red leaf (entry 3 30) leaf)

abbrev root3 : RbRoot
root3 = record {
  tree = three;
  first_node = some (entry 1 10);
  last_node = some (entry 3 30);
  count = 3;
}

root3-IsRbRoot : IsRbRoot root3
root3-IsRbRoot = record {
  rules = (refl, 1, ((refl, refl, refl, refl), (refl, refl, refl, refl)));
  ordered = omega arith;
  first = refl;
  last = refl;
  counted = refl;
}

rb_insert_node-IsRbRoot_example :
    (root' : RbRoot) × (rb_insert_node root3 (entry 4 20) ≡ done root')
    × IsRbRoot root'
    × (to_list root'.tree ≡ insert_ordered (entry 4 20) (to_list three))
rb_insert_node-IsRbRoot_example =
    rb_insert_node-IsRbRoot root3 (entry 4 20) root3-IsRbRoot (omega arith)

-- The uncle is red: the colors change, and the root turns black again.
insert_recolors :
    rb_insert_node root3 (entry 4 20)
    ≡ done (record {
      tree =
          node black
            (node black leaf (entry 1 10) leaf)
            (entry 2 20)
            (node black (node red leaf (entry 4 20) leaf) (entry 3 30) leaf);
      first_node = some (entry 1 10);
      last_node = some (entry 3 30);
      count = 4;
    })
unfolding rb_insert_node insert_ends rb_insert_color insert_color_loop find_link
insert_recolors = refl

three-IsDistinct : IsDistinct (to_list three)
three-IsDistinct = omega arith

rb_remove_node-IsRbRoot_example :
    (root' : RbRoot) × (xs ys : List RbEntry) × (x : RbEntry) × (rb_remove_node root3 2
      ≡ done root')
    × (x.addr ≡ 2)
    × (to_list root3.tree ≡ xs ++ (x ∷ ys))
    × (to_list root'.tree ≡ xs ++ ys)
    × IsRbRoot root'
    × IsDistinct (to_list root'.tree)
rb_remove_node-IsRbRoot_example =
    rb_remove_node-IsRbRoot root3 2 root3-IsRbRoot three-IsDistinct (inr (inl refl)) (omega arith)

-- The successor takes the place of the root.
remove_root :
    rb_remove_node root3 2
    ≡ done (record {
      tree = node black (node red leaf (entry 1 10) leaf) (entry 3 30) leaf;
      first_node = some (entry 1 10);
      last_node = some (entry 3 30);
      count = 2;
    })
unfolding rb_remove_node locate rb_erase leftmost close_gap
remove_root = refl

-- The first node goes, and the next one is first.
remove_first :
    rb_remove_node root3 1
    ≡ done (record {
      tree = node black leaf (entry 2 20) (node red leaf (entry 3 30) leaf);
      first_node = some (entry 2 20);
      last_node = some (entry 3 30);
      count = 2;
    })
unfolding rb_remove_node locate rb_erase close_gap rb_next climb_next
remove_first = refl

rb_first_greater_lem_example : rb_first_greater three 20 ≡ first_greater 20 (to_list three)
rb_first_greater_lem_example = rb_first_greater_lem three 20 root3-IsRbRoot.ordered

abbrev root1 : RbRoot
root1 = record {
  tree = node black leaf (entry 1 10) leaf;
  first_node = some (entry 1 10);
  last_node = some (entry 1 10);
  count = 1;
}

insert_one : rb_insert_node rb_root_init (entry 1 10) ≡ done root1
unfolding rb_insert_node insert_ends rb_insert_color insert_color_loop find_link
insert_one = refl

remove_one : rb_remove_node root1 1 ≡ done rb_root_init
unfolding rb_remove_node locate rb_erase close_gap rb_erase_color
remove_one = refl

Reach-IsSound_example : IsSound rb_root_init
Reach-IsSound_example = Reach-IsSound (
    next (next here (insert (entry 1 10) tt (omega arith) insert_one))
      (remove 1 (inl refl) remove_one))

Reach-depth_example : (h : ℕ) × (depth root1.tree ≤ 2 * h) × (2 ^ h ≤ root1.count + 1)
Reach-depth_example = Reach-depth (next here (insert (entry 1 10) tt (omega arith) insert_one))

-- The root's first node is still the victim.
replace_first :
    rb_replace_node root3 1 9
    ≡ done (record root3 {
      tree =
          node black
            (node red leaf (entry 9 10) leaf)
            (entry 2 20)
            (node red leaf (entry 3 30) leaf);
    })
unfolding rb_replace_node locate
replace_first = refl
