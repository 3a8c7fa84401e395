-- ===== src/Rbtree/Remove.antt =====
-- `rb_remove_node`, `rb_erase` and `rb_erase_color`.
use cc_rpc.Base.{
  ℕ, ◌+◌, ◌-◌, ◌%◌, ◌^◌, List, [], ◌∷◌, Bool, false, not, ◌&&◌, Option, none, some, Outcome, done,
  fault, ◌>>=◌, ltb, ◌==◌, if◌then◌else◌,
}
use cc_rpc.Rbtree.{
  Color, red, black, RbEntry, RbTree, leaf, node, Frame, from_left, from_right, RbRoot, plug,
  is_black, set_color, rb_rotate_left, rb_rotate_right, rb_next, rb_prev,
}

-- What the body of the loop leaves: the node moved up to its parent, or the tree is right below it.
pub data Fixed : Type 0 where
  moved : RbTree → Fixed
  settled : RbTree → Fixed

-- The body for a left child t of the parent (c, x), whose other child is not red.
unfoldable pub fix_left : Color → RbTree → RbEntry → RbTree → Outcome Fixed
fix_left c t x leaf = fault
fix_left c t x (node d ol y or) =
    if is_black ol && is_black or
    then done (moved (node c t x (node red ol y or)))
    else ((if is_black or
          then rb_rotate_right (node red (set_color black ol) y or)
          else done (node d ol y or))
        >>= λ other. elim other [
          | leaf ↦ fault
          | node _ pl z pr ↦
              rb_rotate_left (node black t x (node c pl z (set_color black pr))) >>= λ s.
              done (settled s)
        ])

unfoldable pub fix_right : Color → RbTree → RbEntry → RbTree → Outcome Fixed
fix_right c leaf x t = fault
fix_right c (node d ol y or) x t =
    if is_black ol && is_black or
    then done (moved (node c (node red ol y or) x t))
    else ((if is_black ol
          then rb_rotate_left (node red ol y (set_color black or))
          else done (node d ol y or))
        >>= λ other. elim other [
          | leaf ↦ fault
          | node _ pl z pr ↦
              rb_rotate_right (node black (node c (set_color black pl) z pr) x t) >>= λ s.
              done (settled s)
        ])

-- After a red sibling the parent is red: the loop ends there, and makes it black.
abbrev pub end_red : Fixed → RbTree
end_red (moved t) = set_color black t
end_red (settled t) = t

-- The root is made black at the end.
abbrev pub finish : RbTree → Outcome RbTree
finish t = done (set_color black t)

-- The loop of `rb_erase_color` at the node t, which may be NULL.
unfoldable pub rb_erase_color : RbTree → List Frame → Outcome RbTree
rb_erase_color t [] = done (set_color black t)
rb_erase_color t (from_left c x (node red ol y or) ∷ fs) =
    if not (is_black t)
    then done (plug (set_color black t) (from_left c x (node red ol y or) ∷ fs))
    else (fix_left red t x ol >>= λ f. elim f [
      | moved s ↦ done (plug (set_color black s) (from_left black y or ∷ fs))
      | settled s ↦ finish (plug s (from_left black y or ∷ fs))
    ])
rb_erase_color t (from_left c x other ∷ fs) =
    let up = λ (s : RbTree). rb_erase_color s fs in
    if not (is_black t)
    then done (plug (set_color black t) (from_left c x other ∷ fs))
    else (fix_left c t x other >>= λ f. elim f [ moved s ↦ up s | settled s ↦ finish (plug s fs) ])
rb_erase_color t (from_right c (node red ol y or) x ∷ fs) =
    if not (is_black t)
    then done (plug (set_color black t) (from_right c (node red ol y or) x ∷ fs))
    else (fix_right red or x t >>= λ f. elim f [
      | moved s ↦ done (plug (set_color black s) (from_right black ol y ∷ fs))
      | settled s ↦ finish (plug s (from_right black ol y ∷ fs))
    ])
rb_erase_color t (from_right c other x ∷ fs) =
    let up = λ (s : RbTree). rb_erase_color s fs in
    if not (is_black t)
    then done (plug (set_color black t) (from_right c other x ∷ fs))
    else (fix_right c other x t >>= λ f. elim f [ moved s ↦ up s | settled s ↦ finish (plug s fs) ])

-- `if (color == RB_BLACK) rb_erase_color(child, parent, root);`, the child in its place.
unfoldable pub close_gap : Color → RbTree → List Frame → Outcome RbTree
close_gap red child fs = done (plug child fs)
close_gap black child fs = rb_erase_color child fs

-- The walk to the successor below the right child: its color, entry and child, and the way up.
pub record Successor : Type 0 where
  pub color : Color
  pub entry : RbEntry
  pub child : RbTree
  pub path : List Frame

unfoldable pub leftmost : Color → RbTree → RbEntry → RbTree → List Frame → Successor
leftmost c leaf x r fs = record { color = c; entry = x; child = r; path = fs }
leftmost c (node d l y m) x r fs = leftmost d l y m (from_left c x r ∷ fs)

-- `rb_erase` of the root of a subtree. With two children the successor takes its place and color.
unfoldable pub rb_erase : Color → RbTree → RbTree → List Frame → Outcome RbTree
rb_erase c leaf r fs = close_gap c r fs
rb_erase c (node d ll y lr) leaf fs = close_gap c (node d ll y lr) fs
rb_erase c (node d ll y lr) (node e rl z rr) fs =
    let least = (leftmost e rl z rr []).entry in
    let s = leftmost e rl z rr (from_right c (node d ll y lr) least ∷ fs) in
    close_gap s.color s.child s.path

-- The node at an address: its color, its children and the way up.
pub record Location : Type 0 where
  pub color : Color
  pub left : RbTree
  pub entry : RbEntry
  pub right : RbTree
  pub path : List Frame

unfoldable pub locate : ℕ → RbTree → List Frame → Option Location
locate addr leaf fs = none
locate addr (node c l x r) fs =
    let here : Location = record { color = c; left = l; entry = x; right = r; path = fs } in
    if x.addr == addr then some here else elim (locate addr l (from_left c x r ∷ fs)) [
      | some p ↦ some p
      | none ↦ locate addr r (from_right c l x ∷ fs)
    ]

-- `node == root->last_node`
abbrev pub is_at : Option RbEntry → ℕ → Bool
is_at none addr = false
is_at (some x) addr = x.addr == addr

unfoldable pub rb_remove_node : RbRoot → ℕ → Outcome RbRoot
rb_remove_node root addr = elim (locate addr root.tree []) [
  | none ↦ fault
  | some p ↦ rb_erase p.color p.left p.right p.path >>= λ tree. done (record {
    tree = tree;
    first_node =
        if ltb 1 root.count
        then (if is_at root.first_node addr then rb_next p.right p.path else root.first_node)
        else none;
    last_node =
        if ltb 1 root.count
        then (if is_at root.last_node addr then rb_prev p.left p.path else root.last_node)
        else none;
    count = (root.count + 2 ^ 32 - 1) % 2 ^ 32;
  })
]

-- `rb_node_init`: a node at an address, in no tree yet.
abbrev pub rb_node_init : ℕ → RbEntry
rb_node_init addr = record { addr = addr; value = 0 }

-- The new node takes the links, the color and the value of the victim; the ends of the root stay.
unfoldable pub rb_replace_node : RbRoot → ℕ → ℕ → Outcome RbRoot
rb_replace_node root victim new = elim (locate victim root.tree []) [
  | none ↦ fault
  | some p ↦ done (record root {
    tree = plug (node p.color p.left (record { addr = new; value = p.entry.value }) p.right) p.path;
  })
]
