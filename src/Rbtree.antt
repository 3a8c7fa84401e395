-- ===== src/Rbtree.antt =====
-- The red-black tree of lib/source/rbtree.c. A subtree is a value, and a node with its `rb_parent`
-- pointers is a subtree with the way up from it: a list of frames, the parent's first. A node's
-- address tells it from others with the same value. `rb_node.root`, which nothing reads, is left out.
pub mod Order
pub mod Query
pub mod Search
pub mod Balance
pub mod Rotate
pub mod Insert
pub mod Root
pub mod Remove
pub mod Fix
pub mod Erase
pub mod Gap
pub mod Locate
pub mod Nodes
pub mod Replace
pub mod Height
pub mod Steps
use cc_rpc.Base.{
  ℕ, ◌+◌, ◌%◌, ◌^◌, List, [], ◌∷◌, Bool, true, false, Option, none, some, Outcome, done, fault,
  ◌>>=◌, ltb, ◌==◌, if◌then◌else◌,
}

pub data Color : Type 0 where
  red black : Color

pub record RbEntry : Type 0 where
  pub addr : ℕ
  pub value : ℕ

-- `leaf` is NULL.
pub data RbTree : Type 0 where
  leaf : RbTree
  node : Color → RbTree → RbEntry → RbTree → RbTree

-- The parent of a node that is its left or right child, without that child.
pub data Frame : Type 0 where
  from_left : Color → RbEntry → RbTree → Frame
  from_right : Color → RbTree → RbEntry → Frame

pub record RbRoot : Type 0 where
  pub tree : RbTree
  pub first_node : Option RbEntry
  pub last_node : Option RbEntry
  pub count : ℕ

abbrev pub fill : RbTree → Frame → RbTree
fill t (from_left c x r) = node c t x r
fill t (from_right c l x) = node c l x t

-- The whole tree.
abbrev pub plug : RbTree → List Frame → RbTree
plug t [] = t
plug t (f ∷ fs) = plug (fill t f) fs

-- `!t || t->rb_color == RB_BLACK`
abbrev pub is_black : RbTree → Bool
is_black leaf = true
is_black (node red l x r) = false
is_black (node black l x r) = true

-- `t->rb_color = c`, where t is not NULL
abbrev pub set_color : Color → RbTree → RbTree
set_color c leaf = leaf
set_color c (node _ l x r) = node c l x r

unfoldable pub rb_rotate_left : RbTree → Outcome RbTree
rb_rotate_left leaf = fault
rb_rotate_left (node c l x leaf) = fault
rb_rotate_left (node c l x (node c' rl y rr)) = done (node c' (node c l x rl) y rr)

unfoldable pub rb_rotate_right : RbTree → Outcome RbTree
rb_rotate_right leaf = fault
rb_rotate_right (node c leaf x r) = fault
rb_rotate_right (node c (node c' ll y lr) x r) = done (node c' ll y (node c lr x r))

-- A red parent on the left of the grandparent (x, u): the parent's side, and then the grandparent's.
unfoldable pub insert_rotate_left : RbTree → Frame → RbEntry → RbTree → Outcome RbTree
insert_rotate_left t (from_left c p s) x u = rb_rotate_right (node red (node black t p s) x u)
insert_rotate_left t (from_right c s p) x u =
    rb_rotate_left (node c s p t) >>= λ q. rb_rotate_right (node red (set_color black q) x u)

unfoldable pub insert_rotate_right : RbTree → Frame → RbTree → RbEntry → Outcome RbTree
insert_rotate_right t (from_right c s p) u x = rb_rotate_left (node red u x (node black s p t))
insert_rotate_right t (from_left c p s) u x =
    rb_rotate_right (node c t p s) >>= λ q. rb_rotate_left (node red u x (set_color black q))

abbrev pub frame_color : Frame → Color
frame_color (from_left c x r) = c
frame_color (from_right c l x) = c

-- The loop of `rb_insert_color`, at the node t. A red parent with no parent of its own is read through
-- NULL.
unfoldable pub insert_color_loop : RbTree → List Frame → Outcome RbTree
insert_color_loop t [] = done t
insert_color_loop t (p ∷ []) = elim (frame_color p) [ black ↦ done (fill t p) | red ↦ fault ]
insert_color_loop t (p ∷ (from_left c x u ∷ fs)) =
    let up = insert_color_loop (node red (set_color black (fill t p)) x (set_color black u)) fs in
    elim (frame_color p) [
      | black ↦ done (plug t (p ∷ from_left c x u ∷ fs))
      | red ↦ elim (is_black u) [
        | false ↦ up
        | true ↦ insert_rotate_left t p x u >>= λ s. done (plug s fs)
      ]
    ]
insert_color_loop t (p ∷ (from_right c u x ∷ fs)) =
    let up = insert_color_loop (node red (set_color black u) x (set_color black (fill t p))) fs in
    elim (frame_color p) [
      | black ↦ done (plug t (p ∷ from_right c u x ∷ fs))
      | red ↦ elim (is_black u) [
        | false ↦ up
        | true ↦ insert_rotate_right t p u x >>= λ s. done (plug s fs)
      ]
    ]

unfoldable pub rb_insert_color : RbTree → List Frame → Outcome RbTree
rb_insert_color t fs = insert_color_loop t fs >>= λ r. done (set_color black r)

-- The walk of `rb_insert_node` to the link where the new node goes.
unfoldable pub find_link : RbEntry → RbTree → List Frame → List Frame
find_link new leaf fs = fs
find_link new (node c l x r) fs = elim (ltb new.value x.value) [
  | true ↦ find_link new l (from_left c x r ∷ fs)
  | false ↦ find_link new r (from_right c l x ∷ fs)
]

-- `rb_link_node` makes the new node red, with no children.
abbrev pub rb_link_node : RbEntry → RbTree
rb_link_node new = node red leaf new leaf

-- The new ends of the order; a count that is not 0 with no ends is read through NULL.
unfoldable pub insert_ends : RbRoot → RbEntry → Outcome (RbEntry × RbEntry)
insert_ends root new = if root.count == 0 then done (new, new) else elim root.first_node [
  | none ↦ fault
  | some first ↦ elim root.last_node [
    | none ↦ fault
    | some last ↦ done (
      if ltb new.value first.value then new else first,
      if ltb new.value last.value then last else new,
    )
  ]
]

unfoldable pub rb_insert_node : RbRoot → RbEntry → Outcome RbRoot
rb_insert_node root new = insert_ends root new >>= λ ends.
    rb_insert_color (rb_link_node new) (find_link new root.tree []) >>= λ tree. done (record {
      tree = tree;
      first_node = some ends.0;
      last_node = some ends.1;
      count = (root.count + 1) % 2 ^ 32;
    })

abbrev pub rb_root_init : RbRoot
rb_root_init = record { tree = leaf; first_node = none; last_node = none; count = 0 }

unfoldable pub rb_first : RbTree → Option RbEntry
rb_first leaf = none
rb_first (node c leaf x r) = some x
rb_first (node c (node c' l y m) x r) = rb_first (node c' l y m)

unfoldable pub rb_last : RbTree → Option RbEntry
rb_last leaf = none
rb_last (node c l x leaf) = some x
rb_last (node c l x (node c' m y r)) = rb_last (node c' m y r)

-- `while (node->rb_parent && node == node->rb_parent->rb_right) ...; return node->rb_parent;`
unfoldable pub climb_next : List Frame → Option RbEntry
climb_next [] = none
climb_next (from_left c x r ∷ fs) = some x
climb_next (from_right c l x ∷ fs) = climb_next fs

unfoldable pub climb_prev : List Frame → Option RbEntry
climb_prev [] = none
climb_prev (from_left c x r ∷ fs) = climb_prev fs
climb_prev (from_right c l x ∷ fs) = some x

-- From a node with its right subtree, or its left one.
unfoldable pub rb_next : RbTree → List Frame → Option RbEntry
rb_next leaf fs = climb_next fs
rb_next (node c l x r) fs = rb_first (node c l x r)

unfoldable pub rb_prev : RbTree → List Frame → Option RbEntry
rb_prev leaf fs = climb_prev fs
rb_prev (node c l x r) fs = rb_last (node c l x r)

unfoldable pub first_greater_loop : ℕ → RbTree → Option RbEntry → Option RbEntry
first_greater_loop key leaf candidate = candidate
first_greater_loop key (node c l x r) candidate = elim (ltb key x.value) [
  | true ↦ first_greater_loop key l (some x)
  | false ↦ first_greater_loop key r candidate
]

unfoldable pub rb_first_greater : RbTree → ℕ → Option RbEntry
rb_first_greater t key = first_greater_loop key t none

unfoldable pub search_node : RbTree → ℕ → Option RbEntry
search_node leaf key = none
search_node (node c l x r) key = elim (ltb key x.value) [
  | true ↦ search_node l key
  | false ↦ elim (ltb x.value key) [ true ↦ search_node r key | false ↦ some x ]
]
