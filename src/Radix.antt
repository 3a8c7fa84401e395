-- ===== src/Radix.antt =====
-- The radix tree of lib/source/radix.c, with BIT_LEVEL 4. A subtree is a value, its slots are a
-- function of the offset, and `parent` and `offset` of a node are where it stands. Only the parent of
-- the top node is kept, since it is the root itself for a tree that did not grow.
pub mod Valid
pub mod Digits
pub mod Levels
pub mod Grow
pub mod Raise
pub mod Insert
pub mod Take
pub mod Delete
pub mod Lookup
pub mod Bound
pub mod Upper
pub mod Nearest
pub mod Steps
use cc_rpc.Base.{
  ℕ, zero, suc, ◌+◌, ◌-◌, ◌/◌, ◌%◌, ◌^◌, Bool, true, false, Option, none, some, Outcome, done,
  fault, ◌>>=◌, ◌==◌, ◌&&◌, ltb, if◌then◌else◌,
}
use cc_rpc.HashMap.{bit_length}

-- `SIZE_LEVEL`
abbrev pub size_level : ℕ
size_level = 16

-- `null` is NULL, `item` a pointer that was inserted, and not NULL; `branch` has `height`, `count` and
-- `slots`.
pub data Radix : Type 0 where
  null : Radix
  item : ℕ → Radix
  branch : ℕ → ℕ → (ℕ → Radix) → Radix

-- `linked` says that the parent of `rnode` is the root.
pub record RadixRoot : Type 0 where
  pub height : ℕ
  pub count : ℕ
  pub rnode : Radix
  pub linked : Bool

abbrev pub put : (ℕ → Radix) → ℕ → Radix → ℕ → Radix
put s o t a = if a == o then t else s a

-- `(index >> shift) & (SIZE_LEVEL - 1)`, with h levels below
abbrev pub offset_at : ℕ → ℕ → ℕ
offset_at h index = index / 16 ^ h % 16

-- `63 - __builtin_clzll(v)`, for v > 0
unfoldable pub log2_clz64 : ℕ → ℕ
unfolding bit_length
log2_clz64 v = 63 - (64 - bit_length 64 v)

unfoldable pub radix_tree_height : ℕ → ℕ
unfolding log2_clz64
radix_tree_height index = if index == 0 then 1 else log2_clz64 index / 4 + 1

abbrev pub radix_tree_init : RadixRoot
radix_tree_init = record { height = 0; count = 0; rnode = null; linked = false }

-- `radix_tree_node_init`
abbrev pub radix_tree_node_init : ℕ → Radix
radix_tree_node_init height = branch height 0 (λ _. null)

-- `grant n` says whether a tree with n nodes gets memory for one more. One round of the walk at the
-- slot o, with h levels below it; `walk` is the rest of the walk.
unfoldable pub grow_slot :
    (ℕ → Bool)
    → (Radix → ℕ → Outcome (Bool × Radix × ℕ))
    → ℕ
    → ℕ
    → ℕ
    → (ℕ → Radix)
    → ℕ
    → ℕ
    → Radix
    → Outcome (Bool × Radix × ℕ)
grow_slot grant walk h ht c s o n null =
    if grant n
    then walk (radix_tree_node_init h) ((n + 1) % 2 ^ 32)
      >>= (λ r. done (r.0, branch ht ((c + 1) % 2 ^ 32) (put s o r.1), r.2))
    else done (false, branch ht c s, n)
grow_slot grant walk h ht c s o n (item w) = fault
grow_slot grant walk h ht c s o n (branch ht' c' s') =
    walk (branch ht' c' s') n >>= λ r. done (r.0, branch ht c (put s o r.1), r.2)

-- The slot of the leaf
unfoldable pub fill_slot : ℕ → ℕ → ℕ → (ℕ → Radix) → ℕ → ℕ → Radix → Outcome (Bool × Radix × ℕ)
fill_slot v ht c s o n null = done (true, branch ht ((c + 1) % 2 ^ 32) (put s o (item v)), n)
fill_slot v ht c s o n (item w) = done (false, branch ht c s, n)
fill_slot v ht c s o n (branch ht' c' s') = done (false, branch ht c s, n)

-- A node with h levels below it is walked down to its leaf; the Bool is false for -1.
unfoldable pub grow_node_loop : (ℕ → Bool) → ℕ → ℕ → ℕ → Radix → ℕ → Outcome (Bool × Radix × ℕ)
unfolding grow_slot fill_slot
grow_node_loop grant h index v null n = fault
grow_node_loop grant h index v (item w) n = fault
grow_node_loop grant zero index v (branch ht c s) n =
    fill_slot v ht c s (offset_at 0 index) n (s (offset_at 0 index))
grow_node_loop grant (suc h) index v (branch ht c s) n =
    grow_slot grant (grow_node_loop grant h index v) (suc h) ht c s (offset_at (suc h) index) n
      (s (offset_at (suc h) index))

-- A tree of height 0 with a node is walked by a shift that wrapped around.
unfoldable pub radix_tree_grow_node : (ℕ → Bool) → RadixRoot → ℕ → ℕ → Outcome (Bool × RadixRoot)
unfolding grow_node_loop
radix_tree_grow_node grant root index v = elim root.height [
  | zero ↦ fault
  | suc h ↦ grow_node_loop grant h index v root.rnode root.count >>= λ r.
      done (r.0, record root { rnode = r.1; count = r.2 })
]

-- One round for each level that is missing. The height is raised before the memory is asked for.
unfoldable pub radix_tree_grow_height : (ℕ → Bool) → ℕ → RadixRoot → Bool × RadixRoot
radix_tree_grow_height grant zero root = (true, root)
radix_tree_grow_height grant (suc k) root = elim (grant root.count) [
  | false ↦ (false, record root { height = suc root.height })
  | true ↦ radix_tree_grow_height grant k (record {
    height = suc root.height;
    count = (root.count + 1) % 2 ^ 32;
    rnode = branch (suc root.height) 1 (put (λ _. null) 0 root.rnode);
    linked = false;
  })
]

-- The two cases of `*node_ptr`, with `height` levels for the index
unfoldable pub insert_at : (ℕ → Bool) → RadixRoot → ℕ → ℕ → ℕ → Radix → Outcome (Bool × RadixRoot)
insert_at grant root index v height null =
    if grant root.count
    then radix_tree_grow_node grant
        (record {
          height = height;
          count = (root.count + 1) % 2 ^ 32;
          rnode = radix_tree_node_init height;
          linked = true;
        })
        index v
    else done (false, root)
insert_at grant root index v height node =
    let (okay, grown) = radix_tree_grow_height grant (height - root.height) root in
    if okay then radix_tree_grow_node grant grown index v else done (false, grown)

unfoldable pub radix_tree_insert : (ℕ → Bool) → RadixRoot → ℕ → ℕ → Outcome (Bool × RadixRoot)
unfolding insert_at radix_tree_height radix_tree_grow_node radix_tree_grow_height
radix_tree_insert grant root index v =
    insert_at grant root index v (radix_tree_height index) root.rnode

-- A slot that leads to the wrong kind of thing is a fault.
unfoldable pub lookup_loop : ℕ → Radix → ℕ → Outcome (Option ℕ)
lookup_loop h null index = done none
lookup_loop zero (item v) index = done (some v)
lookup_loop (suc h) (item v) index = fault
lookup_loop zero (branch ht c s) index = fault
lookup_loop (suc h) (branch ht c s) index = lookup_loop h (s (offset_at h index)) index

unfoldable pub radix_tree_lookup : RadixRoot → ℕ → Outcome (Option ℕ)
unfolding lookup_loop
radix_tree_lookup root index = lookup_loop root.height root.rnode index

-- `t` unless it is NULL
abbrev pub or_slot : Radix → Radix → Radix
or_slot rest null = rest
or_slot rest (item v) = item v
or_slot rest (branch ht c s) = branch ht c s

-- The first slot that is not NULL, among k slots from o
unfoldable pub first_slot : ℕ → (ℕ → Radix) → ℕ → Radix
first_slot zero s o = null
first_slot (suc k) s o = or_slot (first_slot k s (o + 1)) (s o)

-- The walk goes on in the slot that was found; without one the code reads past the array.
unfoldable pub follow : (Radix → Outcome (Option ℕ)) → Radix → Outcome (Option ℕ)
follow walk null = fault
follow walk (item v) = walk (item v)
follow walk (branch ht c s) = walk (branch ht c s)

-- For what stands above h levels
unfoldable pub radix_tree_node_left : ℕ → Radix → Outcome (Option ℕ)
unfolding first_slot follow
radix_tree_node_left h null = done none
radix_tree_node_left zero (item v) = done (some v)
radix_tree_node_left zero (branch ht c s) = fault
radix_tree_node_left (suc h) (item v) = fault
radix_tree_node_left (suc h) (branch ht c s) =
    follow (radix_tree_node_left h) (first_slot size_level s 0)

-- `node->height`
abbrev pub height_of : Radix → ℕ
height_of (branch ht c s) = ht
height_of t = 0

unfoldable pub radix_tree_root_left : RadixRoot → Outcome (Option ℕ)
unfolding radix_tree_node_left
radix_tree_root_left root = radix_tree_node_left (height_of root.rnode) root.rnode

-- What removal leaves of a subtree: `taken` is the item, `freed` the number of freed nodes, and
-- `climbs` says that the climb has come up to the top of the subtree.
pub record Removal : Type 0 where
  pub taken : ℕ
  pub left : Radix
  pub freed : ℕ
  pub climbs : Bool

abbrev pub empty : Radix → Bool
empty (branch ht c s) = c == 0
empty t = false

-- One round of the climb, at the parent of the node that the removal is about; `none` is NULL.
unfoldable pub free_empty : ℕ → ℕ → (ℕ → Radix) → ℕ → Option Removal → Outcome (Option Removal)
free_empty ht c s o none = done none
free_empty ht c s o (some below) =
    if below.climbs && empty below.left
    then done (
        some (record {
          taken = below.taken;
          left = branch ht ((c + 2 ^ 32 - 1) % 2 ^ 32) (put s o null);
          freed = below.freed + 1;
          climbs = true;
        }))
    else done (some (record below { left = branch ht c (put s o below.left); climbs = false }))

-- The slot of the leaf; `none` is NULL.
unfoldable pub take_slot : ℕ → ℕ → (ℕ → Radix) → ℕ → Radix → Outcome (Option Removal)
take_slot ht c s o null = done none
take_slot ht c s o (item v) = done (
    some (record {
      taken = v;
      left = branch ht ((c + 2 ^ 32 - 1) % 2 ^ 32) (put s o null);
      freed = 0;
      climbs = true;
    }))
take_slot ht c s o (branch ht' c' s') = fault

-- A node with h levels below it is walked down.
unfoldable pub delete_loop : ℕ → Radix → ℕ → Outcome (Option Removal)
unfolding free_empty take_slot
delete_loop h null index = done none
delete_loop h (item v) index = fault
delete_loop zero (branch ht c s) index =
    take_slot ht c s (offset_at 0 index) (s (offset_at 0 index))
delete_loop (suc h) (branch ht c s) index =
    let o = offset_at (suc h) index in delete_loop h (s o) index >>= free_empty ht c s o

-- The root is freed when it is empty; the node that is freed is the one where the climb ended.
unfoldable pub drop_top : RadixRoot → Option Removal → Outcome (Option ℕ × RadixRoot)
drop_top root none = done (none, root)
drop_top root (some r) =
    let count = (root.count + 2 ^ 32 - r.freed) % 2 ^ 32 in
    if empty r.left
    then (if r.climbs
        then done (
          some r.taken,
          record {
            height = 0;
            count = (count + 2 ^ 32 - 1) % 2 ^ 32;
            rnode = null;
            linked = false;
          },
        )
        else fault)
    else done (some r.taken, record root { count = count; rnode = r.left })

-- The removal below a root with that many levels
unfoldable pub delete_from : RadixRoot → ℕ → ℕ → Outcome (Option ℕ × RadixRoot)
unfolding delete_loop drop_top
delete_from root index zero = fault
delete_from root index (suc h) = delete_loop h root.rnode index >>= drop_top root

unfoldable pub radix_tree_delete : RadixRoot → ℕ → Outcome (Option ℕ × RadixRoot)
unfolding radix_tree_height delete_from
radix_tree_delete root index =
    if ltb root.height (radix_tree_height index)
    then done (none, root)
    else delete_from root index root.height

-- The slots behind o, from the left
unfoldable pub right_of : ℕ → (ℕ → Radix) → ℕ → Outcome (Option ℕ)
unfolding first_slot radix_tree_node_left
right_of h s o = radix_tree_node_left h (first_slot (size_level - 1 - o) s (o + 1))

-- `return`, or the climb goes on with m.
unfoldable pub or_climb : Outcome (Option ℕ) → Option ℕ → Outcome (Option ℕ)
or_climb m none = m
or_climb m (some v) = done (some v)

-- `shift` comes from the height of the root, which is k more than that of its node. The leaf does not
-- shift.
unfoldable pub bound_offset : ℕ → ℕ → ℕ → ℕ
bound_offset k zero index = offset_at 0 index
bound_offset k (suc h) index = offset_at (k + suc h) index

-- The search and the climb below a node; `none` says that the climb goes on above the node.
unfoldable pub bound_loop : ℕ → ℕ → Radix → ℕ → Outcome (Option ℕ)
unfolding right_of or_climb bound_offset
bound_loop k h null index = done none
bound_loop k zero (item v) index = done (some v)
bound_loop k zero (branch ht c s) index = fault
bound_loop k (suc h) (item v) index = fault
bound_loop k (suc h) (branch ht c s) index =
    let o = bound_offset k h index in bound_loop k h (s o) index >>= or_climb (right_of h s o)

-- The climb reads a root that it is linked to as a node, whose slot 1 is `rnode` (with pointers of 64
-- bits).
unfoldable pub radix_tree_lookup_upper_bound : RadixRoot → ℕ → Outcome (Option ℕ)
unfolding bound_loop or_climb radix_tree_root_left
radix_tree_lookup_upper_bound root index =
    let height = height_of root.rnode in
    bound_loop (root.height - height) height root.rnode index
    >>= or_climb (if root.linked then radix_tree_root_left root else done none)
