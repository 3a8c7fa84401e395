-- ===== src/Rbtree/Steps.antt =====
-- Any sequence of insertions and removals.
use cc_rpc.Base.{
  ℕ, ◌+◌, ◌^◌, ◌<◌, ◌≡◌, ◌≢◌, refl, sym, ap, subst, arith, List, [], ◌∷◌, done, length,
  length-append, ltb, Bool-cases, inl, inr,
}
use cc_rpc.Rbtree.{RbEntry, RbRoot, rb_root_init, rb_insert_node}
use cc_rpc.Rbtree.Order.{to_list, insert_ordered}
use cc_rpc.Rbtree.Root.{IsRbRoot, rb_insert_node-IsRbRoot, length-insert_ordered}
use cc_rpc.Rbtree.Remove.{rb_remove_node}
use cc_rpc.Rbtree.Nodes.{rb_remove_node-IsRbRoot}
use cc_rpc.Rbtree.Locate.{NotAt, IsAt, IsDistinct}

-- A node that is not in the tree goes in, or one that is there goes out.
pub data RbStep : RbRoot → RbRoot → Type 0 where
  insert :
      {r r' : RbRoot} (new : RbEntry)
      → NotAt new.addr (to_list r.tree)
      → r.count + 1 < 2 ^ 32
      → rb_insert_node r new ≡ done r'
      → RbStep r r'
  remove :
      {r r' : RbRoot} (addr : ℕ)
      → IsAt addr (to_list r.tree)
      → rb_remove_node r addr ≡ done r'
      → RbStep r r'

pub data RbReach : RbRoot → Type 0 where
  here : RbReach rb_root_init
  next : {r r' : RbRoot} → RbReach r → RbStep r r' → RbReach r'

pub record IsSound (r : RbRoot) : Type 0 where
  pub fits : IsRbRoot r
  pub distinct : IsDistinct (to_list r.tree)
  pub word : r.count < 2 ^ 32

NotAt-insert_ordered :
    (addr : ℕ) (new : RbEntry) (xs : List RbEntry)
    → new.addr ≢ addr
    → NotAt addr xs
    → NotAt addr (insert_ordered new xs)
NotAt-insert_ordered addr new [] n a = (n, tt)
NotAt-insert_ordered addr new (x ∷ xs) n (a, more) = elim (Bool-cases (ltb new.value x.value)) [
  | inl e ↦ rw e (n, (a, more))
  | inr e ↦ rw e (a, NotAt-insert_ordered addr new xs n more)
]

insert_ordered-IsDistinct :
    (new : RbEntry) (xs : List RbEntry)
    → NotAt new.addr xs
    → IsDistinct xs
    → IsDistinct (insert_ordered new xs)
insert_ordered-IsDistinct new [] n d = (tt, tt)
insert_ordered-IsDistinct new (x ∷ xs) (n, more) (a, d) =
    elim (Bool-cases (ltb new.value x.value)) [
      | inl e ↦ rw e ((n, more), (a, d))
      | inr e ↦ rw e (
        NotAt-insert_ordered x.addr new xs (λ f. n (sym f)) a,
        insert_ordered-IsDistinct new xs more d,
      )
    ]

Step-IsSound : {r r' : RbRoot} → RbStep r r' → IsSound r → IsSound r'
Step-IsSound (insert {r} {r'} new fresh small e) s =
    let (u, runs, fits, list) = rb_insert_node-IsRbRoot r new s.fits small in
    let same : u ≡ r' = cc (runs, e) in
    subst IsSound same (record {
      fits = fits;
      distinct = rw list (insert_ordered-IsDistinct new (to_list r.tree) fresh s.distinct);
      word = omega (
        arith,
        fits.counted,
        ap length list,
        length-insert_ordered new (to_list r.tree),
        s.fits.counted,
      );
    })
Step-IsSound (remove {r} {r'} addr is_at e) s =
    let (u, xs, ys, x, runs, at, list, list', fits, distinct) =
      rb_remove_node-IsRbRoot r addr s.fits s.distinct is_at s.word in
    let same : u ≡ r' = cc (runs, e) in
    subst IsSound same (record {
      fits = fits;
      distinct = distinct;
      word = omega (
        arith,
        fits.counted,
        ap length list,
        ap length list',
        length-append xs ys,
        length-append xs (x ∷ ys),
        s.fits.counted,
        s.word,
      );
    })

-- Whatever sequence of rb_insert_node, of nodes that are not in the tree, and rb_remove_node, of
-- nodes that are, is run from rb_root_init, with fewer than 2^32 nodes, the tree keeps the rules of
-- a red-black tree (a black root, no red node with a red child, equally many black nodes on all ways
-- down) and the order of the values, no node is in it twice, first_node and last_node are the first
-- and the last node (NULL if there is none), and count is the number of nodes.
pub Reach-IsSound : {r : RbRoot} → RbReach r → IsSound r
Reach-IsSound here = record {
  fits = record {
    rules = (refl, 0, refl);
    ordered = tt;
    first = refl;
    last = refl;
    counted = refl;
  };
  distinct = tt;
  word = omega arith;
}
Reach-IsSound (next r st) = Step-IsSound st (Reach-IsSound r)
