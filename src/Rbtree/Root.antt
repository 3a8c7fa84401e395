-- ===== src/Rbtree/Root.antt =====
-- A root that fits its tree, and `rb_insert_node` on it.
use cc_rpc.Base.{
  ℕ, zero, suc, ◌+◌, ◌^◌, ◌%◌, ◌≤◌, ◌<◌, ◌≡◌, refl, sym, ◌∙◌, subst, arith, List, [], ◌∷◌,
  append-nil, true, false, some, done, inl, inr, Bool-cases, length, ltb, ltb→lt, ltb→le, lt→ltb,
  ◌==◌, if◌then◌else◌,
}
use cc_rpc.Rbtree.{
  red, black, RbEntry, RbTree, leaf, node, Frame, from_left, from_right, RbRoot, is_black,
  set_color, rb_insert_color, find_link, rb_link_node, insert_ends, rb_insert_node,
}
use cc_rpc.Rbtree.Order.{to_list, to_list-plug, Above, IsOrdered, insert_ordered, find_link_lem}
use cc_rpc.Rbtree.Query.{head?, last?}
use cc_rpc.Rbtree.Balance.{IsBalanced, HasBlackParent, IsPath, IsRbTree, blacken-IsRbTree}
use cc_rpc.Rbtree.Insert.{insert_color_loop-Recolored}
use cc_rpc.Rbtree.Rotate.{set_color-list}

pub record IsRbRoot (root : RbRoot) : Type 0 where
  pub rules : IsRbTree root.tree
  pub ordered : IsOrdered (to_list root.tree)
  pub first : root.first_node ≡ head? (to_list root.tree)
  pub last : root.last_node ≡ last? (to_list root.tree)
  pub counted : root.count ≡ length (to_list root.tree)

-- The link that the walk ends at is a NULL under the rules.
pub find_link-IsPath :
    (new : RbEntry) (t : RbTree) (h : ℕ) (fs : List Frame)
    → IsBalanced h t
    → IsPath h fs
    → (is_black t ≡ false → HasBlackParent fs)
    → IsPath 0 (find_link new t fs)
unfolding find_link
find_link-IsPath new leaf h fs b path up = subst (λ k. IsPath k fs) b path
find_link-IsPath new (node red l x r) h fs (bl, br, kl, kr) path up =
    elim (Bool-cases (ltb new.value x.value)) [
      | inl e ↦
          rw (find_link, e)
            (find_link-IsPath new l h (from_left red x r ∷ fs) bl (br, kr, up refl, path) (λ k. cc))
      | inr e ↦
          rw (find_link, e)
            (find_link-IsPath new r h (from_right red l x ∷ fs) br (bl, kl, up refl, path)
              (λ k. cc))
    ]
find_link-IsPath new (node black l x r) zero fs b path up = absurd b
find_link-IsPath new (node black l x r) (suc h) fs (bl, br) path up =
    elim (Bool-cases (ltb new.value x.value)) [
      | inl e ↦
          rw (find_link, e)
            (find_link-IsPath new l h (from_left black x r ∷ fs) bl (br, path) (λ k. refl))
      | inr e ↦
          rw (find_link, e)
            (find_link-IsPath new r h (from_right black l x ∷ fs) br (bl, path) (λ k. refl))
    ]

Above-insert_ordered :
    (v : ℕ) (new : RbEntry) (xs : List RbEntry)
    → v ≤ new.value
    → Above v xs
    → Above v (insert_ordered new xs)
Above-insert_ordered v new [] h a = (h, tt)
Above-insert_ordered v new (x ∷ xs) h (a, more) = elim (Bool-cases (ltb new.value x.value)) [
  | inl e ↦ rw e (h, (a, more))
  | inr e ↦ rw e (a, Above-insert_ordered v new xs h more)
]

Above-weaken : (v w : ℕ) (xs : List RbEntry) → w ≤ v → Above v xs → Above w xs
Above-weaken v w [] h a = tt
Above-weaken v w (x ∷ xs) h (a, more) = (omega arith, Above-weaken v w xs h more)

insert_ordered-IsOrdered :
    (new : RbEntry) (xs : List RbEntry) → IsOrdered xs → IsOrdered (insert_ordered new xs)
insert_ordered-IsOrdered new [] o = (tt, tt)
insert_ordered-IsOrdered new (x ∷ xs) (a, o) = elim (Bool-cases (ltb new.value x.value)) [
  | inl e ↦
      let less : new.value < x.value = ltb→lt _ _ e in
      rw e ((omega arith, Above-weaken x.value new.value xs (omega arith) a), (a, o))
  | inr e ↦
      rw e (Above-insert_ordered x.value new xs (ltb→le _ _ e) a, insert_ordered-IsOrdered new xs o)
]

pub length-insert_ordered :
    (new : RbEntry) (xs : List RbEntry) → length (insert_ordered new xs) ≡ suc (length xs)
length-insert_ordered new [] = refl
length-insert_ordered new (x ∷ xs) = ground (arith, length-insert_ordered new xs)

head?-insert_ordered :
    (new x : RbEntry) (xs : List RbEntry)
    → head? (insert_ordered new (x ∷ xs)) ≡ some (if ltb new.value x.value then new else x)
head?-insert_ordered new x xs = ground arith

last_of : (x : RbEntry) (xs : List RbEntry) → (z : RbEntry) × (last? (x ∷ xs) ≡ some z)
last_of x [] = (x, refl)
last_of x (w ∷ xs) = last_of w xs

-- The new last entry, from the last one of an ordered list.
last?-insert_ordered :
    (new x last : RbEntry) (xs : List RbEntry)
    → IsOrdered (x ∷ xs)
    → last? (x ∷ xs) ≡ some last
    → (last? (insert_ordered new (x ∷ xs)) ≡ some (if ltb new.value last.value then last else new))
      × (x.value ≤ last.value)
last?-insert_ordered new x last [] o e =
    let same : x ≡ last = cc in
    rw (← same) (elim (Bool-cases (ltb new.value x.value)) [
      | inl e ↦ rw e (refl, omega arith)
      | inr e ↦ rw e (refl, omega arith)
    ])
last?-insert_ordered new x last (w ∷ xs) ((xw, a), o) e =
    let (ih, le) = last?-insert_ordered new w last xs o e in
    elim (Bool-cases (ltb new.value x.value)) [
      | inl k ↦
          let small : ltb new.value last.value ≡ true = lt→ltb _ _ (omega (arith, ltb→lt, k)) in
          rw (k, small) (e, omega arith)
      | inr k ↦ elim (Bool-cases (ltb new.value w.value)) [
        | inl m ↦
            let small : ltb new.value last.value ≡ true = lt→ltb _ _ (omega (arith, ltb→lt, m)) in
            rw (k, m, small) (e, omega arith)
        | inr m ↦ (rw (k, m) (rw m at ih), omega arith)
      ]
    ]

insert_ends_lem :
    (root : RbRoot) (new : RbEntry) (xs : List RbEntry)
    → IsOrdered xs
    → root.first_node ≡ head? xs
    → root.last_node ≡ last? xs
    → root.count ≡ length xs
    → (ends : RbEntry × RbEntry) × (insert_ends root new ≡ done ends)
      × (some ends.0 ≡ head? (insert_ordered new xs))
      × (some ends.1 ≡ last? (insert_ordered new xs))
unfolding insert_ends
insert_ends_lem root new [] o first last count = ((new, new), rw count refl, refl, refl)
insert_ends_lem root new (x ∷ xs) o first last count =
    let (z, e) = last_of x xs in
    let (l, _) = last?-insert_ordered new x z xs o e in
    let some_nodes : (suc (length xs) == 0) ≡ false = ground arith in
    (
      (if ltb new.value x.value then new else x, if ltb new.value z.value then z else new),
      rw (count, first, last, e, some_nodes) refl,
      sym (head?-insert_ordered new x xs),
      sym l,
    )

-- In a root that fits its tree, with count below 2^32 - 1, rb_insert_node ends with no access
-- through NULL, and puts the new node behind all nodes whose value is not greater and in front of
-- the others; the tree keeps its rules and order, and first_node, last_node and count fit it.
pub rb_insert_node-IsRbRoot :
    (root : RbRoot) (new : RbEntry)
    → IsRbRoot root
    → root.count + 1 < 2 ^ 32
    → (root' : RbRoot) × (rb_insert_node root new ≡ done root')
      × IsRbRoot root'
      × (to_list root'.tree ≡ insert_ordered new (to_list root.tree))
unfolding rb_insert_node rb_insert_color
rb_insert_node-IsRbRoot root new v small =
    let (ends, ends_run, first, last) =
      insert_ends_lem root new (to_list root.tree) v.ordered v.first v.last v.counted in
    let (top, h, bal) = v.rules in
    let fs = find_link new root.tree [] in
    let path = find_link-IsPath new root.tree h [] bal tt (λ k. cc) in
    let (t, runs, (h', b), same) =
      insert_color_loop-Recolored 0 leaf new leaf fs (refl, refl, refl, refl) path in
    let list : to_list (set_color black t) ≡ insert_ordered new (to_list root.tree) =
      set_color-list black t
      ∙ (same
          ∙ (to_list-plug (rb_link_node new) fs
              ∙ (find_link_lem new root.tree [] v.ordered ∙ append-nil _))) in
    let count : (root.count + 1) % 2 ^ 32 ≡ root.count + 1 = omega arith in
    (
      record {
        tree = set_color black t;
        first_node = some ends.0;
        last_node = some ends.1;
        count = root.count + 1;
      },
      rw (ends_run, rb_insert_color, runs, count) refl,
      record {
        rules = blacken-IsRbTree h' t b;
        ordered = rw list (insert_ordered-IsOrdered new (to_list root.tree) v.ordered);
        first = rw list first;
        last = rw list last;
        counted = rw list (omega (arith, length-insert_ordered new (to_list root.tree), v.counted));
      },
      list,
    )
