-- ===== src/Rbtree/Nodes.antt =====
-- `rb_remove_node` on a root that fits its tree.
use cc_rpc.Base.{
  ℕ, ◌+◌, ◌-◌, ◌%◌, ◌^◌, ◌<◌, ◌≡◌, ◌≢◌, refl, sym, ap, ◌∙◌, subst, arith, List, [], ◌∷◌, ◌++◌,
  append_assoc, append-nil, false, Option, none, done, inl, inr, Bool-cases, length, length-append,
  ltb, ltb→le, Option-cases, ◌==◌, ==_iff, if◌then◌else◌,
}
use cc_rpc.Rbtree.{RbEntry, node, RbRoot, rb_next, rb_prev}
use cc_rpc.Rbtree.Order.{to_list, to_list-plug, Above, IsOrdered, before, after}
use cc_rpc.Rbtree.Query.{head?, last?, last?-append, rb_next_lem, rb_prev_lem}
use cc_rpc.Rbtree.Balance.{IsRbTree}
use cc_rpc.Rbtree.Root.{IsRbRoot}
use cc_rpc.Rbtree.Remove.{Location, locate, is_at, rb_remove_node}
use cc_rpc.Rbtree.Gap.{rb_erase_lem}
use cc_rpc.Rbtree.Locate.{Found, IsAt, IsDistinct, NotAt, locate-Found, not_both}

-- An entry between two lists taken out.
drop_mid :
    (v : ℕ) (xs : List RbEntry) (x : RbEntry) (ys : List RbEntry)
    → Above v (xs ++ (x ∷ ys))
    → Above v (xs ++ ys)
drop_mid v [] x ys (a, more) = more
drop_mid v (w ∷ xs) x ys (a, more) = (a, drop_mid v xs x ys more)

IsOrdered-drop :
    (xs : List RbEntry) (x : RbEntry) (ys : List RbEntry)
    → IsOrdered (xs ++ (x ∷ ys))
    → IsOrdered (xs ++ ys)
IsOrdered-drop [] x ys (a, o) = o
IsOrdered-drop (w ∷ xs) x ys (a, o) = (drop_mid w.value xs x ys a, IsOrdered-drop xs x ys o)

NotAt-drop :
    (addr : ℕ) (xs : List RbEntry) (x : RbEntry) (ys : List RbEntry)
    → NotAt addr (xs ++ (x ∷ ys))
    → NotAt addr (xs ++ ys) × (x.addr ≢ addr)
NotAt-drop addr [] x ys (a, more) = (more, a)
NotAt-drop addr (w ∷ xs) x ys (a, more) =
    let (rest, n) = NotAt-drop addr xs x ys more in ((a, rest), n)

IsDistinct-drop :
    (xs : List RbEntry) (x : RbEntry) (ys : List RbEntry)
    → IsDistinct (xs ++ (x ∷ ys))
    → IsDistinct (xs ++ ys) × NotAt x.addr (xs ++ ys)
IsDistinct-drop [] x ys (a, d) = (d, a)
IsDistinct-drop (w ∷ xs) x ys (a, d) =
    let (rest, n) = IsDistinct-drop xs x ys d in
    let (a', n') = NotAt-drop w.addr xs x ys a in ((a', rest), (λ e. n' (sym e), n))

first_after :
    (xs : List RbEntry) (x : RbEntry) (ys : List RbEntry)
    → NotAt x.addr (xs ++ ys)
    → (if is_at (head? (xs ++ (x ∷ ys))) x.addr then head? ys else head? (xs ++ (x ∷ ys)))
      ≡ head? (xs ++ ys)
first_after [] x ys n = rw ((==_iff x.addr x.addr).1 refl) refl
first_after (w ∷ xs) x ys (n, _) = let e : (w.addr == x.addr) ≡ false = ground arith in rw e refl

last-NotAt :
    (addr : ℕ) (w : RbEntry) (ys : List RbEntry)
    → NotAt addr (w ∷ ys)
    → is_at (last? (w ∷ ys)) addr ≡ false
last-NotAt addr w [] (n, _) = ground arith
last-NotAt addr w (v ∷ ys) (n, more) = last-NotAt addr v ys more

NotAt-back : (addr : ℕ) (xs ys : List RbEntry) → NotAt addr (xs ++ ys) → NotAt addr ys
NotAt-back addr [] ys n = n
NotAt-back addr (x ∷ xs) ys (n, more) = NotAt-back addr xs ys more

last_after :
    (xs : List RbEntry) (x : RbEntry) (ys : List RbEntry)
    → NotAt x.addr (xs ++ ys)
    → (if is_at (last? (xs ++ (x ∷ ys))) x.addr then last? xs else last? (xs ++ (x ∷ ys)))
      ≡ last? (xs ++ ys)
last_after xs x [] n =
    rw (last?-append xs x [], (==_iff x.addr x.addr).1 refl) (ap last? (sym (append-nil xs)))
last_after xs x (w ∷ ys) n =
    rw (last?-append xs x (w ∷ ys), last-NotAt x.addr w ys (NotAt-back x.addr xs (w ∷ ys) n))
      (sym (last?-append xs w ys))

-- The ends of a list with at most one entry.
alone :
    (xs : List RbEntry) (x : RbEntry) (ys : List RbEntry) (n : ℕ)
    → n ≡ length (xs ++ (x ∷ ys))
    → ltb 1 n ≡ false
    → xs ++ ys ≡ []
alone [] x [] n e h = refl
alone [] x (y ∷ ys) n e h = absurd (omega (arith, ltb→le 1 n h))
alone (w ∷ xs) x ys n e h = absurd (omega (arith, ltb→le 1 n h, length-append xs (x ∷ ys)))

-- The new ends, as the code finds them.
abbrev first_of : RbRoot → Location → ℕ → Option RbEntry
first_of root p addr =
    if ltb 1 root.count
    then (if is_at root.first_node addr then rb_next p.right p.path else root.first_node)
    else none

abbrev last_of : RbRoot → Location → ℕ → Option RbEntry
last_of root p addr =
    if ltb 1 root.count
    then (if is_at root.last_node addr then rb_prev p.left p.path else root.last_node)
    else none

module _ (root : RbRoot) (p : Location) (v : IsRbRoot root)
    (list : to_list root.tree
      ≡ (before p.path ++ to_list p.left) ++ (p.entry ∷ (to_list p.right ++ after p.path)))
    (gone : NotAt p.entry.addr
      ((before p.path ++ to_list p.left) ++ (to_list p.right ++ after p.path))) where
  abbrev front : List RbEntry
  front = before p.path ++ to_list p.left

  abbrev back : List RbEntry
  back = to_list p.right ++ after p.path

  first_right : first_of root p p.entry.addr ≡ head? (front ++ back)
  first_right = elim (Bool-cases (ltb 1 root.count)) [
    | inl e ↦
        rw (e, v.first, list, rb_next_lem p.right p.path) (first_after front p.entry back gone)
    | inr e ↦
        rw e (ap head? (sym (alone front p.entry back root.count (v.counted ∙ ap length list) e)))
  ]

  last_right : last_of root p p.entry.addr ≡ last? (front ++ back)
  last_right = elim (Bool-cases (ltb 1 root.count)) [
    | inl e ↦ rw (e, v.last, list, rb_prev_lem p.left p.path) (last_after front p.entry back gone)
    | inr e ↦
        rw e (ap last? (sym (alone front p.entry back root.count (v.counted ∙ ap length list) e)))
  ]

  count_right : root.count < 2 ^ 32 → (root.count + 2 ^ 32 - 1) % 2 ^ 32 ≡ length (front ++ back)
  count_right h = omega (
    arith,
    v.counted,
    ap length list,
    length-append front (p.entry ∷ back),
    length-append front back,
  )

-- In a root that fits its tree, with no node in it twice, rb_remove_node of a node that is there
-- ends with no access through NULL, and takes out just that node: the others stay in their order,
-- the tree keeps its rules, and first_node, last_node and count fit it.
pub rb_remove_node-IsRbRoot :
    (root : RbRoot) (addr : ℕ)
    → IsRbRoot root
    → IsDistinct (to_list root.tree)
    → IsAt addr (to_list root.tree)
    → root.count < 2 ^ 32
    → (root' : RbRoot) × (xs ys : List RbEntry) × (x : RbEntry) × (rb_remove_node root addr
        ≡ done root')
      × (x.addr ≡ addr)
      × (to_list root.tree ≡ xs ++ (x ∷ ys))
      × (to_list root'.tree ≡ xs ++ ys)
      × IsRbRoot root'
      × IsDistinct (to_list root'.tree)
unfolding rb_remove_node
rb_remove_node-IsRbRoot root addr v distinct here word =
    elim (Option-cases (locate addr root.tree [])) [
      | inl e ↦ absurd (
          not_both addr (to_list root.tree)
            (subst (Found addr root.tree []) e (locate-Found addr root.tree [])) here)
      | inr (p, e) ↦
          let (at, whole) = subst (Found addr root.tree []) e (locate-Found addr root.tree []) in
          let xs = before p.path ++ to_list p.left in
          let ys = to_list p.right ++ after p.path in
          let list : to_list root.tree ≡ xs ++ (p.entry ∷ ys) =
            ap to_list (sym whole)
            ∙ (to_list-plug (node p.color p.left p.entry p.right) p.path ∙ simp append_assoc) in
          let (still, gone) = IsDistinct-drop xs p.entry ys (subst IsDistinct list distinct) in
          let (s, runs, rules, same) =
            rb_erase_lem p.color p.left p.entry p.right p.path
              (subst IsRbTree (sym whole) v.rules) in
          (
            record {
              tree = s;
              first_node = first_of root p addr;
              last_node = last_of root p addr;
              count = (root.count + 2 ^ 32 - 1) % 2 ^ 32;
            },
            xs,
            ys,
            p.entry,
            rw (rb_remove_node, e, runs) refl,
            at,
            list,
            same,
            record {
              rules = rules;
              ordered = rw same (IsOrdered-drop xs p.entry ys (subst IsOrdered list v.ordered));
              first = rw (same, ← at) (first_right root p v list gone);
              last = rw (same, ← at) (last_right root p v list gone);
              counted = rw same (count_right root p v list gone word);
            },
            rw same still,
          )
    ]
