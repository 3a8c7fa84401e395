-- ===== src/Rbtree/Query.antt =====
-- The ends of a list of entries, the greater entries, and the walks to the neighbours.
use cc_rpc.Base.{
  ℕ, ◌≡◌, refl, sym, ap, ◌∙◌, List, [], ◌∷◌, ◌++◌, append-nil, append_assoc, true, Option, none,
  some, ltb, ltb→le, le→ltb, if◌then◌else◌, Bool-cases, inl, inr,
}
use cc_rpc.Rbtree.{
  Color, RbEntry, RbTree, leaf, node, Frame, from_left, from_right, plug, rb_first, rb_last,
  climb_next, climb_prev, rb_next, rb_prev, first_greater_loop, rb_first_greater,
}
use cc_rpc.Rbtree.Order.{
  to_list, before, after, Below, IsOrdered, to_list-plug, split-IsOrdered, Below-weaken,
}

abbrev pub head? : List RbEntry → Option RbEntry
head? [] = none
head? (x ∷ xs) = some x

abbrev pub last? : List RbEntry → Option RbEntry
last? [] = none
last? (x ∷ []) = some x
last? (x ∷ (y ∷ xs)) = last? (y ∷ xs)

-- The first entry of a list that is greater.
abbrev pub first_greater : ℕ → List RbEntry → Option RbEntry
first_greater key [] = none
first_greater key (x ∷ xs) =
    let rest = first_greater key xs in if ltb key x.value then some x else rest

abbrev pub or_else : Option RbEntry → Option RbEntry → Option RbEntry
or_else none c = c
or_else (some x) c = some x

pub first_greater_left :
    (key : ℕ) (xs : List RbEntry) (x : RbEntry) (ys : List RbEntry)
    → ltb key x.value ≡ true
    → first_greater key (xs ++ (x ∷ ys)) ≡ or_else (first_greater key xs) (some x)
first_greater_left key [] x ys e = rw e refl
first_greater_left key (w ∷ xs) x ys e = elim (Bool-cases (ltb key w.value)) [
  | inl f ↦ rw f refl
  | inr f ↦ rw f (first_greater_left key xs x ys e)
]

pub first_greater_right :
    (key : ℕ) (xs ys : List RbEntry)
    → Below key xs
    → first_greater key (xs ++ ys) ≡ first_greater key ys
first_greater_right key [] ys b = refl
first_greater_right key (w ∷ xs) ys (b, bs) =
    rw (le→ltb key w.value b) (first_greater_right key xs ys bs)

pub or_else-none : (a : Option RbEntry) → or_else a none ≡ a
or_else-none none = refl
or_else-none (some x) = refl

pub or_else_assoc : (a b c : Option RbEntry) → or_else (or_else a b) c ≡ or_else a (or_else b c)
or_else_assoc none b c = refl
or_else_assoc (some x) b c = refl

pub first_greater_loop_lem :
    (key : ℕ) (t : RbTree) (c : Option RbEntry)
    → IsOrdered (to_list t)
    → first_greater_loop key t c ≡ or_else (first_greater key (to_list t)) c
unfolding first_greater_loop
first_greater_loop_lem key leaf c o = refl
first_greater_loop_lem key (node k l x r) c o =
    let (ol, bl, ar, os) = split-IsOrdered (to_list l) x (to_list r) o in
    elim (Bool-cases (ltb key x.value)) [
      | inl e ↦
          rw (first_greater_loop, e)
            (first_greater_loop_lem key l (some x) ol
              ∙ rw (first_greater_left key (to_list l) x (to_list r) e)
                  (sym (or_else_assoc _ (some x) c)))
      | inr e ↦
          let below = Below-weaken x.value key (to_list l) (ltb→le _ _ e) bl in
          rw (first_greater_loop, e)
            (first_greater_loop_lem key r c os
              ∙ rw (first_greater_right key (to_list l) (x ∷ to_list r) below, e) refl)
    ]

-- On an ordered tree rb_first_greater finds the first of all nodes in order whose value is greater
-- than the key, and NULL if there is none.
pub rb_first_greater_lem :
    (t : RbTree) (key : ℕ)
    → IsOrdered (to_list t)
    → rb_first_greater t key ≡ first_greater key (to_list t)
unfolding rb_first_greater
rb_first_greater_lem t key o = first_greater_loop_lem key t none o ∙ or_else-none _

pub head?-append :
    (xs : List RbEntry) (x : RbEntry) (ys zs : List RbEntry)
    → head? ((xs ++ (x ∷ ys)) ++ zs) ≡ head? (xs ++ (x ∷ ys))
head?-append [] x ys zs = refl
head?-append (w ∷ xs) x ys zs = refl

pub last?-append :
    (xs : List RbEntry) (x : RbEntry) (ys : List RbEntry) → last? (xs ++ (x ∷ ys)) ≡ last? (x ∷ ys)
last?-append [] x ys = refl
last?-append (w ∷ []) x ys = refl
last?-append (w ∷ (v ∷ xs)) x ys = last?-append (v ∷ xs) x ys

pub rb_first_lem : (t : RbTree) → rb_first t ≡ head? (to_list t)
unfolding rb_first
rb_first_lem leaf = refl
rb_first_lem (node c leaf x r) = refl
rb_first_lem (node c (node d l y m) x r) =
    rb_first_lem (node d l y m) ∙ sym (head?-append (to_list l) y (to_list m) (x ∷ to_list r))

pub rb_last_lem : (t : RbTree) → rb_last t ≡ last? (to_list t)
unfolding rb_last
rb_last_lem leaf = refl
rb_last_lem (node c l x leaf) = sym (last?-append (to_list l) x [])
rb_last_lem (node c l x (node d m y r)) =
    rb_last_lem (node d m y r)
    ∙ sym (
        last?-append (to_list l) x (to_list m ++ (y ∷ to_list r))
        ∙ last?-append (x ∷ to_list m) y (to_list r)
        ∙ sym (last?-append (to_list m) y (to_list r)))

-- The walk down the left or right side ends at the first or last entry.
pub rb_first_last :
    (t : RbTree) → (rb_first t ≡ head? (to_list t)) × (rb_last t ≡ last? (to_list t))
rb_first_last t = (rb_first_lem t, rb_last_lem t)

pub climb_next_lem : (fs : List Frame) → climb_next fs ≡ head? (after fs)
unfolding climb_next
climb_next_lem [] = refl
climb_next_lem (from_left c x r ∷ fs) = refl
climb_next_lem (from_right c l x ∷ fs) = climb_next_lem fs

pub climb_prev_lem : (fs : List Frame) → climb_prev fs ≡ last? (before fs)
unfolding climb_prev
climb_prev_lem [] = refl
climb_prev_lem (from_left c x r ∷ fs) = climb_prev_lem fs
climb_prev_lem (from_right c l x ∷ fs) = sym (
    ap last? (sym (append_assoc (before fs) (to_list l) (x ∷ [])))
    ∙ last?-append (before fs ++ to_list l) x [])

pub rb_next_lem : (r : RbTree) (fs : List Frame) → rb_next r fs ≡ head? (to_list r ++ after fs)
unfolding rb_next
rb_next_lem leaf fs = climb_next_lem fs
rb_next_lem (node c l x r) fs =
    rb_first_lem (node c l x r) ∙ sym (head?-append (to_list l) x (to_list r) (after fs))

pub rb_prev_lem : (l : RbTree) (fs : List Frame) → rb_prev l fs ≡ last? (before fs ++ to_list l)
unfolding rb_prev
rb_prev_lem leaf fs = climb_prev_lem fs ∙ ap last? (sym (append-nil (before fs)))
rb_prev_lem (node c l x r) fs =
    rb_last_lem (node c l x r)
    ∙ (last?-append (to_list l) x (to_list r)
        ∙ sym (
            ap last? (sym (append_assoc (before fs) (to_list l) (x ∷ to_list r)))
            ∙ last?-append (before fs ++ to_list l) x (to_list r)))

-- At any node of any tree rb_next finds the node that follows it in the order of the whole tree, and
-- rb_prev the one before it, NULL at the ends.
pub rb_next_prev :
    (c : Color) (l : RbTree) (x : RbEntry) (r : RbTree) (fs : List Frame)
    → (xs ys : List RbEntry) × (to_list (plug (node c l x r) fs) ≡ xs ++ (x ∷ ys))
      × (rb_prev l fs ≡ last? xs)
      × (rb_next r fs ≡ head? ys)
rb_next_prev c l x r fs = (
  before fs ++ to_list l,
  to_list r ++ after fs,
  to_list-plug (node c l x r) fs ∙ simp append_assoc,
  rb_prev_lem l fs,
  rb_next_lem r fs,
)
