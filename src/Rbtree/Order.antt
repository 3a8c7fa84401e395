-- ===== src/Rbtree/Order.antt =====
-- The entries of a tree in their order, and where `rb_insert_node` puts a new one.
use cc_rpc.Base.{
  ℕ, ◌≤◌, ◌≡◌, refl, sym, ap, ◌∙◌, arith, List, [], ◌∷◌, ◌++◌, append-nil, append_assoc, true,
  false, ltb, ltb→le, le→ltb, if◌then◌else◌, Bool-cases, inl, inr, All,
}
use cc_rpc.Rbtree.{RbEntry, RbTree, leaf, node, Frame, from_left, from_right, plug, find_link}

abbrev pub to_list : RbTree → List RbEntry
to_list leaf = []
to_list (node c l x r) = to_list l ++ (x ∷ to_list r)

-- The entries left and right of the place that a way up leads from.
abbrev pub before : List Frame → List RbEntry
before [] = []
before (from_left c x r ∷ fs) = before fs
before (from_right c l x ∷ fs) = before fs ++ (to_list l ++ (x ∷ []))

abbrev pub after : List Frame → List RbEntry
after [] = []
after (from_left c x r ∷ fs) = x ∷ (to_list r ++ after fs)
after (from_right c l x ∷ fs) = after fs

abbrev pub Above : ℕ → List RbEntry → Type 0
Above v xs = All (λ y. v ≤ y.value) xs

abbrev pub Below : ℕ → List RbEntry → Type 0
Below v xs = All (λ y. y.value ≤ v) xs

-- By value, from small to large.
abbrev pub IsOrdered : List RbEntry → Type 0
IsOrdered [] = Unit {0}
IsOrdered (x ∷ xs) = Above x.value xs × IsOrdered xs

-- Behind all entries that are not greater.
abbrev pub insert_ordered : RbEntry → List RbEntry → List RbEntry
insert_ordered new [] = new ∷ []
insert_ordered new (x ∷ xs) =
    let rest = insert_ordered new xs in if ltb new.value x.value then new ∷ x ∷ xs else x ∷ rest

pub to_list-plug :
    (t : RbTree) (fs : List Frame) → to_list (plug t fs) ≡ before fs ++ (to_list t ++ after fs)
to_list-plug t [] = sym (append-nil (to_list t))
to_list-plug t (from_left c x r ∷ fs) = to_list-plug (node c t x r) fs ∙ simp append_assoc
to_list-plug t (from_right c l x ∷ fs) = to_list-plug (node c l x t) fs ∙ simp append_assoc

Above-split :
    (v : ℕ) (xs : List RbEntry) (x : RbEntry) (ys : List RbEntry)
    → Above v (xs ++ (x ∷ ys))
    → Above v xs × (v ≤ x.value) × Above v ys
Above-split v [] x ys (a, more) = (tt, a, more)
Above-split v (w ∷ xs) x ys (a, more) =
    let (axs, ax, ays) = Above-split v xs x ys more in ((a, axs), ax, ays)

-- An ordered list around one entry.
pub split-IsOrdered :
    (xs : List RbEntry) (x : RbEntry) (ys : List RbEntry)
    → IsOrdered (xs ++ (x ∷ ys))
    → IsOrdered xs × Below x.value xs × Above x.value ys × IsOrdered ys
split-IsOrdered [] x ys (a, o) = (tt, tt, a, o)
split-IsOrdered (w ∷ xs) x ys (a, o) =
    let (oxs, b, above, oys) = split-IsOrdered xs x ys o in
    let (axs, ax, ays) = Above-split w.value xs x ys a in ((axs, oxs), (ax, b), above, oys)

pub Below-weaken : (v w : ℕ) (xs : List RbEntry) → v ≤ w → Below v xs → Below w xs
Below-weaken v w [] h b = tt
Below-weaken v w (x ∷ xs) h (b, bs) = (omega arith, Below-weaken v w xs h bs)

insert_ordered_left :
    (new : RbEntry) (xs : List RbEntry) (x : RbEntry) (ys : List RbEntry)
    → ltb new.value x.value ≡ true
    → insert_ordered new (xs ++ (x ∷ ys)) ≡ insert_ordered new xs ++ (x ∷ ys)
insert_ordered_left new [] x ys h = rw h refl
insert_ordered_left new (w ∷ xs) x ys h = elim (Bool-cases (ltb new.value w.value)) [
  | inl e ↦ rw e refl
  | inr e ↦ rw e (ap (λ t. w ∷ t) (insert_ordered_left new xs x ys h))
]

insert_ordered_right :
    (new : RbEntry) (xs : List RbEntry) (x : RbEntry) (ys : List RbEntry)
    → Below new.value xs
    → ltb new.value x.value ≡ false
    → insert_ordered new (xs ++ (x ∷ ys)) ≡ xs ++ (x ∷ insert_ordered new ys)
insert_ordered_right new [] x ys b h = rw h refl
insert_ordered_right new (w ∷ xs) x ys (b, bs) h =
    rw (le→ltb new.value w.value b) (ap (λ t. w ∷ t) (insert_ordered_right new xs x ys bs h))

pub find_link_lem :
    (new : RbEntry) (t : RbTree) (fs : List Frame)
    → IsOrdered (to_list t)
    → before (find_link new t fs) ++ (new ∷ after (find_link new t fs))
      ≡ before fs ++ (insert_ordered new (to_list t) ++ after fs)
unfolding find_link
find_link_lem new leaf fs o = refl
find_link_lem new (node c l x r) fs o =
    let (ol, bl, ar, or) = split-IsOrdered (to_list l) x (to_list r) o in
    elim (Bool-cases (ltb new.value x.value)) [
      | inl e ↦
          rw (find_link, e)
            (find_link_lem new l (from_left c x r ∷ fs) ol
              ∙ rw (insert_ordered_left new (to_list l) x (to_list r) e) (simp append_assoc))
      | inr e ↦
          let b = Below-weaken x.value new.value (to_list l) (ltb→le _ _ e) bl in
          rw (find_link, e)
            (find_link_lem new r (from_right c l x ∷ fs) or
              ∙ rw (insert_ordered_right new (to_list l) x (to_list r) b e) (simp append_assoc))
    ]
