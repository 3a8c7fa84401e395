-- ===== src/Rbtree/Fix.antt =====
-- One round of `rb_erase_color` below a parent whose other child is black.
use cc_rpc.Base.{
  ℕ, suc, ◌≡◌, refl, arith, append_assoc, true, false, Outcome, done, inl, inr, Bool-cases,
}
use cc_rpc.Rbtree.{
  Color, red, black, RbEntry, RbTree, leaf, node, is_black, set_color, rb_rotate_left,
  rb_rotate_right,
}
use cc_rpc.Rbtree.Order.{to_list}
use cc_rpc.Rbtree.Balance.{IsBalanced}
use cc_rpc.Rbtree.Remove.{Fixed, moved, settled, fix_left, fix_right}

-- One black node is missing on the ways through the left or right child of a node of color c. Then
-- it is missing on all ways through the node, or on none.
abbrev pub IsFixed : ℕ → Color → RbTree → Fixed → Type 0
IsFixed h black old (moved s) =
    (to_list s ≡ to_list old) × (is_black s ≡ true) × IsBalanced (suc h) s
IsFixed h red old (moved s) =
    (to_list s ≡ to_list old) × (is_black s ≡ false) × IsBalanced (suc h) (set_color black s)
IsFixed h black old (settled s) =
    (to_list s ≡ to_list old) × (is_black s ≡ true) × IsBalanced (suc (suc h)) s
IsFixed h red old (settled s) =
    (to_list s ≡ to_list old) × (is_black s ≡ false) × IsBalanced (suc h) s

abbrev pub Fixes : ℕ → Color → RbTree → Outcome Fixed → Type 0
Fixes h c old r = (f : Fixed) × (r ≡ done f) × IsFixed h c old f

module _ (h : ℕ) (old : RbTree) where
  settle :
      (c : Color) (a : RbTree) (x : RbEntry) (b : RbTree)
      → to_list (node black a x b) ≡ to_list old
      → IsBalanced (suc h) a
      → IsBalanced (suc h) b
      → is_black a ≡ true
      → is_black b ≡ true
      → IsFixed h c old (settled (node c a x b))
  settle black a x b e ba bb ka kb = (e, refl, (ba, bb))
  settle red a x b e ba bb ka kb = (e, refl, (ba, bb, ka, kb))

  move :
      (c : Color) (a : RbTree) (x : RbEntry) (b : RbTree)
      → to_list (node black a x b) ≡ to_list old
      → IsBalanced h a
      → IsBalanced h b
      → IsFixed h c old (moved (node c a x b))
  move black a x b e ba bb = (e, refl, (ba, bb))
  move red a x b e ba bb = (e, refl, (ba, bb))

module _ (h : ℕ) (c : Color) (t : RbTree) (x : RbEntry) (bt : IsBalanced h t)
    (kt : is_black t ≡ true) where
  left_outer :
      (ol : RbTree) (y : RbEntry) (or : RbTree)
      → IsBalanced h ol
      → IsBalanced h or
      → is_black or ≡ false
      → Fixes h c (node c t x (node black ol y or)) (fix_left c t x (node black ol y or))
  unfolding fix_left rb_rotate_left
  left_outer ol y leaf bl br k = cc
  left_outer ol y (node black a z b) bl br k = cc
  left_outer ol y (node red a z b) bl (ba, bb, ka, kb) k = elim (Bool-cases (is_black ol)) [
    | inl e ↦ (
      settled (node c (node black t x ol) y (node black a z b)),
      rw (e) refl,
      settle h _ c (node black t x ol) y (node black a z b) (simp append_assoc) (bt, bl) (ba, bb)
          refl refl,
    )
    | inr e ↦ (
      settled (node c (node black t x ol) y (node black a z b)),
      rw (e) refl,
      settle h _ c (node black t x ol) y (node black a z b) (simp append_assoc) (bt, bl) (ba, bb)
          refl refl,
    )
  ]

  left_inner :
      (ol : RbTree) (y : RbEntry) (or : RbTree)
      → IsBalanced h ol
      → IsBalanced h or
      → is_black ol ≡ false
      → is_black or ≡ true
      → Fixes h c (node c t x (node black ol y or)) (fix_left c t x (node black ol y or))
  unfolding fix_left rb_rotate_left rb_rotate_right
  left_inner leaf y or bl br k e = cc
  left_inner (node black a z b) y or bl br k e = cc
  left_inner (node red a z b) y or (ba, bb, ka, kb) br k e = (
    settled (node c (node black t x a) z (node black b y or)),
    rw (e) refl,
    settle h _ c (node black t x a) z (node black b y or) (simp append_assoc) (bt, ba) (bb, br) refl
        refl,
  )

  pub fix_left-Fixes :
      (other : RbTree)
      → IsBalanced (suc h) other
      → is_black other ≡ true
      → Fixes h c (node c t x other) (fix_left c t x other)
  unfolding fix_left
  fix_left-Fixes leaf b k = absurd (omega arith)
  fix_left-Fixes (node red ol y or) b k = cc
  fix_left-Fixes (node black ol y or) (bl, br) k = elim (Bool-cases (is_black or)) [
    | inr e ↦ left_outer ol y or bl br e
    | inl e ↦ elim (Bool-cases (is_black ol)) [
      | inr f ↦ left_inner ol y or bl br f e
      | inl f ↦ (
        moved (node c t x (node red ol y or)),
        rw (fix_left, f, e) refl,
        move h _ c t x (node red ol y or) refl bt (bl, br, f, e),
      )
    ]
  ]

  right_outer :
      (ol : RbTree) (y : RbEntry) (or : RbTree)
      → IsBalanced h ol
      → IsBalanced h or
      → is_black ol ≡ false
      → Fixes h c (node c (node black ol y or) x t) (fix_right c (node black ol y or) x t)
  unfolding fix_right rb_rotate_right
  right_outer leaf y or bl br k = cc
  right_outer (node black a z b) y or bl br k = cc
  right_outer (node red a z b) y or (ba, bb, ka, kb) br k = (
    settled (node c (node black a z b) y (node black or x t)),
    refl,
    settle h _ c (node black a z b) y (node black or x t) (simp append_assoc) (ba, bb) (br, bt) refl
        refl,
  )

  right_inner :
      (ol : RbTree) (y : RbEntry) (or : RbTree)
      → IsBalanced h ol
      → IsBalanced h or
      → is_black ol ≡ true
      → is_black or ≡ false
      → Fixes h c (node c (node black ol y or) x t) (fix_right c (node black ol y or) x t)
  unfolding fix_right rb_rotate_left rb_rotate_right
  right_inner ol y leaf bl br k e = cc
  right_inner ol y (node black a z b) bl br k e = cc
  right_inner ol y (node red a z b) bl (ba, bb, ka, kb) k e = (
    settled (node c (node black ol y a) z (node black b x t)),
    rw (k) refl,
    settle h _ c (node black ol y a) z (node black b x t) (simp append_assoc) (bl, ba) (bb, bt) refl
        refl,
  )

  pub fix_right-Fixes :
      (other : RbTree)
      → IsBalanced (suc h) other
      → is_black other ≡ true
      → Fixes h c (node c other x t) (fix_right c other x t)
  unfolding fix_right
  fix_right-Fixes leaf b k = absurd (omega arith)
  fix_right-Fixes (node red ol y or) b k = cc
  fix_right-Fixes (node black ol y or) (bl, br) k = elim (Bool-cases (is_black ol)) [
    | inr e ↦ right_outer ol y or bl br e
    | inl e ↦ elim (Bool-cases (is_black or)) [
      | inr f ↦ right_inner ol y or bl br e f
      | inl f ↦ (
        moved (node c (node red ol y or) x t),
        rw (fix_right, e, f) refl,
        move h _ c (node red ol y or) x t refl (bl, br, e, f) bt,
      )
    ]
  ]
