-- ===== src/Rbtree/Erase.antt =====
-- `rb_erase_color` and `rb_erase` keep the rules and take out just the one entry.
use cc_rpc.Base.{
  ℕ, suc, ◌≡◌, refl, ap, ◌∙◌, arith, List, [], ◌∷◌, ◌++◌, append_assoc, true, false, ◌⊎◌, inl, inr,
  Outcome, done,
}
use cc_rpc.Rbtree.{
  Color, red, black, RbEntry, RbTree, leaf, node, Frame, from_left, from_right, plug, is_black,
  set_color,
}
use cc_rpc.Rbtree.Order.{to_list}
use cc_rpc.Rbtree.Balance.{
  IsBalanced, HasBlackParent, IsPath, IsRbTree, blacken-IsRbTree, plug-IsRbTree, sibling_left,
  sibling_right,
}
use cc_rpc.Rbtree.Rotate.{plug-list, set_color-list}
use cc_rpc.Rbtree.Remove.{Fixed, moved, settled, finish, rb_erase_color}
use cc_rpc.Rbtree.Fix.{IsFixed, fix_left-Fixes, fix_right-Fixes}

-- A subtree with one black node too few, or a red one that would be right if it were black.
abbrev pub IsShort : ℕ → RbTree → Type 0
IsShort h t =
    ((is_black t ≡ true) × IsBalanced h t)
    ⊎ ((is_black t ≡ false) × IsBalanced (suc h) (set_color black t))

abbrev pub Closes : RbTree → List Frame → Outcome RbTree → Type 0
Closes t fs r = (s : RbTree) × (r ≡ done s) × IsRbTree s × (to_list s ≡ to_list (plug t fs))

black_top :
    (t : RbTree) (l : RbTree) (x : RbEntry) (r : RbTree)
    → t ≡ node red l x r
    → is_black (set_color black t) ≡ true
black_top t l x r e = rw e refl

set_color-black : (t : RbTree) → is_black (set_color black t) ≡ true
set_color-black leaf = refl
set_color-black (node c l x r) = refl

-- A red node is made black, and that is all.
paint :
    (h : ℕ) (t : RbTree) (fs : List Frame)
    → IsBalanced (suc h) (set_color black t)
    → IsPath (suc h) fs
    → Closes t fs (done (plug (set_color black t) fs))
paint h t fs b path = (
  plug (set_color black t) fs,
  refl,
  plug-IsRbTree (suc h) (set_color black t) fs b path (λ k. cc (set_color-black t)),
  plug-list (set_color black t) t fs (set_color-list black t),
)

finish_root :
    (h : ℕ) (s t : RbTree) (fs gs : List Frame)
    → IsBalanced h s
    → IsPath h fs
    → (is_black s ≡ false → HasBlackParent fs)
    → to_list (plug s fs) ≡ to_list (plug t gs)
    → Closes t gs (finish (plug s fs))
finish_root h s t fs gs b path up same =
    let (k, h', b') = plug-IsRbTree h s fs b path up in
    (
      set_color black (plug s fs),
      refl,
      blacken-IsRbTree h' (plug s fs) b',
      set_color-list black (plug s fs) ∙ same,
    )

-- The end of a round, and the rounds that may follow.
abbrev after_round : List Frame → (RbTree → Outcome RbTree) → Fixed → Outcome RbTree
after_round fs up (moved s) = up s
after_round fs up (settled s) = finish (plug s fs)

climb :
    (h : ℕ) (c : Color) (old t : RbTree) (f : Fixed) (fs gs : List Frame)
    (up : RbTree → Outcome RbTree)
    → IsFixed h c old f
    → (c ≡ black → IsPath (suc (suc h)) fs)
    → (c ≡ red → HasBlackParent fs × IsPath (suc h) fs)
    → ((s : RbTree)
        → to_list (plug s fs) ≡ to_list (plug t gs)
        → IsShort (suc h) s
        → IsPath (suc (suc h)) fs
        → Closes t gs (up s))
    → ((s : RbTree)
        → to_list (plug s fs) ≡ to_list (plug t gs)
        → IsShort h s
        → IsPath (suc h) fs
        → Closes t gs (up s))
    → to_list (plug old fs) ≡ to_list (plug t gs)
    → Closes t gs (after_round fs up f)
climb h black old t (moved s) fs gs up (e, k, b) pb pr ihb ihr same =
    ihb s (plug-list s old fs e ∙ same) (inl (k, b)) (pb refl)
climb h red old t (moved s) fs gs up (e, k, b) pb pr ihb ihr same =
    ihr s (plug-list s old fs e ∙ same) (inr (k, b)) (pr refl).1
climb h black old t (settled s) fs gs up (e, k, b) pb pr ihb ihr same =
    finish_root (suc (suc h)) s t fs gs b (pb refl) (λ f. cc) (plug-list s old fs e ∙ same)
climb h red old t (settled s) fs gs up (e, k, b) pb pr ihb ihr same =
    finish_root (suc h) s t fs gs b (pr refl).1 (λ _. (pr refl).0) (plug-list s old fs e ∙ same)

recast :
    (s t : RbTree) (fs gs : List Frame) (r : Outcome RbTree)
    → to_list (plug s fs) ≡ to_list (plug t gs)
    → Closes s fs r
    → Closes t gs r
recast s t fs gs r same (u, runs, rules, e) = (u, runs, rules, e ∙ same)

IsPath-left_black :
    (h : ℕ) (x : RbEntry) (r : RbTree) (fs : List Frame) (c : Color)
    → IsPath h (from_left c x r ∷ fs)
    → (c ≡ black → IsPath (suc h) fs) × (c ≡ red → HasBlackParent fs × IsPath h fs)
IsPath-left_black h x r fs black (_, p) = (λ _. p, λ e. cc)
IsPath-left_black h x r fs red (_, _, top, p) = (λ e. cc, λ _. (top, p))

IsPath-right_black :
    (h : ℕ) (l : RbTree) (x : RbEntry) (fs : List Frame) (c : Color)
    → IsPath h (from_right c l x ∷ fs)
    → (c ≡ black → IsPath (suc h) fs) × (c ≡ red → HasBlackParent fs × IsPath h fs)
IsPath-right_black h l x fs black (_, p) = (λ _. p, λ e. cc)
IsPath-right_black h l x fs red (_, _, top, p) = (λ e. cc, λ _. (top, p))

-- Below a red sibling, whose parent is black: one round, and then a red node to be painted.
red_sibling_left :
    (h : ℕ) (t : RbTree) (c : Color) (x : RbEntry) (ol : RbTree) (y : RbEntry) (or : RbTree)
    (fs : List Frame)
    → IsBalanced h t
    → is_black t ≡ true
    → IsPath (suc h) (from_left c x (node red ol y or) ∷ fs)
    → Closes t
        (from_left c x (node red ol y or) ∷ fs)
        (rb_erase_color t (from_left c x (node red ol y or) ∷ fs))
unfolding rb_erase_color
red_sibling_left h t red x ol y or fs bt kt (b, k, _, _) = cc
red_sibling_left h t black x ol y or fs bt kt ((bl, br, kl, kr), path) =
    let (f, runs, fixed) = fix_left-Fixes h red t x bt kt ol bl kl in
    rw (rb_erase_color, kt, runs) (go f fixed)
  where
    go :
        (f : Fixed)
        → IsFixed h red (node red t x ol) f
        → Closes t (from_left black x (node red ol y or) ∷ fs) (elim f [
          | moved s ↦ done (plug (set_color black s) (from_left black y or ∷ fs))
          | settled s ↦ finish (plug s (from_left black y or ∷ fs))
        ])
    go (moved s) (e, k, b) =
        recast s t (from_left black y or ∷ fs) (from_left black x (node red ol y or) ∷ fs) _
          (plug-list (node black s y or) (node black t x (node red ol y or)) fs
            (ap (λ l. l ++ (y ∷ to_list or)) e ∙ simp append_assoc))
          (paint h s (from_left black y or ∷ fs) b (br, path))
    go (settled s) (e, k, b) =
        finish_root (suc h) s t (from_left black y or ∷ fs)
          (from_left black x (node red ol y or) ∷ fs) b (br, path) (λ _. refl)
          (plug-list (node black s y or) (node black t x (node red ol y or)) fs
            (ap (λ l. l ++ (y ∷ to_list or)) e ∙ simp append_assoc))

red_sibling_right :
    (h : ℕ) (t : RbTree) (c : Color) (ol : RbTree) (y : RbEntry) (or : RbTree) (x : RbEntry)
    (fs : List Frame)
    → IsBalanced h t
    → is_black t ≡ true
    → IsPath (suc h) (from_right c (node red ol y or) x ∷ fs)
    → Closes t
        (from_right c (node red ol y or) x ∷ fs)
        (rb_erase_color t (from_right c (node red ol y or) x ∷ fs))
unfolding rb_erase_color
red_sibling_right h t red ol y or x fs bt kt (b, k, _, _) = cc
red_sibling_right h t black ol y or x fs bt kt ((bl, br, kl, kr), path) =
    let (f, runs, fixed) = fix_right-Fixes h red t x bt kt or br kr in
    rw (rb_erase_color, kt, runs) (go f fixed)
  where
    go :
        (f : Fixed)
        → IsFixed h red (node red or x t) f
        → Closes t (from_right black (node red ol y or) x ∷ fs) (elim f [
          | moved s ↦ done (plug (set_color black s) (from_right black ol y ∷ fs))
          | settled s ↦ finish (plug s (from_right black ol y ∷ fs))
        ])
    go (moved s) (e, k, b) =
        recast s t (from_right black ol y ∷ fs) (from_right black (node red ol y or) x ∷ fs) _
          (plug-list (node black ol y s) (node black (node red ol y or) x t) fs
            (ap (λ l. to_list ol ++ (y ∷ l)) e ∙ simp append_assoc))
          (paint h s (from_right black ol y ∷ fs) b (bl, path))
    go (settled s) (e, k, b) =
        finish_root (suc h) s t (from_right black ol y ∷ fs)
          (from_right black (node red ol y or) x ∷ fs) b (bl, path) (λ _. refl)
          (plug-list (node black ol y s) (node black (node red ol y or) x t) fs
            (ap (λ l. to_list ol ++ (y ∷ l)) e ∙ simp append_assoc))

-- The loop ends with the rules kept, and never reads through NULL.
pub rb_erase_color-Closes :
    (h : ℕ) (t : RbTree) (fs : List Frame)
    → IsShort h t
    → IsPath (suc h) fs
    → Closes t fs (rb_erase_color t fs)
unfolding rb_erase_color
rb_erase_color-Closes h t [] (inl (k, b)) path =
    (set_color black t, refl, blacken-IsRbTree h t b, set_color-list black t)
rb_erase_color-Closes h t [] (inr (k, b)) path =
    (set_color black t, refl, (set_color-black t, suc h, b), set_color-list black t)
rb_erase_color-Closes h t (from_left c x leaf ∷ fs) s path =
    absurd (let e = (sibling_left (suc h) c x leaf fs path).0 in omega arith)
rb_erase_color-Closes h t (from_right c leaf x ∷ fs) s path =
    absurd (let e = (sibling_right (suc h) c leaf x fs path).0 in omega arith)
rb_erase_color-Closes h t (from_left c x (node red ol y or) ∷ fs) (inr (k, b)) path =
    rw (rb_erase_color, k) (paint h t (from_left c x (node red ol y or) ∷ fs) b path)
rb_erase_color-Closes h t (from_left c x (node red ol y or) ∷ fs) (inl (k, b)) path =
    red_sibling_left h t c x ol y or fs b k path
rb_erase_color-Closes h t (from_right c (node red ol y or) x ∷ fs) (inr (k, b)) path =
    rw (rb_erase_color, k) (paint h t (from_right c (node red ol y or) x ∷ fs) b path)
rb_erase_color-Closes h t (from_right c (node red ol y or) x ∷ fs) (inl (k, b)) path =
    red_sibling_right h t c ol y or x fs b k path
rb_erase_color-Closes h t (from_left c x (node black ol y or) ∷ fs) (inr (k, b)) path =
    rw (rb_erase_color, k) (paint h t (from_left c x (node black ol y or) ∷ fs) b path)
rb_erase_color-Closes h t (from_left c x (node black ol y or) ∷ fs) (inl (k, b)) path =
    let (f, runs, fixed) =
      fix_left-Fixes h c t x b k (node black ol y or)
        (sibling_left (suc h) c x (node black ol y or) fs path).0 refl in
    let (pb, pr) = IsPath-left_black (suc h) x (node black ol y or) fs c path in
    let old = node c t x (node black ol y or) in
    let gs = from_left c x (node black ol y or) ∷ fs in
    rw (rb_erase_color, k, runs)
      (climb h c old t f fs gs (λ s. rb_erase_color s fs) fixed pb pr
        (λ s e short p. recast s t fs gs _ e (rb_erase_color-Closes (suc h) s fs short p))
        (λ s e short p. recast s t fs gs _ e (rb_erase_color-Closes h s fs short p)) refl)
rb_erase_color-Closes h t (from_right c (node black ol y or) x ∷ fs) (inr (k, b)) path =
    rw (rb_erase_color, k) (paint h t (from_right c (node black ol y or) x ∷ fs) b path)
rb_erase_color-Closes h t (from_right c (node black ol y or) x ∷ fs) (inl (k, b)) path =
    let (f, runs, fixed) =
      fix_right-Fixes h c t x b k (node black ol y or)
        (sibling_right (suc h) c (node black ol y or) x fs path).0 refl in
    let (pb, pr) = IsPath-right_black (suc h) (node black ol y or) x fs c path in
    let old = node c (node black ol y or) x t in
    let gs = from_right c (node black ol y or) x ∷ fs in
    rw (rb_erase_color, k, runs)
      (climb h c old t f fs gs (λ s. rb_erase_color s fs) fixed pb pr
        (λ s e short p. recast s t fs gs _ e (rb_erase_color-Closes (suc h) s fs short p))
        (λ s e short p. recast s t fs gs _ e (rb_erase_color-Closes h s fs short p)) refl)
