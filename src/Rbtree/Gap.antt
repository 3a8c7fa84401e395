-- ===== src/Rbtree/Gap.antt =====
-- `rb_erase`: the node, or the successor that takes its place, leaves a gap that is closed.
use cc_rpc.Base.{
  ℕ, zero, suc, ◌≡◌, refl, ap, ◌∙◌, List, [], ◌∷◌, ◌++◌, append_assoc, append-nil, true, false, inl,
  inr, done,
}
use cc_rpc.Rbtree.{
  Color, red, black, RbEntry, RbTree, leaf, node, Frame, from_left, from_right, fill, plug,
  is_black,
}
use cc_rpc.Rbtree.Order.{to_list, before, after, to_list-plug}
use cc_rpc.Rbtree.Balance.{IsBalanced, HasBlackParent, IsPath, IsRbTree, plug-IsRbTree}
use cc_rpc.Rbtree.Remove.{close_gap, leftmost, rb_erase}
use cc_rpc.Rbtree.Erase.{IsShort, Closes, rb_erase_color-Closes}

IsShort-of : (h : ℕ) (t : RbTree) → IsBalanced h t → IsShort h t
IsShort-of h leaf b = inl (refl, b)
IsShort-of h (node red l x r) (bl, br, _, _) = inr (refl, (bl, br))
IsShort-of h (node black l x r) b = inl (refl, b)

-- A node of color c is gone, and its only child stands in its place.
abbrev IsGap : ℕ → Color → RbTree → List Frame → Type 0
IsGap h red child fs = IsBalanced h child × (is_black child ≡ true) × IsPath h fs
IsGap h black child fs = IsBalanced h child × IsPath (suc h) fs

close_gap-Closes :
    (h : ℕ) (c : Color) (child : RbTree) (fs : List Frame)
    → IsGap h c child fs
    → Closes child fs (close_gap c child fs)
unfolding close_gap
close_gap-Closes h red child fs (b, k, path) =
    (plug child fs, refl, plug-IsRbTree h child fs b path (λ e. cc), refl)
close_gap-Closes h black child fs (b, path) =
    rb_erase_color-Closes h child fs (IsShort-of h child b) path

-- What stands around a subtree of a whole tree that keeps the rules.
pub record Around (t : RbTree) (fs : List Frame) : Type 0 where
  pub height : ℕ
  pub balanced : IsBalanced height t
  pub path : IsPath height fs
  pub parent : is_black t ≡ false → HasBlackParent fs

fill-Around :
    (h : ℕ) (t : RbTree) (f : Frame) (fs : List Frame)
    → IsBalanced h (fill t f)
    → IsPath h fs
    → (is_black (fill t f) ≡ false → HasBlackParent fs)
    → Around t (f ∷ fs)
fill-Around h t (from_left red x r) fs (bl, br, kl, kr) p up = record {
  height = h;
  balanced = bl;
  path = (br, kr, up refl, p);
  parent = λ e. cc;
}
fill-Around h t (from_right red l x) fs (bl, br, kl, kr) p up = record {
  height = h;
  balanced = br;
  path = (bl, kl, up refl, p);
  parent = λ e. cc;
}
fill-Around zero t (from_left black x r) fs b p up = absurd b
fill-Around zero t (from_right black l x) fs b p up = absurd b
fill-Around (suc h) t (from_left black x r) fs (bl, br) p up = record {
  height = h;
  balanced = bl;
  path = (br, p);
  parent = λ e. refl;
}
fill-Around (suc h) t (from_right black l x) fs (bl, br) p up = record {
  height = h;
  balanced = br;
  path = (bl, p);
  parent = λ e. refl;
}

pub plug-Around : (t : RbTree) (fs : List Frame) → IsRbTree (plug t fs) → Around t fs
plug-Around t [] (k, h, b) = record { height = h; balanced = b; path = tt; parent = λ e. cc }
plug-Around t (f ∷ fs) rules =
    let a = plug-Around (fill t f) fs rules in
    fill-Around a.height t f fs a.balanced a.path a.parent

-- The gap of the successor, below a node of a tree that keeps the rules.
leftmost-IsGap :
    (h : ℕ) (c : Color) (l : RbTree) (x : RbEntry) (r : RbTree) (fs : List Frame)
    → IsBalanced h (node c l x r)
    → IsPath h fs
    → (is_black (node c l x r) ≡ false → HasBlackParent fs)
    → let s = leftmost c l x r fs in (k : ℕ) × IsGap k s.color s.child s.path
unfolding leftmost
leftmost-IsGap h red leaf x r fs (bl, br, kl, kr) p up = (h, (br, kr, p))
leftmost-IsGap zero black leaf x r fs b p up = absurd b
leftmost-IsGap (suc h) black leaf x r fs (bl, br) p up = (h, (br, p))
leftmost-IsGap h red (node d l y m) x r fs (bl, br, kl, kr) p up =
    leftmost-IsGap h d l y m (from_left red x r ∷ fs) bl (br, kr, up refl, p) (λ e. cc)
leftmost-IsGap zero black (node d l y m) x r fs b p up = absurd b
leftmost-IsGap (suc h) black (node d l y m) x r fs (bl, br) p up =
    leftmost-IsGap h d l y m (from_left black x r ∷ fs) bl (br, p) (λ e. refl)

leftmost-list :
    (c : Color) (l : RbTree) (x : RbEntry) (r : RbTree) (fs : List Frame)
    → let s = leftmost c l x r fs in
      (before s.path ≡ before fs)
      × (s.entry ∷ (to_list s.child ++ after s.path) ≡ to_list (node c l x r) ++ after fs)
unfolding leftmost
leftmost-list c leaf x r fs = (refl, refl)
leftmost-list c (node d l y m) x r fs =
    let (b, a) = leftmost-list d l y m (from_left c x r ∷ fs) in (b, a ∙ simp append_assoc)

leftmost-entry :
    (c : Color) (l : RbTree) (x : RbEntry) (r : RbTree) (fs gs : List Frame)
    → (leftmost c l x r fs).entry ≡ (leftmost c l x r gs).entry
unfolding leftmost
leftmost-entry c leaf x r fs gs = refl
leftmost-entry c (node d l y m) x r fs gs =
    leftmost-entry d l y m (from_left c x r ∷ fs) (from_left c x r ∷ gs)

node-IsGap :
    (h : ℕ) (c : Color) (l : RbTree) (x : RbEntry) (r : RbTree) (fs : List Frame)
    → IsBalanced h (node c l x r)
    → IsPath h fs
    → (k : ℕ) × IsGap k c l fs × IsGap k c r fs
node-IsGap h red l x r fs (bl, br, kl, kr) p = (h, (bl, kl, p), (br, kr, p))
node-IsGap zero black l x r fs b p = absurd b
node-IsGap (suc h) black l x r fs (bl, br) p = (h, (bl, p), (br, p))

-- The right subtree, with any entry in the place of the node.
right-Around :
    (h : ℕ) (c : Color) (l : RbTree) (x y : RbEntry) (r : RbTree) (fs : List Frame)
    → IsBalanced h (node c l x r)
    → IsPath h fs
    → (is_black (node c l x r) ≡ false → HasBlackParent fs)
    → Around r (from_right c l y ∷ fs)
right-Around h red l x y r fs b p up = fill-Around h r (from_right red l y) fs b p up
right-Around h black l x y r fs b p up = fill-Around h r (from_right black l y) fs b p (λ e. cc)

around :
    (xs ys : List RbEntry) (x : RbEntry) (zs : List RbEntry)
    → (xs ++ (ys ++ (x ∷ []))) ++ zs ≡ (xs ++ ys) ++ (x ∷ zs)
around xs ys x zs = simp append_assoc

-- The node goes, the rules stay.
pub rb_erase_lem :
    (c : Color) (l : RbTree) (x : RbEntry) (r : RbTree) (fs : List Frame)
    → IsRbTree (plug (node c l x r) fs)
    → (s : RbTree) × (rb_erase c l r fs ≡ done s)
      × IsRbTree s
      × (to_list s ≡ (before fs ++ to_list l) ++ (to_list r ++ after fs))
unfolding rb_erase
rb_erase_lem c leaf x r fs rules =
    let a = plug-Around (node c leaf x r) fs rules in
    let (k, _, gap) = node-IsGap a.height c leaf x r fs a.balanced a.path in
    let (s, runs, good, e) = close_gap-Closes k c r fs gap in
    (s, runs, good, e ∙ (to_list-plug r fs ∙ simp append-nil))
rb_erase_lem c (node d ll y lr) x leaf fs rules =
    let l = node d ll y lr in
    let a = plug-Around (node c l x leaf) fs rules in
    let (k, gap, _) = node-IsGap a.height c l x leaf fs a.balanced a.path in
    let (s, runs, good, e) = close_gap-Closes k c l fs gap in
    (s, runs, good, e ∙ (to_list-plug l fs ∙ simp append_assoc))
rb_erase_lem c (node d ll y lr) x (node e rl z rr) fs rules =
    let l = node d ll y lr in
    let r = node e rl z rr in
    let least = (leftmost e rl z rr []).entry in
    let ps = from_right c l least ∷ fs in
    let s = leftmost e rl z rr ps in
    let a = plug-Around (node c l x r) fs rules in
    let ra = right-Around a.height c l x least r fs a.balanced a.path a.parent in
    let (k, gap) = leftmost-IsGap ra.height e rl z rr ps ra.balanced ra.path ra.parent in
    let (u, runs, good, same) = close_gap-Closes k s.color s.child s.path gap in
    let (front, back) = leftmost-list e rl z rr ps in
    let w = to_list s.child ++ after s.path in
    (
      u,
      runs,
      good,
      same
          ∙ (to_list-plug s.child s.path
              ∙ (ap (λ b. b ++ w) front
                  ∙ (around (before fs) (to_list l) least w
                      ∙ ap (λ v. (before fs ++ to_list l) ++ v)
                          (ap (λ v. v ∷ w) (leftmost-entry e rl z rr [] ps) ∙ back)))),
    )
