-- ===== src/Rbtree/Insert.antt =====
-- `rb_insert_node` keeps the rules and the order.
use cc_rpc.Base.{
  ℕ, suc, ◌≡◌, refl, ◌∙◌, List, [], ◌∷◌, true, false, Outcome, done, inl, inr, Bool-cases,
}
use cc_rpc.Rbtree.{
  Color, red, black, RbEntry, RbTree, node, Frame, from_left, from_right, fill, plug, is_black,
  set_color, insert_rotate_left, insert_rotate_right, frame_color, insert_color_loop,
}
use cc_rpc.Rbtree.Order.{to_list}
use cc_rpc.Rbtree.Balance.{IsBalanced, IsPath, Joins-black, plug-IsBalanced}
use cc_rpc.Rbtree.Rotate.{
  RedFrame, Rotated, frame_cases, insert_rotate_left-Rotated, insert_rotate_right-Rotated,
  parent_black, plug-list, set_color-list, uncle_black,
}

abbrev pub Recolored : RbTree → List Frame → Outcome RbTree → Type 0
Recolored t fs r =
    (s : RbTree) × (r ≡ done s) × ((h : ℕ) × IsBalanced h s) × (to_list s ≡ to_list (plug t fs))

-- A black parent ends the loop.
stays :
    (h : ℕ) (t : RbTree) (p : Frame) (fs : List Frame)
    → IsBalanced h t
    → IsPath h (p ∷ fs)
    → frame_color p ≡ black
    → (h' : ℕ) × IsBalanced h' (plug t (p ∷ fs))
stays h t p fs b path e = plug-IsBalanced h t (p ∷ fs) b path (λ r. cc)

abbrev pub Loops : RbTree → List Frame → Type 0
Loops t fs = Recolored t fs (insert_color_loop t fs)

recolor_left :
    (t : RbTree) (p : Frame) (x : RbEntry) (u : RbTree) (fs : List Frame)
    → frame_color p ≡ red
    → is_black u ≡ false
    → Loops (node red (set_color black (fill t p)) x (set_color black u)) fs
    → Loops t (p ∷ (from_left black x u ∷ fs))
unfolding insert_color_loop
recolor_left t p x u fs e k (s, runs, bal, same) = (
  s,
  rw (insert_color_loop, e, k) runs,
  bal,
  same ∙ plug-list _ (node black (fill t p) x u) fs (simp set_color-list),
)

recolor_right :
    (t : RbTree) (p : Frame) (u : RbTree) (x : RbEntry) (fs : List Frame)
    → frame_color p ≡ red
    → is_black u ≡ false
    → Loops (node red (set_color black u) x (set_color black (fill t p))) fs
    → Loops t (p ∷ (from_right black u x ∷ fs))
unfolding insert_color_loop
recolor_right t p u x fs e k (s, runs, bal, same) = (
  s,
  rw (insert_color_loop, e, k) runs,
  bal,
  same ∙ plug-list _ (node black u x (fill t p)) fs (simp set_color-list),
)

rotate_left :
    (h : ℕ) (t : RbTree) (p : Frame) (x : RbEntry) (u : RbTree) (fs : List Frame)
    → frame_color p ≡ red
    → is_black u ≡ true
    → IsPath (suc h) fs
    → Rotated h (node black (fill t p) x u) (insert_rotate_left t p x u)
    → Loops t (p ∷ (from_left black x u ∷ fs))
unfolding insert_color_loop
rotate_left h t p x u fs e k path (s, runs, b, top, same) = (
  plug s fs,
  rw (insert_color_loop, e, k, runs) refl,
  plug-IsBalanced (suc h) s fs b path (Joins-black s fs top),
  plug-list s (node black (fill t p) x u) fs same,
)

rotate_right :
    (h : ℕ) (t : RbTree) (p : Frame) (u : RbTree) (x : RbEntry) (fs : List Frame)
    → frame_color p ≡ red
    → is_black u ≡ true
    → IsPath (suc h) fs
    → Rotated h (node black u x (fill t p)) (insert_rotate_right t p u x)
    → Loops t (p ∷ (from_right black u x ∷ fs))
unfolding insert_color_loop
rotate_right h t p u x fs e k path (s, runs, b, top, same) = (
  plug s fs,
  rw (insert_color_loop, e, k, runs) refl,
  plug-IsBalanced (suc h) s fs b path (Joins-black s fs top),
  plug-list s (node black u x (fill t p)) fs same,
)

red_parent_left :
    (h : ℕ) (a : RbTree) (y : RbEntry) (b : RbTree) (p : Frame) (c : Color) (x : RbEntry)
    (u : RbTree) (fs : List Frame)
    → IsBalanced h (node red a y b)
    → frame_color p ≡ red
    → RedFrame h p
    → c ≡ black
    → IsPath h (from_left c x u ∷ fs)
    → (IsBalanced
          (suc h)
          (node red (set_color black (fill (node red a y b) p)) x (set_color black u))
        → IsPath (suc h) fs
        → Loops (node red (set_color black (fill (node red a y b) p)) x (set_color black u)) fs)
    → Loops (node red a y b) (p ∷ (from_left c x u ∷ fs))
red_parent_left h a y b p red x u fs bal e f up path ih = cc
red_parent_left h a y b p black x u fs bal e f up (bu, path) ih = elim (Bool-cases (is_black u)) [
  | inl k ↦
      rotate_left h (node red a y b) p x u fs e k path
        (insert_rotate_left-Rotated h a y b p x u bal f bu k)
  | inr k ↦
      let parent = parent_black h (node red a y b) p bal f in
      let uncle = uncle_black h u bu k in
      recolor_left (node red a y b) p x u fs e k (ih (parent.0, uncle.0, parent.1, uncle.1) path)
]

red_parent_right :
    (h : ℕ) (a : RbTree) (y : RbEntry) (b : RbTree) (p : Frame) (c : Color) (u : RbTree)
    (x : RbEntry) (fs : List Frame)
    → IsBalanced h (node red a y b)
    → frame_color p ≡ red
    → RedFrame h p
    → c ≡ black
    → IsPath h (from_right c u x ∷ fs)
    → (IsBalanced
          (suc h)
          (node red (set_color black u) x (set_color black (fill (node red a y b) p)))
        → IsPath (suc h) fs
        → Loops (node red (set_color black u) x (set_color black (fill (node red a y b) p))) fs)
    → Loops (node red a y b) (p ∷ (from_right c u x ∷ fs))
red_parent_right h a y b p red u x fs bal e f up path ih = cc
red_parent_right h a y b p black u x fs bal e f up (bu, path) ih = elim (Bool-cases (is_black u)) [
  | inl k ↦
      rotate_right h (node red a y b) p u x fs e k path
        (insert_rotate_right-Rotated h a y b p u x bal f bu k)
  | inr k ↦
      let parent = parent_black h (node red a y b) p bal f in
      let uncle = uncle_black h u bu k in
      recolor_right (node red a y b) p u x fs e k (ih (uncle.0, parent.0, uncle.1, parent.1) path)
]

-- The loop ends, with no access through NULL; only the root may be red under the rules.
pub insert_color_loop-Recolored :
    (h : ℕ) (a : RbTree) (y : RbEntry) (b : RbTree) (fs : List Frame)
    → IsBalanced h (node red a y b)
    → IsPath h fs
    → Loops (node red a y b) fs
unfolding insert_color_loop
insert_color_loop-Recolored h a y b [] bal path = (node red a y b, refl, (h, bal), refl)
insert_color_loop-Recolored h a y b (p ∷ []) bal path = elim (frame_cases h p [] path) [
  | inl e ↦ (
    fill (node red a y b) p,
    rw (insert_color_loop, e) refl,
    stays h (node red a y b) p [] bal path e,
    refl,
  )
  | inr (_, _, up, _) ↦ absurd up
]
insert_color_loop-Recolored h a y b (p ∷ (from_left c x u ∷ fs)) bal path =
    elim (frame_cases h p (from_left c x u ∷ fs) path) [
      | inl e ↦ (
        plug (node red a y b) (p ∷ (from_left c x u ∷ fs)),
        rw (insert_color_loop, e) refl,
        stays h (node red a y b) p (from_left c x u ∷ fs) bal path e,
        refl,
      )
      | inr (e, f, up, path') ↦ red_parent_left h a y b p c x u fs bal e f up path' (
          insert_color_loop-Recolored (suc h) (set_color black (fill (node red a y b) p)) x
            (set_color black u) fs)
    ]
insert_color_loop-Recolored h a y b (p ∷ (from_right c u x ∷ fs)) bal path =
    elim (frame_cases h p (from_right c u x ∷ fs) path) [
      | inl e ↦ (
        plug (node red a y b) (p ∷ (from_right c u x ∷ fs)),
        rw (insert_color_loop, e) refl,
        stays h (node red a y b) p (from_right c u x ∷ fs) bal path e,
        refl,
      )
      | inr (e, f, up, path') ↦ red_parent_right h a y b p c u x fs bal e f up path' (
          insert_color_loop-Recolored (suc h) (set_color black u) x
            (set_color black (fill (node red a y b) p)) fs)
    ]
