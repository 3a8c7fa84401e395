-- ===== src/Radix/Nearest.antt =====
-- radix_tree_lookup_upper_bound and radix_tree_root_left, against the map that the tree stands for.
use cc_rpc.Base.{
  ℕ, zero, suc, ◌-◌, ◌^◌, ◌<◌, ◌≤◌, ◌≡◌, refl, sym, ap, ◌∙◌, subst, arith, Bool, true, false, ltb,
  ltb→lt, lt→ltb, Bool-cases, inl, inr, Option, none, some, Outcome, done, ◌>>=◌, if◌then◌else◌,
  ◌⊎◌,
}
use native.Mathlib.Nat.{mod-eq_of_lt}
use cc_rpc.Radix.{
  radix_tree_node_left, Radix, null, item, branch, RadixRoot, or_climb, bound_loop,
  radix_tree_root_left, radix_tree_lookup_upper_bound,
}
use cc_rpc.Radix.Valid.{IsFull, IsRadix, view, find}
use cc_rpc.Radix.Bound.{Least}
use cc_rpc.Radix.Upper.{radix_tree_node_left-Leftmost, bound_loop-Bounds}

-- The least index from m on that f has an item for is that of r.
abbrev pub AtLeast : (ℕ → Option ℕ) → ℕ → Option ℕ → Type 0
AtLeast f m none = (p : ℕ) → m ≤ p → f p ≡ none
AtLeast f m (some v) =
    (p : ℕ) × (m ≤ p) × (f p ≡ some v) × ((p' : ℕ) → m ≤ p' → p' < p → f p' ≡ none)

-- What is returned where r is the item at the least index; a linked root begins again.
abbrev pub Wraps : RadixRoot → Option ℕ → Outcome (Option ℕ) → Type 0
Wraps root (some v) m = m ≡ done (some v)
Wraps root none m =
    (first : Option ℕ) × (m ≡ done first)
    × (((root.linked ≡ true) × AtLeast (view root) 0 first)
        ⊎ ((root.linked ≡ false) × (first ≡ none)))

view_inside :
    (root : RadixRoot) (p : ℕ) → p < 16 ^ root.height → view root p ≡ find root.height root.rnode p
unfolding view
view_inside root p h = rw (lt→ltb _ _ h)

Least-AtLeast :
    (root : RadixRoot) (m : ℕ) (r : Option ℕ)
    → Least (find root.height root.rnode) (16 ^ root.height) m r
    → AtLeast (view root) m r
unfolding view
Least-AtLeast root m none l = λ p lo. elim (Bool-cases (ltb p (16 ^ root.height))) [
  | inl e ↦ rw e (l p lo (ltb→lt _ _ e))
  | inr e ↦ rw e
]
Least-AtLeast root m (some v) (p, lo, hi, found, least) = (
  p,
  lo,
  view_inside root p hi ∙ found,
  (λ p' lo' hi'. view_inside root p' (omega arith) ∙ least p' lo' hi'),
)

or_climb-Wraps :
    (h q count ht c : ℕ) (s : ℕ → Radix) (linked : Bool)
    → (let t = branch ht c s in
        let root : RadixRoot = record {
          height = suc h;
          count = count;
          rnode = t;
          linked = linked;
        } in
        IsRadix root
        → IsFull (suc h) t
        → q < 16 ^ suc h
        → (r : Option ℕ) → AtLeast (view root) q r
        → Wraps root r (or_climb (if linked then radix_tree_root_left root else done none) r))
unfolding or_climb radix_tree_root_left
or_climb-Wraps h q count ht c s linked ok full hq (some v) l = refl
or_climb-Wraps h q count ht c s false ok full hq none l = (none, refl, inr (refl, refl))
or_climb-Wraps h q count ht c s true ok full hq none l =
    let (v, runs, least) =
      radix_tree_node_left-Leftmost (suc h) (branch ht c s) ok.shape full refl in
    (
      some v,
      ap (λ n. radix_tree_node_left n (branch ht c s)) ok.shape.0 ∙ runs,
      inl (refl, Least-AtLeast _ 0 (some v) least),
    )

upper-rooted :
    (h q count : ℕ) (t : Radix) (linked : Bool)
    → (let root : RadixRoot = record { height = h; count = count; rnode = t; linked = linked } in
        IsRadix root
        → IsFull h t
        → q < 16 ^ h
        → (r : Option ℕ) × AtLeast (view root) q r
          × Wraps root r (radix_tree_lookup_upper_bound root q))
unfolding radix_tree_lookup_upper_bound bound_loop view find or_climb
upper-rooted zero q count null linked ok full hq =
    let root : RadixRoot = record { height = 0; count = count; rnode = null; linked = linked } in
    let nothing = Least-AtLeast root q none (λ p lo hi. refl) in
    (none, nothing, (none, rw (ok.lonely refl), inr (ok.lonely refl, refl)))
upper-rooted (suc h) q count null linked ok full hq = absurd (omega (arith, ok.levels.0 refl))
upper-rooted zero q count (item v) linked ok full hq = absurd (omega (arith, ok.levels.1 refl))
upper-rooted (suc h) q count (item v) linked ok full hq = absurd ok.shape
upper-rooted zero q count (branch ht c s) linked ok full hq = absurd ok.shape
upper-rooted (suc h) q count (branch ht c s) linked ok full hq =
    let root : RadixRoot = record {
      height = suc h;
      count = count;
      rnode = branch ht c s;
      linked = linked;
    } in
    let (r, runs, l) = bound_loop-Bounds (suc h) (branch ht c s) q ok.shape full in
    let here =
      Least-AtLeast root q r
        (subst (λ m. Least (find (suc h) (branch ht c s)) (16 ^ suc h) m r) (mod-eq_of_lt hq) l) in
    let flat : suc h - suc h ≡ 0 = omega arith in
    let runs' : bound_loop (suc h - ht) ht (branch ht c s) q ≡ done r =
      ap (λ n. bound_loop (suc h - n) n (branch ht c s) q) ok.shape.0
      ∙ ap (λ k. bound_loop k (suc h) (branch ht c s) q) flat
      ∙ runs in
    let again = if linked then radix_tree_root_left root else done none in
    (
      r,
      here,
      subst (Wraps root r) (sym (ap (λ m. m >>= or_climb again) runs'))
          (or_climb-Wraps h q count ht c s linked ok full hq r here),
    )

-- On a valid tree without an empty node, for an index within its levels,
-- radix_tree_lookup_upper_bound returns the item at the least index that is not below the given one;
-- if there is none, it returns NULL where the top node has no parent, and where its parent is the
-- root, in a tree that did not grow in height, the item at the least index of all.
pub radix_tree_lookup_upper_bound_lem :
    (root : RadixRoot) (q : ℕ)
    → IsRadix root
    → IsFull root.height root.rnode
    → q < 16 ^ root.height
    → (r : Option ℕ) × AtLeast (view root) q r × Wraps root r (radix_tree_lookup_upper_bound root q)
radix_tree_lookup_upper_bound_lem root q ok full hq =
    upper-rooted root.height q root.count root.rnode root.linked ok full hq
