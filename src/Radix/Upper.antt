-- ===== src/Radix/Upper.antt =====
-- radix_tree_lookup_upper_bound on a valid tree without an empty node.
use cc_rpc.Base.{
  ℕ, zero, suc, ◌+◌, ◌-◌, ◌*◌, ◌%◌, ◌^◌, ◌<◌, ◌≤◌, ◌≡◌, refl, ap, ◌∙◌, subst, arith, inl, inr,
  Option, none, some, Outcome, done,
}
use native.Mathlib.Nat.{mod-lt, pow-suc}
use cc_rpc.Radix.{
  Radix, null, item, branch, offset_at, first_slot, follow, radix_tree_node_left, size_level,
  right_of, or_climb, bound_offset, bound_loop,
}
use cc_rpc.Radix.Digits.{split, power_pos, offset_at_lt}
use cc_rpc.Radix.Valid.{IsFull, filled, used, IsSlot, find}
use cc_rpc.Radix.Bound.{Least, widen, inside, place, room, Leftmost, Slots, first_slot-Slots}

used_blank : (n : ℕ) (s : ℕ → Radix) → ((a : ℕ) → a < n → filled (s a) ≡ 0) → used n s ≡ 0
used_blank zero s h = refl
used_blank (suc n) s h = omega (arith, h n (omega arith), used_blank n s (λ a l. h a (omega arith)))

follow_lem : (walk : Radix → Outcome (Option ℕ)) (t : Radix) → filled t ≡ 1 → follow walk t ≡ walk t
unfolding follow
follow_lem walk null e = absurd (omega arith)
follow_lem walk (item v) e = refl
follow_lem walk (branch ht c s) e = refl

-- radix_tree_node_left finds the item at the least index.
pub radix_tree_node_left-Leftmost :
    (h : ℕ) (t : Radix) → IsSlot h t → IsFull h t → filled t ≡ 1 → Leftmost h t
unfolding radix_tree_node_left find
radix_tree_node_left-Leftmost h null ok full e = absurd (omega arith)
radix_tree_node_left-Leftmost zero (item v) ok full e =
    (v, refl, (0, omega arith, omega arith, refl, (λ p lo hi. absurd (omega arith))))
radix_tree_node_left-Leftmost zero (branch ht c s) ok full e = absurd ok
radix_tree_node_left-Leftmost (suc h) (item v) ok full e = absurd ok
radix_tree_node_left-Leftmost (suc h) (branch ht c s) ok (pos, full) e =
    let left : (o : ℕ) → o < 16 → (u : Radix) → s o ≡ u → filled u ≡ 1 → Leftmost h u =
      λ o ho u e f.
        radix_tree_node_left-Leftmost h u (subst (IsSlot h) e (ok.2 o ho))
          (subst (IsFull h) e (full o ho)) f in
    elim (first_slot-Slots h ht c s left 16 0 (omega arith)) [
      | inl (null_end, l, blank) ↦
          absurd (omega (arith, ok.1, pos, used_blank 16 s (λ a ha. blank a (omega arith) ha)))
      | inr (v, there, runs, l) ↦ (
        v,
        follow_lem (radix_tree_node_left h) (first_slot 16 s 0) there ∙ runs,
        subst (λ m. Least (find (suc h) (branch ht c s)) (16 ^ suc h) m (some v)) (omega arith) l,
      )
    ]

digits_split : (h q : ℕ) → q % 16 ^ suc h ≡ 16 ^ h * offset_at h q + q % 16 ^ h
digits_split h q = rw (pow-suc 16 h) (split (16 ^ h) q (power_pos h))

level_offset : (h q : ℕ) → bound_offset 0 h q ≡ offset_at h q
unfolding bound_offset
level_offset zero q = refl
level_offset (suc h) q = ap (λ n. offset_at n q) (omega arith)

-- What a search from q on in a subtree comes to
abbrev pub Bounds : ℕ → Radix → ℕ → Outcome (Option ℕ) → Type 0
Bounds h t q m = (r : Option ℕ) × (m ≡ done r) × Least (find h t) (16 ^ h) (q % 16 ^ h) r

null_left : (h : ℕ) (t : Radix) → filled t ≡ 0 → radix_tree_node_left h t ≡ done none
unfolding radix_tree_node_left
null_left h null e = refl
null_left h (item v) e = absurd (omega arith)
null_left h (branch ht c s) e = absurd (omega arith)

right-Slots :
    (h ht c : ℕ) (s : ℕ → Radix) (o : ℕ) (t : Radix)
    → Slots h ht c s o t
    → (r : Option ℕ) × (radix_tree_node_left h t ≡ done r)
      × Least (find (suc h) (branch ht c s)) (16 ^ suc h) (16 ^ h * o) r
right-Slots h ht c s o t (inl (null_end, l, blank)) = (none, null_left h t null_end, l)
right-Slots h ht c s o t (inr (v, there, runs, l)) = (some v, runs, l)

right_of-Bounds :
    (h ht c : ℕ) (s : ℕ → Radix) (q : ℕ)
    → IsSlot (suc h) (branch ht c s)
    → IsFull (suc h) (branch ht c s)
    → (r : Option ℕ) → Least (find h (s (offset_at h q))) (16 ^ h) (q % 16 ^ h) r
    → Bounds (suc h) (branch ht c s) q (or_climb (right_of h s (offset_at h q)) r)
unfolding or_climb right_of find
right_of-Bounds h ht c s q ok full (some v) l = (
  some v,
  refl,
  rw (digits_split h q) (place h ht c s (offset_at h q) (q % 16 ^ h) v (offset_at_lt h q) l),
)
right_of-Bounds h ht c s q ok full none l =
    let o = offset_at h q in
    let ho = offset_at_lt h q in
    let m = 16 ^ h * o + q % 16 ^ h in
    let short = mod-lt q (power_pos h) in
    let f = find (suc h) (branch ht c s) in
    let left : (a : ℕ) → a < 16 → (u : Radix) → s a ≡ u → filled u ≡ 1 → Leftmost h u =
      λ a ha u e f.
        radix_tree_node_left-Leftmost h u (subst (IsSlot h) e (ok.2 a ha))
          (subst (IsFull h) e (full.1 a ha)) f in
    let next : 16 ^ h * (o + 1) ≡ 16 ^ h * o + 16 ^ h = omega arith in
    let bound : 16 ^ h * (o + 1) ≤ 16 ^ suc h = omega (arith, room h o ho) in
    let skip : (p : ℕ) → m ≤ p → p < 16 ^ h * (o + 1) → f p ≡ none =
      λ p lo hi. inside h ht c s o (q % 16 ^ h) (16 ^ h) ho l (omega arith) p lo (omega arith) in
    let (r, runs, rest) =
      right-Slots h ht c s (o + 1) (first_slot (size_level - 1 - o) s (o + 1))
        (first_slot-Slots h ht c s left (size_level - 1 - o) (o + 1) (omega arith)) in
    (
      r,
      runs,
      rw (digits_split h q)
          (widen f (16 ^ suc h) (16 ^ h * (o + 1)) m r bound skip rest (omega arith)),
    )

pub bound_loop-Bounds :
    (h : ℕ) (t : Radix) (q : ℕ) → IsSlot h t → IsFull h t → Bounds h t q (bound_loop 0 h t q)
unfolding bound_loop find
bound_loop-Bounds h null q ok full = (none, refl, λ p lo hi. refl)
bound_loop-Bounds zero (item v) q ok full =
    (some v, refl, (0, omega arith, omega arith, refl, (λ p lo hi. absurd (omega arith))))
bound_loop-Bounds zero (branch ht c s) q ok full = absurd ok
bound_loop-Bounds (suc h) (item v) q ok full = absurd ok
bound_loop-Bounds (suc h) (branch ht c s) q ok full =
    let o = offset_at h q in
    let ho = offset_at_lt h q in
    let (r, runs, l) = bound_loop-Bounds h (s o) q (ok.2 o ho) (full.1 o ho) in
    rw (level_offset h q) (rw runs (right_of-Bounds h ht c s q ok full r l))
