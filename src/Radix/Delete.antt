-- ===== src/Radix/Delete.antt =====
-- Removal from a valid tree.
use cc_rpc.Base.{
  ℕ, zero, suc, ◌+◌, ◌-◌, ◌%◌, ◌^◌, ◌<◌, ◌≡◌, refl, sym, ap, ◌∙◌, arith, Bool, true, false, ◌==◌,
  ==_iff, ltb, ltb→lt, lt→ltb, ltb→le, Bool-cases, inl, inr, Option, none, some, Outcome, done,
  if◌then◌else◌,
}
use cc_rpc.Radix.{
  Radix, null, RadixRoot, Removal, empty, drop_top, delete_from, radix_tree_height,
  radix_tree_delete,
}
use cc_rpc.Radix.Levels.{Needs, radix_tree_height-Needs, sixteen_mono}
use cc_rpc.Radix.Valid.{IsFull, SlotsFull-IsFull, IsRadix, view, find}
use cc_rpc.Radix.Raise.{view_grown, if_same}
use cc_rpc.Radix.Take.{Taken, delete_loop-Takes, find-blank, find-empty}

-- q is taken out, and the rest stays.
abbrev pub Deletes : RadixRoot → ℕ → Outcome (Option ℕ × RadixRoot) → Type 0
Deletes root q m =
    (root' : RadixRoot) × (m ≡ done (view root q, root'))
    × IsRadix root'
    × ((p : ℕ) → view root' p ≡ (if p == q then none else view root p))
    × (IsFull root.height root.rnode → IsFull root'.height root'.rnode)

absent-Deletes :
    (root : RadixRoot) (q : ℕ)
    → IsRadix root
    → view root q ≡ none
    → Deletes root q (done (none, root))
absent-Deletes root q ok e = (
  root,
  rw e,
  ok,
  (λ p. elim (Bool-cases (p == q)) [
    | inl f ↦ rw f (ap (view root) ((==_iff p q).0 f) ∙ e)
    | inr f ↦ rw f
  ]),
  (λ f. f),
)

drop_top-Deletes :
    (h q count : ℕ) (t : Radix) (linked : Bool)
    → (let root : RadixRoot = record {
      height = suc h;
      count = count;
      rnode = t;
      linked = linked;
    } in
        IsRadix root
        → q < 16 ^ suc h
        → (x : Option Removal) → Taken h q t x
        → Deletes root q (drop_top root x))
unfolding drop_top view find
drop_top-Deletes h q count t linked ok hq none e = absent-Deletes _ q ok (rw (lt→ltb _ _ hq) e)
drop_top-Deletes h q count t linked ok hq (some r) k =
    let inside = lt→ltb _ _ hq in
    let count' = (count + 2 ^ 32 - r.freed) % 2 ^ 32 in
    let bare : RadixRoot = record {
      height = 0;
      count = (count' + 2 ^ 32 - 1) % 2 ^ 32;
      rnode = null;
      linked = false;
    } in
    let rest : RadixRoot = record {
      height = suc h;
      count = count';
      rnode = r.left;
      linked = linked;
    } in
    let blank : (p : ℕ)
        → empty r.left ≡ true
        → (if ltb p (16 ^ suc h) then find (suc h) r.left p else none) ≡ none =
      λ p e. rw (find-empty h r.left p k.shape e) (if_same (ltb p (16 ^ suc h)) none) in
    elim (Bool-cases (empty r.left)) [
      | inl e ↦ (
        bare,
        rw (e, k.top e, inside, k.was),
        record {
          shape = tt;
          low = omega arith;
          levels = ((λ _. refl), (λ _. refl));
          lonely = λ _. refl;
        },
        (λ p.
            if_same (ltb p (16 ^ 0)) none
            ∙ sym (blank p e)
            ∙ view_grown (suc h) p q none true t r.left hq (k.gone p)),
        (λ f. tt),
      )
      | inr e ↦ (
        rest,
        rw (e, inside, k.was),
        record {
          shape = k.shape;
          low = ok.low;
          levels = ((λ f. absurd (omega (arith, k.there))), (λ f. absurd (omega arith)));
          lonely = λ f. absurd (omega (arith, k.there));
        },
        (λ p. view_grown (suc h) p q none true t r.left hq (k.gone p)),
        (λ f. SlotsFull-IsFull h r.left e (k.full f)),
      )
    ]

rooted-Deletes :
    (h q count : ℕ) (t : Radix) (linked : Bool)
    → (let root : RadixRoot = record { height = h; count = count; rnode = t; linked = linked } in
        IsRadix root → 0 < h → q < 16 ^ h → Deletes root q (delete_from root q h))
unfolding delete_from
rooted-Deletes zero q count t linked ok pos hq = absurd (omega arith)
rooted-Deletes (suc h) q count t linked ok pos hq =
    let (x, runs, taken) = delete_loop-Takes h q t ok.shape in
    rw runs (drop_top-Deletes h q count t linked ok hq x taken)

-- An index that needs more levels than there are is not in the map.
high-view :
    (root : RadixRoot) (q levels : ℕ)
    → IsRadix root
    → Needs q levels
    → root.height < levels
    → view root q ≡ none
unfolding view
high-view root q levels ok needs short = elim (Bool-cases (ltb q (16 ^ root.height))) [
  | inl e ↦ elim (Bool-cases (root.height == 0)) [
    | inl f ↦
        let flat : root.height ≡ 0 = (==_iff _ 0).0 f in
        rw (e, find-blank root.height root.rnode q (ok.levels.1 flat))
    | inr f ↦
        let pos : 0 < root.height = ground arith in
        absurd (omega (arith, needs.least root.height pos (ltb→lt _ _ e)))
  ]
  | inr e ↦ rw e
]

pub radix_tree_delete-Deletes :
    (root : RadixRoot) (q : ℕ)
    → IsRadix root
    → q < 2 ^ 64
    → Deletes root q (radix_tree_delete root q)
unfolding radix_tree_delete
radix_tree_delete-Deletes root q ok hq =
    let needs = radix_tree_height-Needs q hq in
    elim (Bool-cases (ltb root.height (radix_tree_height q))) [
      | inl e ↦ rw e (
          absent-Deletes root q ok (high-view root q (radix_tree_height q) ok needs (ltb→lt _ _ e)))
      | inr e ↦
          let tall = ltb→le _ _ e in
          let wide = sixteen_mono {i = radix_tree_height q} {j = root.height} tall in
          rw e (
            rooted-Deletes root.height q root.count root.rnode root.linked ok
              (omega (arith, tall, needs.some_level)) (omega (arith, wide, needs.enough)))
    ]
