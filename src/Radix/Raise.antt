-- ===== src/Radix/Raise.antt =====
-- Insertion below the root of a valid tree, and more levels on top of it.
use cc_rpc.Base.{
  ℕ, zero, suc, ◌+◌, ◌%◌, ◌^◌, ◌<◌, ◌≤◌, ◌≡◌, refl, sym, ap, ◌∙◌, arith, Bool, true, false, ◌&&◌,
  ◌==◌, ltb, ltb→lt, lt→ltb, ltb→le, le→ltb, Bool-cases, inl, inr, Option, none, some, Outcome,
  done, if◌then◌else◌,
}
use cc_rpc.Radix.{
  Radix, null, item, branch, RadixRoot, put, radix_tree_grow_node, radix_tree_grow_height,
}
use cc_rpc.Radix.Digits.{same, same_lem}
use cc_rpc.Radix.Levels.{sixteen_mono, top_digit}
use cc_rpc.Radix.Valid.{
  IsFull, SlotsFull, put-SlotsFull, filled, IsSlot, IsRadix, view, find, find-put,
}
use cc_rpc.Radix.Grow.{grow_node_loop-Grows, put-IsSlot, init-IsSlot}

-- What an insertion of v at q comes to, where b says that it returned 0.
pub record IsInserted (grant : ℕ → Bool) (F : Type 0) (root : RadixRoot) (q v : ℕ) (b : Bool)
    (root' : RadixRoot) : Type 0 where
  pub valid : IsRadix root'
  pub holds : (p : ℕ) → view root' p ≡ (if b && (p == q) then some v else view root p)
  pub fresh : b ≡ true → view root q ≡ none
  pub serves : ((n : ℕ) → grant n ≡ true) → view root q ≡ none → b ≡ true
  pub full : ((n : ℕ) → grant n ≡ true) → F → IsFull root'.height root'.rnode

abbrev pub Inserts : (ℕ → Bool) → Type 0 → RadixRoot → ℕ → ℕ → Outcome (Bool × RadixRoot) → Type 0
Inserts grant F root q v r =
    (b : Bool) × (root' : RadixRoot) × (r ≡ done (b, root')) × IsInserted grant F root q v b root'

pub and_false : (b : Bool) → (b && false) ≡ false
and_false true = refl
and_false false = refl

pub view_grown :
    (h p q : ℕ) (w : Option ℕ) (b : Bool) (t t' : Radix)
    → q < 16 ^ h
    → find h t' p ≡ (if b && same h p q then w else find h t p)
    → (if ltb p (16 ^ h) then find h t' p else none)
      ≡ (if b && (p == q) then w else if ltb p (16 ^ h) then find h t p else none)
view_grown h p q w b t t' hq f = elim (Bool-cases (ltb p (16 ^ h))) [
  | inl e ↦ rw e (f ∙ rw (same_lem h p q (ltb→lt _ _ e) hq))
  | inr e ↦ let away : (p == q) ≡ false = ground arith in rw (e, away, and_false b)
]

pub grow_node-Inserts :
    (grant : ℕ → Bool) (h ht c q v count : ℕ) (s : ℕ → Radix) (linked : Bool)
    → IsSlot (suc h) (branch ht c s)
    → suc h ≤ 16
    → q < 16 ^ suc h
    → (let root : RadixRoot = record {
      height = suc h;
      count = count;
      rnode = branch ht c s;
      linked = linked;
    } in
        Inserts grant (SlotsFull h (branch ht c s)) root q v (radix_tree_grow_node grant root q v))
unfolding radix_tree_grow_node view
grow_node-Inserts grant h ht c q v count s linked ok low hq =
    let (b, t', n', runs, g) = grow_node_loop-Grows grant h q v ht c s count ok in
    let inside : ltb q (16 ^ suc h) ≡ true = lt→ltb _ _ hq in
    (
      b,
      record { height = suc h; count = n'; rnode = t'; linked = linked },
      rw runs,
      record {
        valid = record {
          shape = g.shape;
          low = low;
          levels = ((λ e. absurd (omega (arith, g.there))), (λ e. absurd (omega arith)));
          lonely = λ e. absurd (omega (arith, g.there));
        };
        holds = λ p. view_grown (suc h) p q (some v) b (branch ht c s) t' hq (g.found p);
        fresh = λ e. rw inside (g.fresh e);
        serves = λ all e. g.serves all (rw inside at e);
        full = λ all f. g.full all f;
      },
    )

pub IsInserted-view :
    (grant : ℕ → Bool) (F F1 : Type 0) (root root1 : RadixRoot) (q v : ℕ) (b : Bool)
    (root' : RadixRoot)
    → ((p : ℕ) → view root1 p ≡ view root p)
    → (F → F1)
    → IsInserted grant F1 root1 q v b root'
    → IsInserted grant F root q v b root'
IsInserted-view grant F F1 root root1 q v b root' same_view same_full i = record {
  valid = i.valid;
  holds = λ p. i.holds p ∙ ap (λ z. if b && (p == q) then some v else z) (same_view p);
  fresh = λ e. sym (same_view q) ∙ i.fresh e;
  serves = λ all e. i.serves all (same_view q ∙ e);
  full = λ all f. i.full all (same_full f);
}

pub rooted-Inserts :
    (grant : ℕ → Bool) (h q v count : ℕ) (t : Radix) (linked : Bool)
    → (let root : RadixRoot = record { height = h; count = count; rnode = t; linked = linked } in
        IsRadix root
        → filled t ≡ 1
        → q < 16 ^ h
        → Inserts grant (IsFull h t) root q v (radix_tree_grow_node grant root q v))
rooted-Inserts grant zero q v count t linked ok full hq = absurd (omega (arith, ok.levels.1 refl))
rooted-Inserts grant (suc h) q v count null linked ok full hq = absurd (omega arith)
rooted-Inserts grant (suc h) q v count (item w) linked ok full hq = absurd ok.shape
rooted-Inserts grant (suc h) q v count (branch ht c s) linked ok full hq =
    let (b, root', runs, i) =
      grow_node-Inserts grant h ht c q v count s linked ok.shape ok.low hq in
    (b, root', runs, IsInserted-view grant _ _ _ _ q v b root' (λ p. refl) (λ f. f.1) i)

-- One more level on top
pub raised : RadixRoot → RadixRoot
raised root = record {
  height = suc root.height;
  count = (root.count + 1) % 2 ^ 32;
  rnode = branch (suc root.height) 1 (put (λ _. null) 0 root.rnode);
  linked = false;
}

pub raised-IsRadix :
    (root : RadixRoot)
    → IsRadix root
    → filled root.rnode ≡ 1
    → root.height < 16
    → IsRadix (raised root)
unfolding raised
raised-IsRadix root ok full low = record {
  shape =
      put-IsSlot root.height (suc root.height) 0 1 (λ _. null) 0 root.rnode
        (init-IsSlot root.height) (omega arith) ok.shape (omega (arith, full));
  low = omega arith;
  levels = ((λ e. absurd (omega arith)), (λ e. absurd (omega arith)));
  lonely = λ e. refl;
}

pub if_same {ℓ} : {A : Type ℓ} (b : Bool) (x : A) → (if b then x else x) ≡ x
if_same true x = refl
if_same false x = refl

pub view-raised : (root : RadixRoot) (p : ℕ) → view (raised root) p ≡ view root p
unfolding raised view find
view-raised root p = elim (Bool-cases (ltb p (16 ^ suc root.height))) [
  | inl e ↦ rw e (
      find-put root.height (suc root.height) 1 (λ _. null) 0 root.rnode p
      ∙ rw (top_digit root.height p (ltb→lt _ _ e)))
  | inr e ↦
      let big = sixteen_mono {i = root.height} {j = suc root.height} (omega arith) in
      let high : ltb p (16 ^ root.height) ≡ false = le→ltb _ _ (omega (arith, ltb→le _ _ e)) in
      rw (e, high)
]

-- With memory the tree grows by k levels and keeps its items.
pub grow_height_lem :
    (grant : ℕ → Bool) (k : ℕ) (root : RadixRoot)
    → ((n : ℕ) → grant n ≡ true)
    → IsRadix root
    → filled root.rnode ≡ 1
    → k + root.height ≤ 16
    → (root' : RadixRoot) × (radix_tree_grow_height grant k root ≡ (true, root'))
      × IsRadix root'
      × (filled root'.rnode ≡ 1)
      × (root'.height ≡ k + root.height)
      × ((p : ℕ) → view root' p ≡ view root p)
      × (IsFull root.height root.rnode → IsFull root'.height root'.rnode)
unfolding radix_tree_grow_height raised
grow_height_lem grant zero root all ok full low =
    (root, refl, ok, full, omega arith, (λ p. refl), (λ f. f))
grow_height_lem grant (suc k) root all ok full low =
    let (root', runs, ok', full', tall, same_view, same_full) =
      grow_height_lem grant k (raised root) all (raised-IsRadix root ok full (omega arith)) refl
        (omega arith) in
    (
      root',
      rw (all root.count, radix_tree_grow_height) runs,
      ok',
      full',
      omega arith,
      (λ p. same_view p ∙ view-raised root p),
      (λ f.
          same_full
            (omega arith, put-SlotsFull root.height (λ _. null) 0 root.rnode (λ a l. tt) f)),
    )
