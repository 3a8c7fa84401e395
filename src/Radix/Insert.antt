-- ===== src/Radix/Insert.antt =====
-- Insertion into a valid tree.
use cc_rpc.Base.{
  ℕ, zero, suc, ◌+◌, ◌-◌, ◌%◌, ◌^◌, ◌<◌, ◌≤◌, ◌≡◌, refl, sym, ap, ◌∙◌, arith, Bool, true, false,
  ◌&&◌, ◌==◌, ltb, ltb→lt, ltb→le, Bool-cases, inl, inr, none, some, done, if◌then◌else◌, ◌⊎◌,
}
use cc_rpc.Radix.{
  Radix, null, item, branch, RadixRoot, radix_tree_node_init, radix_tree_height,
  radix_tree_grow_node, radix_tree_grow_height, radix_tree_insert, insert_at,
}
use cc_rpc.Radix.Levels.{Needs, radix_tree_height-Needs, sixteen_mono}
use cc_rpc.Radix.Valid.{IsFull, SlotsFull, filled, IsRadix, view, find}
use cc_rpc.Radix.Grow.{init-IsSlot}
use cc_rpc.Radix.Raise.{
  Inserts, IsInserted-view, grow_height_lem, grow_node-Inserts, if_same, rooted-Inserts,
}

-- The memory may be refused, but not while a tree that has nodes grows in height.
abbrev pub Raises : (ℕ → Bool) → RadixRoot → ℕ → Type 0
Raises grant root q =
    filled root.rnode ≡ 1 → root.height < radix_tree_height q → (n : ℕ) → grant n ≡ true

first-Inserts :
    (grant : ℕ → Bool) (root : RadixRoot) (q v levels : ℕ)
    → root.rnode ≡ null
    → IsRadix root
    → Needs q levels
    → Inserts grant (IsFull root.height root.rnode) root q v (insert_at grant root q v levels null)
unfolding insert_at view find
first-Inserts grant root q v zero empty ok needs = absurd (omega (arith, needs.some_level))
first-Inserts grant root q v (suc h) empty ok needs = elim (Bool-cases (grant root.count)) [
  | inl granted ↦
      let new = (root.count + 1) % 2 ^ 32 in
      let (b, root', runs, i) =
        grow_node-Inserts grant h (suc h) 0 q v new (λ _. null) true (init-IsSlot h) needs.few
          needs.enough in
      (
        b,
        root',
        rw granted runs,
        IsInserted-view grant (IsFull root.height root.rnode)
            (SlotsFull h (radix_tree_node_init (suc h))) root
            (record {
              height = suc h;
              count = new;
              rnode = radix_tree_node_init (suc h);
              linked = true;
            })
            q v b root' (λ p. if_same (ltb p (16 ^ suc h)) none ∙ sym (none_view p)) (λ f o l. tt)
            i,
      )
  | inr denied ↦ (
    false,
    root,
    rw denied,
    record {
      valid = ok;
      holds = λ p. refl;
      fresh = λ e. cc;
      serves = λ all e. cc (all root.count, denied);
      full = λ all f. f;
    },
  )
]
  where
    none_view : (p : ℕ) → view root p ≡ none
    none_view p = rw empty (if_same (ltb p (16 ^ root.height)) none)

-- A tree with nodes is raised first, if it has to be.
raise_lem :
    (grant : ℕ → Bool) (root : RadixRoot) (levels : ℕ)
    → IsRadix root
    → filled root.rnode ≡ 1
    → levels ≤ 16
    → (root.height < levels → (n : ℕ) → grant n ≡ true)
    → (root' : RadixRoot) × (radix_tree_grow_height grant (levels - root.height) root
        ≡ (true, root'))
      × IsRadix root'
      × (filled root'.rnode ≡ 1)
      × (levels ≤ root'.height)
      × ((p : ℕ) → view root' p ≡ view root p)
      × (IsFull root.height root.rnode → IsFull root'.height root'.rnode)
unfolding radix_tree_grow_height
raise_lem grant root levels ok full low memory = elim (Bool-cases (ltb root.height levels)) [
  | inl e ↦
      let (root', runs, ok', full', tall, same_view, same_full) =
        grow_height_lem grant (levels - root.height) root (memory (ltb→lt _ _ e)) ok full
          (omega (arith, ltb→lt _ _ e)) in
      (root', runs, ok', full', omega (arith, ltb→lt _ _ e), same_view, same_full)
  | inr e ↦
      let flat : levels - root.height ≡ 0 = omega (arith, ltb→le _ _ e) in
      (root, rw flat, ok, full, ltb→le _ _ e, (λ p. refl), (λ f. f))
]

later-Inserts :
    (grant : ℕ → Bool) (root : RadixRoot) (q v levels : ℕ)
    → IsRadix root
    → filled root.rnode ≡ 1
    → Needs q levels
    → (root.height < levels → (n : ℕ) → grant n ≡ true)
    → Inserts grant (IsFull root.height root.rnode) root q v (
        let (okay, grown) = radix_tree_grow_height grant (levels - root.height) root in
        if okay then radix_tree_grow_node grant grown q v else done (false, grown))
later-Inserts grant root q v levels ok full needs memory =
    let (high, raises, ok', full', tall, same_view, same_full) =
      raise_lem grant root levels ok full needs.few memory in
    let wide = sixteen_mono {i = levels} {j = high.height} tall in
    let (b, root', runs, i) =
      rooted-Inserts grant high.height q v high.count high.rnode high.linked ok' full'
        (omega (arith, wide, needs.enough)) in
    (
      b,
      root',
      rw raises runs,
      IsInserted-view grant _ _ root high q v b root' same_view same_full i,
    )

insert_at-Inserts :
    (grant : ℕ → Bool) (root : RadixRoot) (q v levels : ℕ) (node : Radix)
    → root.rnode ≡ node
    → IsRadix root
    → Needs q levels
    → (filled root.rnode ≡ 1 → root.height < levels → (n : ℕ) → grant n ≡ true)
    → Inserts grant (IsFull root.height root.rnode) root q v (insert_at grant root q v levels node)
unfolding insert_at
insert_at-Inserts grant root q v levels null e ok needs memory =
    first-Inserts grant root q v levels e ok needs
insert_at-Inserts grant root q v levels (item w) e ok needs memory =
    later-Inserts grant root q v levels ok (ap filled e) needs (memory (ap filled e))
insert_at-Inserts grant root q v levels (branch ht c s) e ok needs memory =
    later-Inserts grant root q v levels ok (ap filled e) needs (memory (ap filled e))

-- Into a valid tree, and an index of 64 bits.
pub radix_tree_insert-Inserts :
    (grant : ℕ → Bool) (root : RadixRoot) (q v : ℕ)
    → IsRadix root
    → q < 2 ^ 64
    → Raises grant root q
    → Inserts grant (IsFull root.height root.rnode) root q v (radix_tree_insert grant root q v)
unfolding radix_tree_insert
radix_tree_insert-Inserts grant root q v ok hq memory =
    insert_at-Inserts grant root q v (radix_tree_height q) root.rnode refl ok
      (radix_tree_height-Needs q hq) memory

-- On a valid tree and an index of 64 bits, with memory refused anywhere but where a tree that has
-- nodes grows in height, radix_tree_insert returns 0 or -1 with a valid tree; the lookup map is as
-- before, but for the new item at the index if it returned 0; and it returns 0 only at an index that
-- had no item.
pub radix_tree_insert_lem :
    (grant : ℕ → Bool) (root : RadixRoot) (q v : ℕ)
    → IsRadix root
    → q < 2 ^ 64
    → Raises grant root q
    → (b : Bool) × (root' : RadixRoot) × (radix_tree_insert grant root q v ≡ done (b, root'))
      × IsRadix root'
      × ((p : ℕ) → view root' p ≡ (if b && (p == q) then some v else view root p))
      × ((b ≡ false) ⊎ (view root q ≡ none))
radix_tree_insert_lem grant root q v ok hq memory =
    let (b, root', runs, i) = radix_tree_insert-Inserts grant root q v ok hq memory in
    (
      b,
      root',
      runs,
      i.valid,
      i.holds,
      (elim (Bool-cases b) [ inl e ↦ inr (i.fresh e) | inr e ↦ inl e ]),
    )
