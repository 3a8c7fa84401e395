-- ===== src/Radix/Grow.antt =====
-- The walk of an insertion below a valid node.
use cc_rpc.Base.{
  ℕ, zero, suc, ◌+◌, ◌%◌, ◌^◌, ◌<◌, ◌≡◌, refl, sym, ap, ◌∙◌, subst, arith, Bool, true, false, ◌&&◌,
  ◌==◌, ==_iff, Bool-cases, inl, inr, Option, none, some, Outcome, done, if◌then◌else◌,
}
use cc_rpc.Radix.{
  Radix, null, item, branch, put, offset_at, grow_slot, fill_slot, grow_node_loop,
  radix_tree_node_init,
}
use cc_rpc.Radix.Digits.{offset_at_lt, same}
use cc_rpc.Radix.Valid.{
  IsFull, SlotsFull, filled-le-used, put-SlotsFull, IsFull-SlotsFull, filled, IsSlot, find, used_le,
  used-put, find-put,
}

-- A slot is written, and the count is corrected.
pub put-IsSlot :
    (h ht c c' : ℕ) (s : ℕ → Radix) (o : ℕ) (u : Radix)
    → IsSlot (suc h) (branch ht c s)
    → o < 16
    → IsSlot h u
    → c' + filled (s o) ≡ c + filled u
    → IsSlot (suc h) (branch ht c' (put s o u))
put-IsSlot h ht c c' s o u (tall, counted, below) ho hu e = (
  tall,
  omega (arith, used-put 16 s o u ho),
  (λ a ha. elim (Bool-cases (a == o)) [ inl f ↦ rw f hu | inr f ↦ rw f (below a ha) ]),
)

choose :
    (d b m : Bool) (x w z : Option ℕ)
    → (d ≡ true → x ≡ (if b && m then w else z))
    → (if d then x else z) ≡ (if b && (d && m) then w else z)
choose true b m x w z f = f refl
choose false true m x w z f = refl
choose false false m x w z f = refl

-- A lookup after the write of the slot of q: what holds of the new subtree holds of the node.
pub find-put_same :
    (h ht c ht' c' : ℕ) (s : ℕ → Radix) (q : ℕ) (u : Radix) (b : Bool) (w : Option ℕ)
    → ((p : ℕ) → find h u p ≡ (if b && same h p q then w else find h (s (offset_at h q)) p))
    → (p : ℕ)
    → find (suc h) (branch ht' c' (put s (offset_at h q) u)) p
      ≡ (if b && same (suc h) p q then w else find (suc h) (branch ht c s) p)
unfolding find same
find-put_same h ht c ht' c' s q u b w f p =
    let o = offset_at h q in
    find-put h ht' c' s o u p
    ∙ choose (offset_at h p == o) b (same h p q) (find h u p) w (find h (s (offset_at h p)) p) (λ e.
      f p ∙ ap (λ a. if b && same h p q then w else find h (s a) p) (sym ((==_iff _ _).0 e)))

pub record IsGrown (grant : ℕ → Bool) (h q v : ℕ) (t : Radix) (b : Bool) (t' : Radix) : Type 0 where
  pub shape : IsSlot (suc h) t'
  pub there : filled t' ≡ 1
  pub found :
      (p : ℕ) → find (suc h) t' p ≡ (if b && same (suc h) p q then some v else find (suc h) t p)
  pub fresh : b ≡ true → find (suc h) t q ≡ none
  pub serves : ((n : ℕ) → grant n ≡ true) → find (suc h) t q ≡ none → b ≡ true
  pub full : ((n : ℕ) → grant n ≡ true) → SlotsFull h t → IsFull (suc h) t'

abbrev pub Grows : (ℕ → Bool) → ℕ → ℕ → ℕ → Radix → Outcome (Bool × Radix × ℕ) → Type 0
Grows grant h q v t r =
    (b : Bool) × (t' : Radix) × (n' : ℕ) × (r ≡ done (b, t', n')) × IsGrown grant h q v t b t'

fill_slot-Grows :
    (grant : ℕ → Bool) (q v ht c : ℕ) (s : ℕ → Radix) (n : ℕ)
    → IsSlot 1 (branch ht c s)
    → (u : Radix) → s (offset_at 0 q) ≡ u
    → Grows grant 0 q v (branch ht c s) (fill_slot v ht c s (offset_at 0 q) n u)
unfolding fill_slot find same
fill_slot-Grows grant q v ht c s n ok null e =
    let o = offset_at 0 q in
    let small : (c + 1) % 2 ^ 32 ≡ c + 1 = omega (arith, used_le 16 s, ok.1) in
    (
      true,
      _,
      n,
      refl,
      record {
        shape =
            put-IsSlot 0 ht c ((c + 1) % 2 ^ 32) s o (item v) ok (offset_at_lt 0 q) tt
              (rw (e, small) (omega arith));
        there = refl;
        found = find-put_same 0 ht c ht ((c + 1) % 2 ^ 32) s q (item v) true (some v) (λ p. refl);
        fresh = λ _. ap (λ u. find 0 u q) e;
        serves = λ _ _. refl;
        full = λ _ f. (omega (arith, small), put-SlotsFull 0 s o (item v) f tt);
      },
    )
fill_slot-Grows grant q v ht c s n ok (item w) e = (
  false,
  _,
  n,
  refl,
  record {
    shape = ok;
    there = refl;
    found = λ p. refl;
    fresh = λ f. cc;
    serves = λ _ f.
        let full : find 1 (branch ht c s) q ≡ some w = ap (λ u. find 0 u q) e in cc (full, f);
    full = λ _ f. (
      omega (arith, ok.1, filled-le-used 16 s (offset_at 0 q) (offset_at_lt 0 q), ap filled e),
      f,
    );
  },
)
fill_slot-Grows grant q v ht c s n ok (branch ht' c' s') e =
    absurd (subst (IsSlot 0) e (ok.2 (offset_at 0 q) (offset_at_lt 0 q)))

-- The subtree of the slot of q grew, and is put into the slot.
put-IsGrown :
    (grant : ℕ → Bool) (h q v ht c c' : ℕ) (s : ℕ → Radix) (u : Radix) (b : Bool) (u' : Radix)
    → IsSlot (suc (suc h)) (branch ht c s)
    → IsGrown grant h q v u b u'
    → ((p : ℕ) → find (suc h) u p ≡ find (suc h) (s (offset_at (suc h) q)) p)
    → c' + filled (s (offset_at (suc h) q)) ≡ c + 1
    → (SlotsFull (suc h) (branch ht c s) → SlotsFull h u)
    → IsGrown grant (suc h) q v (branch ht c s) b (branch ht c' (put s (offset_at (suc h) q) u'))
unfolding find
put-IsGrown grant h q v ht c c' s u b u' ok g alike count child =
    let o = offset_at (suc h) q in
    record {
      shape =
          put-IsSlot (suc h) ht c c' s o u' ok (offset_at_lt (suc h) q) g.shape
            (omega (arith, g.there, count));
      there = refl;
      found =
          find-put_same (suc h) ht c ht c' s q u' b (some v)
            (λ p. g.found p ∙ ap (λ z. if b && same (suc h) p q then some v else z) (alike p));
      fresh = λ e. sym (alike q) ∙ g.fresh e;
      serves = λ all e. g.serves all (alike q ∙ e);
      full = λ all f. (
        omega (arith, count, ok.1, filled-le-used 16 s o (offset_at_lt (suc h) q)),
        put-SlotsFull (suc h) s o u' f (g.full all (child f)),
      );
    }

pub init-IsSlot : (h : ℕ) → IsSlot (suc h) (radix_tree_node_init (suc h))
init-IsSlot h = (refl, refl, λ o l. tt)

grow_slot-Grows :
    (grant : ℕ → Bool) (h q v ht c : ℕ) (s : ℕ → Radix) (n : ℕ)
    → IsSlot (suc (suc h)) (branch ht c s)
    → ((ht' c' : ℕ) (s' : ℕ → Radix) (k : ℕ)
        → IsSlot (suc h) (branch ht' c' s')
        → Grows grant h q v (branch ht' c' s') (grow_node_loop grant h q v (branch ht' c' s') k))
    → (u : Radix) → s (offset_at (suc h) q) ≡ u
    → Grows grant
        (suc h)
        q
        v
        (branch ht c s)
        (grow_slot grant (grow_node_loop grant h q v) (suc h) ht c s (offset_at (suc h) q) n u)
unfolding grow_slot find
grow_slot-Grows grant h q v ht c s n ok ih null e = elim (Bool-cases (grant n)) [
  | inl granted ↦
      let (b, u', n', runs, g) = ih (suc h) 0 (λ _. null) ((n + 1) % 2 ^ 32) (init-IsSlot h) in
      let small : (c + 1) % 2 ^ 32 ≡ c + 1 = omega (arith, used_le 16 s, ok.1) in
      (
        b,
        _,
        n',
        rw (granted, runs),
        put-IsGrown grant h q v ht c ((c + 1) % 2 ^ 32) s (radix_tree_node_init (suc h)) b u' ok g
            (λ p. sym (ap (λ z. find (suc h) z p) e)) (rw (e, small) (omega arith)) (λ f o l. tt),
      )
  | inr denied ↦ (
    false,
    branch ht c s,
    n,
    rw denied,
    record {
      shape = ok;
      there = refl;
      found = λ p. refl;
      fresh = λ f. cc;
      serves = λ all f. cc (all n, denied);
      full = λ all f. absurd (cc (all n, denied));
    },
  )
]
grow_slot-Grows grant h q v ht c s n ok ih (item w) e =
    absurd (subst (IsSlot (suc h)) e (ok.2 (offset_at (suc h) q) (offset_at_lt (suc h) q)))
grow_slot-Grows grant h q v ht c s n ok ih (branch ht' c' s') e =
    let o = offset_at (suc h) q in
    let (b, u', n', runs, g) =
      ih ht' c' s' n (subst (IsSlot (suc h)) e (ok.2 o (offset_at_lt (suc h) q))) in
    (
      b,
      _,
      n',
      rw runs,
      put-IsGrown grant h q v ht c c s (branch ht' c' s') b u' ok g
          (λ p. ap (λ z. find (suc h) z p) (sym e)) (rw e)
          (λ f.
            IsFull-SlotsFull h (branch ht' c' s')
              (subst (IsFull (suc h)) e (f o (offset_at_lt (suc h) q)))),
    )

-- Below a valid node the walk returns, with or without memory; it puts the item in its place, and
-- nowhere else, or leaves what is found as it was.
pub grow_node_loop-Grows :
    (grant : ℕ → Bool) (h q v ht c : ℕ) (s : ℕ → Radix) (n : ℕ)
    → IsSlot (suc h) (branch ht c s)
    → Grows grant h q v (branch ht c s) (grow_node_loop grant h q v (branch ht c s) n)
unfolding grow_node_loop
grow_node_loop-Grows grant zero q v ht c s n ok =
    fill_slot-Grows grant q v ht c s n ok (s (offset_at 0 q)) refl
grow_node_loop-Grows grant (suc h) q v ht c s n ok =
    grow_slot-Grows grant h q v ht c s n ok
      (λ ht' c' s' k l. grow_node_loop-Grows grant h q v ht' c' s' k l) (s (offset_at (suc h) q))
      refl
