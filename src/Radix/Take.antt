-- ===== src/Radix/Take.antt =====
-- The walk of a removal, and the climb that frees what is empty.
use cc_rpc.Base.{
  ℕ, zero, suc, ◌+◌, ◌-◌, ◌%◌, ◌^◌, ◌<◌, ◌≤◌, ◌≡◌, refl, sym, ap, ◌∙◌, subst, arith, Bool, true,
  false, ◌&&◌, ==_iff, Bool-cases, inl, inr, Option, none, some, Outcome, done, if◌then◌else◌,
}
use cc_rpc.Radix.{
  Radix, null, item, branch, put, offset_at, Removal, empty, free_empty, take_slot, delete_loop,
}
use cc_rpc.Radix.Digits.{offset_at_lt, same, and_right}
use cc_rpc.Radix.Valid.{
  IsFull, SlotsFull, filled-le-used, put-SlotsFull, SlotsFull-IsFull, filled, used_le, IsSlot, find,
}
use cc_rpc.Radix.Grow.{put-IsSlot, find-put_same}

pub find-blank : (h : ℕ) (t : Radix) (p : ℕ) → filled t ≡ 0 → find h t p ≡ none
unfolding find
find-blank h null p e = refl
find-blank h (item v) p e = absurd (omega arith)
find-blank h (branch ht c s) p e = absurd (omega arith)

pub find-empty :
    (h : ℕ) (t : Radix) (p : ℕ) → IsSlot (suc h) t → empty t ≡ true → find (suc h) t p ≡ none
unfolding find
find-empty h null p ok e = refl
find-empty h (item v) p ok e = absurd ok
find-empty h (branch ht c s) p ok e =
    let none_left : c ≡ 0 = (==_iff c 0).0 e in
    find-blank h (s (offset_at h p)) p
      (omega (arith, ok.1, filled-le-used 16 s (offset_at h p) (offset_at_lt h p)))

-- What the removal of q makes of a subtree with h + 1 levels
pub record IsTaken (h q : ℕ) (t : Radix) (r : Removal) : Type 0 where
  pub was : find (suc h) t q ≡ some r.taken
  pub shape : IsSlot (suc h) r.left
  pub there : filled r.left ≡ 1
  pub gone : (p : ℕ) → find (suc h) r.left p ≡ (if same (suc h) p q then none else find (suc h) t p)
  pub top : empty r.left ≡ true → r.climbs ≡ true
  pub full : IsFull (suc h) t → SlotsFull h r.left

abbrev pub Taken : ℕ → ℕ → Radix → Option Removal → Type 0
Taken h q t none = find (suc h) t q ≡ none
Taken h q t (some r) = IsTaken h q t r

abbrev pub Takes : ℕ → ℕ → Radix → Outcome (Option Removal) → Type 0
Takes h q t m = (x : Option Removal) × (m ≡ done x) × Taken h q t x

pub less_one : (c : ℕ) → 0 < c → c ≤ 16 → (c + 2 ^ 32 - 1) % 2 ^ 32 + 1 ≡ c
less_one c pos small = omega arith

pub take_slot-Takes :
    (q ht c : ℕ) (s : ℕ → Radix)
    → IsSlot 1 (branch ht c s)
    → (u : Radix) → s (offset_at 0 q) ≡ u
    → Takes 0 q (branch ht c s) (take_slot ht c s (offset_at 0 q) u)
unfolding take_slot find same
take_slot-Takes q ht c s ok null e = (none, refl, ap (λ z. find 0 z q) e)
take_slot-Takes q ht c s ok (item v) e =
    let o = offset_at 0 q in
    let c' = (c + 2 ^ 32 - 1) % 2 ^ 32 in
    let full : filled (s o) ≡ 1 = ap filled e in
    let less =
      less_one c (omega (arith, full, filled-le-used 16 s o (offset_at_lt 0 q), ok.1))
        (omega (arith, ok.1, used_le 16 s)) in
    (
      some _,
      refl,
      record {
        was = ap (λ z. find 0 z q) e;
        shape = put-IsSlot 0 ht c c' s o null ok (offset_at_lt 0 q) tt (omega (arith, less, full));
        there = refl;
        gone = find-put_same 0 ht c ht c' s q null true none (λ p. refl);
        top = λ _. refl;
        full = λ f. put-SlotsFull 0 s o null f.1 tt;
      },
    )
take_slot-Takes q ht c s ok (branch ht' c' s') e =
    absurd (subst (IsSlot 0) e (ok.2 (offset_at 0 q) (offset_at_lt 0 q)))

pub found-filled : (h : ℕ) (t : Radix) (p v : ℕ) → find h t p ≡ some v → filled t ≡ 1
unfolding find
found-filled h null p v e = cc
found-filled h (item w) p v e = refl
found-filled h (branch ht c s) p v e = refl

pub not_top : (b e : Bool) → (e ≡ true → b ≡ true) → (b && e) ≡ false → e ≡ false
not_top true e f n = n
not_top false true f n = sym (f refl)
not_top false false f n = refl

pub free_empty-Takes :
    (h q ht c : ℕ) (s : ℕ → Radix)
    → IsSlot (suc (suc h)) (branch ht c s)
    → (x : Option Removal) → Taken h q (s (offset_at (suc h) q)) x
    → Takes (suc h) q (branch ht c s) (free_empty ht c s (offset_at (suc h) q) x)
unfolding free_empty find
free_empty-Takes h q ht c s ok none e = (none, refl, e)
free_empty-Takes h q ht c s ok (some r) t =
    let o = offset_at (suc h) q in
    let lt = offset_at_lt (suc h) q in
    let c' = (c + 2 ^ 32 - 1) % 2 ^ 32 in
    let full : filled (s o) ≡ 1 = found-filled (suc h) (s o) q r.taken t.was in
    let pos : 0 < c = omega (arith, full, filled-le-used 16 s o lt, ok.1) in
    let less = less_one c pos (omega (arith, ok.1, used_le 16 s)) in
    let freed : Removal = record {
      taken = r.taken;
      left = branch ht c' (put s o null);
      freed = r.freed + 1;
      climbs = true;
    } in
    let kept : Removal = record r { left = branch ht c (put s o r.left); climbs = false } in
    elim (Bool-cases (r.climbs && empty r.left)) [
      | inl e ↦ (
        some freed,
        rw e refl,
        record {
          was = t.was;
          shape = put-IsSlot (suc h) ht c c' s o null ok lt tt (omega (arith, less, full));
          there = refl;
          gone =
              find-put_same (suc h) ht c ht c' s q null true none
                (λ p. sym (find-empty h r.left p t.shape (and_right _ _ e)) ∙ t.gone p);
          top = λ _. refl;
          full = λ f. put-SlotsFull (suc h) s o null f.1 tt;
        },
      )
      | inr e ↦ (
        some kept,
        rw e refl,
        record {
          was = t.was;
          shape = put-IsSlot (suc h) ht c c s o r.left ok lt t.shape (omega (arith, full, t.there));
          there = refl;
          gone = find-put_same (suc h) ht c ht c s q r.left true none t.gone;
          top = λ f. absurd (omega (arith, pos, (==_iff c 0).0 f));
          full = λ f. put-SlotsFull (suc h) s o r.left f.1 (
              SlotsFull-IsFull h r.left (not_top r.climbs (empty r.left) t.top e)
                (t.full (f.1 o lt)));
        },
      )
    ]

pub delete_loop-Takes : (h q : ℕ) (t : Radix) → IsSlot (suc h) t → Takes h q t (delete_loop h t q)
unfolding delete_loop find
delete_loop-Takes h q null ok = (none, refl, refl)
delete_loop-Takes h q (item v) ok = absurd ok
delete_loop-Takes zero q (branch ht c s) ok = take_slot-Takes q ht c s ok (s (offset_at 0 q)) refl
delete_loop-Takes (suc h) q (branch ht c s) ok =
    let o = offset_at (suc h) q in
    let (x, runs, taken) = delete_loop-Takes h q (s o) (ok.2 o (offset_at_lt (suc h) q)) in
    rw runs (free_empty-Takes h q ht c s ok x taken)
