-- ===== src/Radix/Valid.antt =====
-- The shape of a radix tree, and the map that it stands for.
use cc_rpc.Base.{
  ℕ, zero, suc, ◌+◌, ◌^◌, ◌<◌, ◌≤◌, ◌≡◌, ◌≢◌, refl, sym, ap, ◌∙◌, arith, false, ◌==◌, ==_iff,
  Bool-cases, inl, inr, Option, none, some, done, ltb, if◌then◌else◌, if-ap,
}
use cc_rpc.Radix.{Radix, null, item, branch, RadixRoot, put, offset_at, lookup_loop, empty}
use cc_rpc.Radix.Digits.{offset_at_lt}

abbrev pub filled : Radix → ℕ
filled null = 0
filled (item v) = 1
filled (branch ht c s) = 1

-- The slots below n that are not NULL
abbrev pub used : ℕ → (ℕ → Radix) → ℕ
used zero s = 0
used (suc n) s = used n s + filled (s n)

-- What a slot above h levels may hold: `height` is where the node stands, and `count` is the number
-- of its slots that are not NULL.
abbrev pub IsSlot : ℕ → Radix → Type 0
IsSlot h null = Unit
IsSlot zero (item v) = Unit
IsSlot zero (branch ht c s) = ⊥
IsSlot (suc h) (item v) = ⊥
IsSlot (suc h) (branch ht c s) =
    (ht ≡ suc h) × (c ≡ used 16 s) × ((o : ℕ) → o < 16 → IsSlot h (s o))

-- No node is empty.
abbrev pub IsFull : ℕ → Radix → Type 0
IsFull h null = Unit
IsFull zero (item v) = Unit
IsFull zero (branch ht c s) = Unit
IsFull (suc h) (item v) = Unit
IsFull (suc h) (branch ht c s) = (0 < c) × ((o : ℕ) → o < 16 → IsFull h (s o))

-- The nodes in the slots are not empty, nor those below.
abbrev pub SlotsFull : ℕ → Radix → Type 0
SlotsFull h null = Unit
SlotsFull h (item v) = Unit
SlotsFull h (branch ht c s) = (o : ℕ) → o < 16 → IsFull h (s o)

-- The item that a walk by the digits of an index comes to
unfoldable pub find : ℕ → Radix → ℕ → Option ℕ
find h null p = none
find zero (item v) p = some v
find zero (branch ht c s) p = none
find (suc h) (item v) p = none
find (suc h) (branch ht c s) p = find h (s (offset_at h p)) p

abbrev pub IsNull : Radix → Type 0
IsNull null = Unit
IsNull (item v) = ⊥
IsNull (branch ht c s) = ⊥

-- A tree has no levels exactly when it has no node, and the root is linked to a tree that did not
-- grow.
pub record IsRadix (root : RadixRoot) : Type 0 where
  pub shape : IsSlot root.height root.rnode
  pub low : root.height ≤ 16
  pub levels : (filled root.rnode ≡ 0 → root.height ≡ 0) × (root.height ≡ 0 → filled root.rnode ≡ 0)
  pub lonely : filled root.rnode ≡ 0 → root.linked ≡ false

-- The map from indices to items
unfoldable pub view : RadixRoot → ℕ → Option ℕ
unfolding find
view root p = if ltb p (16 ^ root.height) then find root.height root.rnode p else none

pub filled_le : (t : Radix) → filled t ≤ 1
filled_le null = omega arith
filled_le (item v) = omega arith
filled_le (branch ht c s) = omega arith

pub used_le : (n : ℕ) (s : ℕ → Radix) → used n s ≤ n
used_le zero s = omega arith
used_le (suc n) s = omega (arith, used_le n s, filled_le (s n))

pub put_other : (s : ℕ → Radix) (o : ℕ) (t : Radix) (a : ℕ) → a ≢ o → put s o t a ≡ s a
put_other s o t a h = ground arith

pub put_self : (s : ℕ → Radix) (o : ℕ) (t : Radix) → put s o t o ≡ t
put_self s o t = ground arith

used-put_above : (n : ℕ) (s : ℕ → Radix) (o : ℕ) (t : Radix) → n ≤ o → used n (put s o t) ≡ used n s
used-put_above zero s o t h = refl
used-put_above (suc n) s o t h =
    rw (used-put_above n s o t (omega arith), put_other s o t n (omega arith))

pub used-put :
    (n : ℕ) (s : ℕ → Radix) (o : ℕ) (t : Radix)
    → o < n
    → used n (put s o t) + filled (s o) ≡ used n s + filled t
used-put zero s o t h = absurd (omega arith)
used-put (suc n) s o t h = elim (Bool-cases (n == o)) [
  | inl e ↦
      let here : n ≡ o = (==_iff n o).0 e in
      let new : filled (put s o t n) ≡ filled t =
        ap filled (ap (put s o t) here ∙ put_self s o t) in
      omega (arith, used-put_above n s o t (omega arith), new, ap (λ a. filled (s a)) here)
  | inr e ↦
      let away : n ≢ o = ground arith in
      omega (arith, used-put n s o t (omega arith), ap filled (put_other s o t n away))
]

-- On a valid tree the lookup makes no wrong access.
pub lookup_loop-find :
    (h : ℕ) (t : Radix) (p : ℕ) → IsSlot h t → lookup_loop h t p ≡ done (find h t p)
unfolding lookup_loop find
lookup_loop-find h null p v = refl
lookup_loop-find zero (item w) p v = refl
lookup_loop-find zero (branch ht c s) p v = absurd v
lookup_loop-find (suc h) (item w) p v = absurd v
lookup_loop-find (suc h) (branch ht c s) p (a, b, below) =
    lookup_loop-find h (s (offset_at h p)) p (below (offset_at h p) (offset_at_lt h p))

pub find-put :
    (h ht c : ℕ) (s : ℕ → Radix) (o : ℕ) (t : Radix) (p : ℕ)
    → find (suc h) (branch ht c (put s o t)) p
      ≡ (if offset_at h p == o then find h t p else find h (s (offset_at h p)) p)
unfolding find
find-put h ht c s o t p = sym (if-ap (λ u. find h u p) (offset_at h p == o) t (s (offset_at h p)))

pub filled-le-used : (n : ℕ) (s : ℕ → Radix) (o : ℕ) → o < n → filled (s o) ≤ used n s
filled-le-used zero s o h = absurd (omega arith)
filled-le-used (suc n) s o h = elim (Bool-cases (o == n)) [
  | inl e ↦ omega (arith, ap (λ a. filled (s a)) ((==_iff o n).0 e))
  | inr e ↦ let below : o < n = ground arith in omega (arith, filled-le-used n s o below)
]

pub put-SlotsFull :
    (h : ℕ) (s : ℕ → Radix) (o : ℕ) (u : Radix)
    → ((a : ℕ) → a < 16 → IsFull h (s a))
    → IsFull h u
    → (a : ℕ) → a < 16
    → IsFull h (put s o u a)
put-SlotsFull h s o u full new a ha = elim (Bool-cases (a == o)) [
  | inl f ↦ rw f new
  | inr f ↦ rw f (full a ha)
]

-- A node that has an item is not empty.
pub SlotsFull-IsFull : (h : ℕ) (t : Radix) → empty t ≡ false → SlotsFull h t → IsFull (suc h) t
SlotsFull-IsFull h null e f = tt
SlotsFull-IsFull h (item v) e f = tt
SlotsFull-IsFull h (branch ht c s) e f = let pos : 0 < c = ground arith in (pos, f)

pub IsFull-SlotsFull : (h : ℕ) (t : Radix) → IsFull (suc h) t → SlotsFull h t
IsFull-SlotsFull h null f = tt
IsFull-SlotsFull h (item v) f = tt
IsFull-SlotsFull h (branch ht c s) f = f.1
