-- ===== src/Radix/Bound.antt =====
-- The search for the least index from a bound on, in a valid tree without an empty node.
use cc_rpc.Base.{
  ℕ, zero, suc, ◌+◌, ◌-◌, ◌*◌, ◌%◌, ◌^◌, ◌<◌, ◌≤◌, ◌≡◌, refl, sym, ap, ◌∙◌, subst, arith, ◌==◌,
  ==_iff, ltb, ltb→lt, ltb→le, Bool-cases, inl, inr, ◌⊎◌, Option, none, some, done,
}
use native.Mathlib.Nat.{mod-eq_of_lt, mul-add-div, div-eq_of_lt, mul-add-mod_self_left}
use cc_rpc.Radix.{Radix, null, item, branch, offset_at, first_slot, or_slot, radix_tree_node_left}
use cc_rpc.Radix.Digits.{same-mod, power_pos, sixteen}
use cc_rpc.Radix.Valid.{filled, find}
use cc_rpc.Radix.Lookup.{find-same}

-- Below the limit n, the least index from m on that f has an item for is that of r.
abbrev pub Least : (ℕ → Option ℕ) → ℕ → ℕ → Option ℕ → Type 0
Least f n m none = (p : ℕ) → m ≤ p → p < n → f p ≡ none
Least f n m (some v) =
    (p : ℕ) × (m ≤ p) × (p < n) × (f p ≡ some v) × ((p' : ℕ) → m ≤ p' → p' < p → f p' ≡ none)

-- Nothing between m' and m
pub widen :
    (f : ℕ → Option ℕ) (n m m' : ℕ) (r : Option ℕ)
    → m ≤ n
    → ((p : ℕ) → m' ≤ p → p < m → f p ≡ none)
    → Least f n m r
    → m' ≤ m
    → Least f n m' r
widen f n m m' none hn blank l le = λ p lo hi. elim (Bool-cases (ltb p m)) [
  | inl e ↦ blank p lo (ltb→lt _ _ e)
  | inr e ↦ l p (ltb→le _ _ e) hi
]
widen f n m m' (some v) hn blank (p, lo, hi, found, least) le = (
  p,
  omega arith,
  hi,
  found,
  (λ p' lo' hi'. elim (Bool-cases (ltb p' m)) [
    | inl e ↦ blank p' lo' (ltb→lt _ _ e)
    | inr e ↦ least p' (ltb→le _ _ e) hi'
  ]),
)

-- An index with the digit a in front of p
front_digit : (h a p : ℕ) → a < 16 → p < 16 ^ h → offset_at h (16 ^ h * a + p) ≡ a
front_digit h a p ha hp =
    ap (λ n. n % 16) (mul-add-div (power_pos h) a p ∙ rw (div-eq_of_lt hp) (omega arith))
    ∙ mod-eq_of_lt ha

rest_digits : (h a p : ℕ) → p < 16 ^ h → (16 ^ h * a + p) % 16 ^ h ≡ p
rest_digits h a p hp = mul-add-mod_self_left (16 ^ h) a p ∙ mod-eq_of_lt hp

find_below :
    (h ht c : ℕ) (s : ℕ → Radix) (a p : ℕ)
    → a < 16
    → p < 16 ^ h
    → find (suc h) (branch ht c s) (16 ^ h * a + p) ≡ find h (s a) p
unfolding find
find_below h ht c s a p ha hp =
    ap (λ o. find h (s o) (16 ^ h * a + p)) (front_digit h a p ha hp)
    ∙ find-same h (s a) (16 ^ h * a + p) p
        ((same-mod h _ _).1 (rest_digits h a p hp ∙ sym (mod-eq_of_lt hp)))

-- What the slot a holds, seen from the node
pub inside :
    (h ht c : ℕ) (s : ℕ → Radix) (a lo hi : ℕ)
    → a < 16
    → ((p : ℕ) → lo ≤ p → p < hi → find h (s a) p ≡ none)
    → hi ≤ 16 ^ h
    → (p : ℕ) → 16 ^ h * a + lo ≤ p
    → p < 16 ^ h * a + hi
    → find (suc h) (branch ht c s) p ≡ none
inside h ht c s a lo hi ha blank top p from to =
    let q = p - 16 ^ h * a in
    let whole : p ≡ 16 ^ h * a + q = omega arith in
    ap (find (suc h) (branch ht c s)) whole
    ∙ find_below h ht c s a q ha (omega arith)
    ∙ blank q (omega arith) (omega arith)

pub place :
    (h ht c : ℕ) (s : ℕ → Radix) (a m v : ℕ)
    → a < 16
    → Least (find h (s a)) (16 ^ h) m (some v)
    → Least (find (suc h) (branch ht c s)) (16 ^ suc h) (16 ^ h * a + m) (some v)
place h ht c s a m v ha (p, lo, hi, found, least) =
    let room : 16 ^ h * a + 16 ^ h ≤ 16 ^ suc h = grind (arith, sixteen h) in
    (
      16 ^ h * a + p,
      omega arith,
      omega arith,
      find_below h ht c s a p ha hi ∙ found,
      inside h ht c s a m p ha least (omega arith),
    )

-- The item at the least index of a subtree
abbrev pub Leftmost : ℕ → Radix → Type 0
Leftmost h t =
    (v : ℕ) × (radix_tree_node_left h t ≡ done (some v)) × Least (find h t) (16 ^ h) 0 (some v)

-- What the slots from o on come to
abbrev pub Slots : ℕ → ℕ → ℕ → (ℕ → Radix) → ℕ → Radix → Type 0
Slots h ht c s o t =
    ((filled t ≡ 0)
      × Least (find (suc h) (branch ht c s)) (16 ^ suc h) (16 ^ h * o) none
      × ((a : ℕ) → o ≤ a → a < 16 → filled (s a) ≡ 0))
    ⊎ ((v : ℕ) × (filled t ≡ 1)
        × (radix_tree_node_left h t ≡ done (some v))
        × Least (find (suc h) (branch ht c s)) (16 ^ suc h) (16 ^ h * o) (some v))

pub room : (h a : ℕ) → a < 16 → 16 ^ h * a + 16 ^ h ≤ 16 ^ suc h
room h a ha = grind (arith, sixteen h)

taken_slot :
    (h ht c : ℕ) (s : ℕ → Radix) (o : ℕ) (u : Radix)
    → o < 16
    → s o ≡ u
    → filled u ≡ 1
    → Leftmost h u
    → Slots h ht c s o u
taken_slot h ht c s o u ho e full (v, runs, least) = inr (
  v,
  full,
  runs,
  subst (λ m. Least (find (suc h) (branch ht c s)) (16 ^ suc h) m (some v)) (omega arith)
      (place h ht c s o 0 v ho (subst (λ t. Least (find h t) (16 ^ h) 0 (some v)) (sym e) least)),
)

blank_slot :
    (h ht c : ℕ) (s : ℕ → Radix) (o : ℕ) (t : Radix)
    → o < 16
    → s o ≡ null
    → Slots h ht c s (o + 1) t
    → Slots h ht c s o t
unfolding find
blank_slot h ht c s o t ho e rest =
    let f = find (suc h) (branch ht c s) in
    let step : 16 ^ h * (o + 1) ≡ 16 ^ h * o + 16 ^ h = omega arith in
    let bound : 16 ^ h * (o + 1) ≤ 16 ^ suc h = omega (arith, room h o ho) in
    let skip : (p : ℕ) → 16 ^ h * o ≤ p → p < 16 ^ h * (o + 1) → f p ≡ none = λ p lo hi.
      inside h ht c s o 0 (16 ^ h) ho (λ q _ _. ap (λ t. find h t q) e) (omega arith) p
        (omega arith) (omega arith) in
    elim rest [
      | inl (null_end, l, blank) ↦ inl (
        null_end,
        widen f (16 ^ suc h) (16 ^ h * (o + 1)) (16 ^ h * o) none bound skip l (omega arith),
        (λ a lo hi. elim (Bool-cases (a == o)) [
          | inl same_a ↦ ap (λ x. filled (s x)) ((==_iff a o).0 same_a) ∙ ap filled e
          | inr other ↦ blank a (ground arith) hi
        ]),
      )
      | inr (v, full, runs, l) ↦ inr (
        v,
        full,
        runs,
        widen f (16 ^ suc h) (16 ^ h * (o + 1)) (16 ^ h * o) (some v) bound skip l (omega arith),
      )
    ]

first_slot_at :
    (h ht c : ℕ) (s : ℕ → Radix) (o : ℕ) (t : Radix)
    → o < 16
    → ((u : Radix) → s o ≡ u → filled u ≡ 1 → Leftmost h u)
    → Slots h ht c s (o + 1) t
    → (u : Radix) → s o ≡ u
    → Slots h ht c s o (or_slot t u)
first_slot_at h ht c s o t ho left rest null e = blank_slot h ht c s o t ho e rest
first_slot_at h ht c s o t ho left rest (item v) e =
    taken_slot h ht c s o (item v) ho e refl (left _ e refl)
first_slot_at h ht c s o t ho left rest (branch ht' c' s') e =
    taken_slot h ht c s o (branch ht' c' s') ho e refl (left _ e refl)

pub first_slot-Slots :
    (h ht c : ℕ) (s : ℕ → Radix)
    → ((o : ℕ) → o < 16 → (u : Radix) → s o ≡ u → filled u ≡ 1 → Leftmost h u)
    → (k o : ℕ) → k + o ≡ 16
    → Slots h ht c s o (first_slot k s o)
unfolding first_slot
first_slot-Slots h ht c s left zero o e =
    let over : 16 ^ suc h ≤ 16 ^ h * o = grind (arith, sixteen h) in
    inl (refl, (λ p lo hi. absurd (omega arith)), (λ a lo hi. absurd (omega arith)))
first_slot-Slots h ht c s left (suc k) o e =
    first_slot_at h ht c s o (first_slot k s (o + 1)) (omega arith) (left o (omega arith))
      (first_slot-Slots h ht c s left k (o + 1) (omega arith)) (s o) refl
