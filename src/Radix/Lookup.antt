-- ===== src/Radix/Lookup.antt =====
-- What a lookup finds, for an index of any size, and after a refusal of memory.
use cc_rpc.Base.{
  ℕ, zero, suc, ◌+◌, ◌-◌, ◌*◌, ◌/◌, ◌%◌, ◌^◌, ◌<◌, ◌≡◌, refl, sym, ap, ◌∙◌, arith, Bool, true,
  false, ==_iff, ltb, lt→ltb, Bool-cases, inl, inr, Option, none, some, done, fault,
}
use native.Mathlib.Nat.{div-div-eq-div-mul, mod-lt, mod-mod}
use cc_rpc.Radix.{
  Radix, null, item, branch, RadixRoot, offset_at, lookup_loop, radix_tree_lookup,
  radix_tree_insert, radix_tree_height, radix_tree_grow_height, insert_at,
}
use cc_rpc.Radix.Digits.{same, same-mod, and_left, and_right, power_pos, sixteen}
use cc_rpc.Radix.Valid.{filled, IsRadix, view, find, lookup_loop-find}

pub find-same : (h : ℕ) (t : Radix) (p q : ℕ) → same h p q ≡ true → find h t p ≡ find h t q
unfolding find same
find-same h null p q e = refl
find-same zero (item v) p q e = refl
find-same zero (branch ht c s) p q e = refl
find-same (suc h) (item v) p q e = refl
find-same (suc h) (branch ht c s) p q e =
    let digit : offset_at h p ≡ offset_at h q = (==_iff _ _).0 (and_left _ _ e) in
    ap (λ o. find h (s o) p) digit ∙ find-same h (s (offset_at h q)) p q (and_right _ _ e)

pub find-mod : (h : ℕ) (t : Radix) (p : ℕ) → find h t (p % 16 ^ h) ≡ find h t p
find-mod h t p = find-same h t (p % 16 ^ h) p ((same-mod h _ _).1 (mod-mod p (16 ^ h)))

pub radix_tree_lookup_lem :
    (root : RadixRoot) (p : ℕ)
    → IsRadix root
    → radix_tree_lookup root p ≡ done (view root (p % 16 ^ root.height))
unfolding radix_tree_lookup view
radix_tree_lookup_lem root p ok =
    let inside : ltb (p % 16 ^ root.height) (16 ^ root.height) ≡ true =
      lt→ltb _ _ (mod-lt p (power_pos root.height)) in
    lookup_loop-find root.height root.rnode p ok.shape
    ∙ ap done (sym (find-mod root.height root.rnode p))
    ∙ rw inside

-- One digit more at the end
shifted_digit : (h p d : ℕ) → d < 16 → offset_at (suc h) (16 * p + d) ≡ offset_at h p
shifted_digit h p d hd =
    let tail : (16 * p + d) / 16 ≡ p = omega arith in
    ap (λ n. (16 * p + d) / n % 16) (sixteen h)
    ∙ ap (λ n. n % 16) (sym (div-div-eq-div-mul (16 * p + d) 16 (16 ^ h)))
    ∙ ap (λ n. n / 16 ^ h % 16) tail

-- A walk with one level too many reads an item as a node.
too_deep :
    (h : ℕ) (t : Radix) (p d v : ℕ)
    → d < 16
    → find h t p ≡ some v
    → lookup_loop (suc h) t (16 * p + d) ≡ fault
unfolding find lookup_loop
too_deep h null p d v hd e = cc
too_deep zero (item w) p d v hd e = refl
too_deep zero (branch ht c s) p d v hd e = cc
too_deep (suc h) (item w) p d v hd e = refl
too_deep (suc h) (branch ht c s) p d v hd e =
    ap (λ o. lookup_loop (suc h) (s o) (16 * p + d)) (shifted_digit h p d hd)
    ∙ too_deep h (s (offset_at h p)) p d v hd e

-- The height is raised before the memory is asked for.
refused_height :
    (grant : ℕ → Bool) (n k : ℕ) (root : RadixRoot)
    → n ≡ suc k
    → grant root.count ≡ false
    → radix_tree_grow_height grant n root ≡ (false, record root { height = suc root.height })
unfolding radix_tree_grow_height
refused_height grant n k root e denied = rw e (rw (denied, radix_tree_grow_height))

refused_at :
    (grant : ℕ → Bool) (root : RadixRoot) (q v levels : ℕ) (node : Radix)
    → filled node ≡ 1
    → grant root.count ≡ false
    → root.height < levels
    → insert_at grant root q v levels node ≡ done (false, record root { height = suc root.height })
unfolding insert_at
refused_at grant root q v levels null full denied short = absurd (omega arith)
refused_at grant root q v levels (item w) full denied short = rw (
    refused_height grant (levels - root.height) (levels - root.height - 1) root (omega arith)
      denied)
refused_at grant root q v levels (branch ht c s) full denied short = rw (
    refused_height grant (levels - root.height) (levels - root.height - 1) root (omega arith)
      denied)

none-some : (w : ℕ) → ◌≡◌ {A = Option ℕ} none (some w) → ⊥
none-some w e = cc

-- If a tree with nodes has to grow in height for an index and memory is refused, radix_tree_insert
-- returns -1, but from then on a lookup at 16 p + d, for any p that has an item and d below 16,
-- reads that item as a node.
pub radix_tree_insert_refused :
    (grant : ℕ → Bool) (root : RadixRoot) (q v p w d : ℕ)
    → filled root.rnode ≡ 1
    → grant root.count ≡ false
    → root.height < radix_tree_height q
    → view root p ≡ some w
    → d < 16
    → (root' : RadixRoot) × (radix_tree_insert grant root q v ≡ done (false, root'))
      × (radix_tree_lookup root' (16 * p + d) ≡ fault)
unfolding radix_tree_insert radix_tree_lookup view
radix_tree_insert_refused grant root q v p w d full denied short known hd = (
  record root { height = suc root.height },
  refused_at grant root q v (radix_tree_height q) root.rnode full denied short,
  elim (Bool-cases (ltb p (16 ^ root.height))) [
    | inl e ↦ too_deep root.height root.rnode p d w hd (rw e at known)
    | inr e ↦ absurd (none-some w (rw e at known))
  ],
)
