-- ===== src/HashMap/Chain.antt =====
-- The walks along one bucket: what each finds, and what is found afterwards.
use cc_rpc.Base.{
  suc, ◌≡◌, refl, sym, ap, ◌∙◌, arith, List, [], ◌∷◌, true, false, none, some, length,
  if◌then◌else◌, ◌⊎◌, inl, inr, Bool-cases,
}
use cc_rpc.HashMap.{HashKey, chain_find, chain_assign, chain_remove}

module _ {ℓ} {K : Type ℓ} ⦃key : HashKey K⦄ where
  pub key_equal_refl : (k : K) → key.key_equal k k ≡ true
  key_equal_refl k = (key.key_equal_iff k k).1 refl

  -- Tests against equal keys agree.
  pub key_equal_congr :
      (a b q : K) → key.key_equal a b ≡ true → key.key_equal a q ≡ key.key_equal b q
  key_equal_congr a b q h = ap (λ x. key.key_equal x q) ((key.key_equal_iff a b).0 h)

  pub key_equal_apart :
      (a b q : K) → key.key_equal a b ≡ false → key.key_equal a q ≡ true → key.key_equal b q ≡ false
  key_equal_apart a b q h e = elim (Bool-cases (key.key_equal b q)) [
    | inl t ↦
        let same : a ≡ b = (key.key_equal_iff a q).0 e ∙ sym ((key.key_equal_iff b q).0 t) in
        cc (h, (key.key_equal_iff a b).1 same)
    | inr f ↦ f
  ]

module _ {ℓ} {K V : Type ℓ} ⦃key : HashKey K⦄ where
  -- No key stands twice in a bucket.
  abbrev pub HasUniqueKeys : List (K × V) → Type ℓ
  HasUniqueKeys [] = Unit
  HasUniqueKeys (e ∷ c) = (chain_find e.0 c ≡ none) × HasUniqueKeys c

  -- The bucket `c'` is `c` with the value of `k` replaced.
  pub record Assigned (k : K) (v : V) (c c' : List (K × V)) : Type ℓ where
    pub assigned : chain_assign k v c ≡ some c'
    pub old : V
    pub had : chain_find k c ≡ some old
    pub finds : (q : K) → chain_find q c' ≡ (if key.key_equal k q then some v else chain_find q c)
    pub unique : HasUniqueKeys c → HasUniqueKeys c'
    pub size : length c' ≡ length c

  -- The bucket `c'` is `c` without the entry of `k`.
  pub record Removed (k : K) (c c' : List (K × V)) : Type ℓ where
    pub removed : chain_remove k c ≡ some c'
    pub old : V
    pub had : chain_find k c ≡ some old
    pub finds :
        HasUniqueKeys c
        → (q : K) → chain_find q c' ≡ (if key.key_equal k q then none else chain_find q c)
    pub unique : HasUniqueKeys c → HasUniqueKeys c'
    pub size : length c ≡ suc (length c')

  assign_here :
      (k : K) (v : V) (e : K × V) (c : List (K × V))
      → key.key_equal e.0 k ≡ true
      → Assigned k v (e ∷ c) ((e.0, v) ∷ c)
  unfolding chain_find chain_assign
  assign_here k v e c same = record {
    assigned = rw same refl;
    old = e.1;
    had = rw same refl;
    finds = λ q. ground (arith, key_equal_congr e.0 k q same);
    unique = λ u. u;
    size = refl;
  }

  assign_later :
      (k : K) (v : V) (e : K × V) (c c' : List (K × V))
      → key.key_equal e.0 k ≡ false
      → Assigned k v c c'
      → Assigned k v (e ∷ c) (e ∷ c')
  unfolding chain_find chain_assign
  assign_later k v e c c' other a = record {
    assigned = rw (other, a.assigned) refl;
    old = a.old;
    had = rw other a.had;
    finds = λ q. ground (arith, a.finds q, key_equal_apart e.0 k q other);
    unique = λ u. (
      ground (arith, a.finds e.0, key_equal_apart e.0 k e.0 other, key_equal_refl e.0, u.0),
      a.unique u.1,
    );
    size = ap suc a.size;
  }

  pub chain_assign-cases :
      (k : K) (v : V) (c : List (K × V))
      → ((chain_find k c ≡ none) × (chain_assign k v c ≡ none))
        ⊎ ((c' : List (K × V)) × Assigned k v c c')
  unfolding chain_find chain_assign
  chain_assign-cases k v [] = inl (refl, refl)
  chain_assign-cases k v (e ∷ c) = elim (Bool-cases (key.key_equal e.0 k)) [
    | inl same ↦ inr ((e.0, v) ∷ c, assign_here k v e c same)
    | inr other ↦ elim (chain_assign-cases k v c) [
      | inl (f, a) ↦ inl (rw (other, f) refl, rw (other, a) refl)
      | inr (c', a) ↦ inr (e ∷ c', assign_later k v e c c' other a)
    ]
  ]

  remove_here :
      (k : K) (e : K × V) (c : List (K × V)) → key.key_equal e.0 k ≡ true → Removed k (e ∷ c) c
  unfolding chain_find chain_remove
  remove_here k e c same = record {
    removed = rw same refl;
    old = e.1;
    had = rw same refl;
    finds = λ u q. elim (Bool-cases (key.key_equal k q)) [
      | inl t ↦ rw (t, ← (key.key_equal_iff k q).0 t, ← (key.key_equal_iff e.0 k).0 same) u.0
      | inr f ↦ rw (key_equal_congr e.0 k q same, f) refl
    ];
    unique = λ u. u.1;
    size = refl;
  }

  remove_later :
      (k : K) (e : K × V) (c c' : List (K × V))
      → key.key_equal e.0 k ≡ false
      → Removed k c c'
      → Removed k (e ∷ c) (e ∷ c')
  unfolding chain_find chain_remove
  remove_later k e c c' other a = record {
    removed = rw (other, a.removed) refl;
    old = a.old;
    had = rw other a.had;
    finds = λ u q. ground (arith, a.finds u.1 q, key_equal_apart e.0 k q other);
    unique = λ u. (ground (arith, a.finds u.1 e.0, u.0), a.unique u.1);
    size = ap suc a.size;
  }

  pub chain_remove-cases :
      (k : K) (c : List (K × V))
      → ((chain_find k c ≡ none) × (chain_remove k c ≡ none))
        ⊎ ((c' : List (K × V)) × Removed k c c')
  unfolding chain_find chain_remove
  chain_remove-cases k [] = inl (refl, refl)
  chain_remove-cases k (e ∷ c) = elim (Bool-cases (key.key_equal e.0 k)) [
    | inl same ↦ inr (c, remove_here k e c same)
    | inr other ↦ elim (chain_remove-cases k c) [
      | inl (f, a) ↦ inl (rw (other, f) refl, rw (other, a) refl)
      | inr (c', a) ↦ inr (e ∷ c', remove_later k e c c' other a)
    ]
  ]
