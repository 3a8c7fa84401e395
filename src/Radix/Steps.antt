-- ===== src/Radix/Steps.antt =====
-- Any sequence of insertions and removals, against a map from indices to items.
use cc_rpc.Base.{
  ◌%◌, ◌⊎◌, inl, inr, ltb→lt, ltb→le, Bool-cases, ℕ, ◌^◌, ◌<◌, ◌≤◌, ◌≡◌, refl, sym, ap, ◌∙◌, subst,
  arith, Bool, true, false, ◌&&◌, ◌==◌, ltb, le→ltb, Option, none, some, done, if◌then◌else◌,
}
use cc_rpc.Radix.{
  RadixRoot, radix_tree_init, radix_tree_insert, radix_tree_delete, radix_tree_lookup,
}
use cc_rpc.Radix.Valid.{IsFull, IsRadix, view, find}
use cc_rpc.Radix.Insert.{radix_tree_insert-Inserts}
use cc_rpc.Radix.Raise.{if_same}
use cc_rpc.Radix.Delete.{radix_tree_delete-Deletes}
use cc_rpc.Radix.Lookup.{radix_tree_lookup_lem}

abbrev pub free : Option ℕ → Bool
free none = true
free (some w) = false

-- The map of which the tree is an implementation: an index that is taken keeps its item.
abbrev pub insert_map : (ℕ → Option ℕ) → ℕ → ℕ → ℕ → Option ℕ
insert_map f q v p = if free (f q) && (p == q) then some v else f p

abbrev pub delete_map : (ℕ → Option ℕ) → ℕ → ℕ → Option ℕ
delete_map f q p = if p == q then none else f p

-- The trees that insertions and removals make while there is memory, each with the map that the same
-- calls make of the empty one.
pub data Runs : RadixRoot → (ℕ → Option ℕ) → Type 0 where
  here : Runs radix_tree_init (λ _. none)
  insert :
      {r r' : RadixRoot} {f : ℕ → Option ℕ} (q v : ℕ) (b : Bool)
      → Runs r f
      → q < 2 ^ 64
      → radix_tree_insert (λ _. true) r q v ≡ done (b, r')
      → Runs r' (insert_map f q v)
  delete :
      {r r' : RadixRoot} {f : ℕ → Option ℕ} (q : ℕ) (x : Option ℕ)
      → Runs r f
      → q < 2 ^ 64
      → radix_tree_delete r q ≡ done (x, r')
      → Runs r' (delete_map f q)

pub record Represents (r : RadixRoot) (f : ℕ → Option ℕ) : Type 0 where
  pub valid : IsRadix r
  pub full : IsFull r.height r.rnode
  pub same : (p : ℕ) → view r p ≡ f p

init-Represents : Represents radix_tree_init (λ _. none)
unfolding view find
init-Represents = record {
  valid = record {
    shape = tt;
    low = omega arith;
    levels = ((λ e. refl), (λ e. refl));
    lonely = λ e. refl;
  };
  full = tt;
  same = λ p. if_same (ltb p (16 ^ 0)) none;
}

free_iff : (b : Bool) (u : Option ℕ) → (b ≡ true → u ≡ none) → (u ≡ none → b ≡ true) → b ≡ free u
free_iff b none fresh serves = serves refl
free_iff true (some w) fresh serves = absurd (cc (fresh refl))
free_iff false (some w) fresh serves = refl

pub insert-Represents :
    (r : RadixRoot) (f : ℕ → Option ℕ) (q v : ℕ)
    → Represents r f
    → q < 2 ^ 64
    → (r' : RadixRoot) × (radix_tree_insert (λ _. true) r q v ≡ done (free (f q), r'))
      × Represents r' (insert_map f q v)
insert-Represents r f q v rep hq =
    let (b, r', runs, i) =
      radix_tree_insert-Inserts (λ _. true) r q v rep.valid hq (λ _ _ _. refl) in
    let free_b : b ≡ free (f q) =
      free_iff b (f q) (λ e. sym (rep.same q) ∙ i.fresh e)
        (λ e. i.serves (λ _. refl) (rep.same q ∙ e)) in
    (
      r',
      runs ∙ ap (λ x. done (x, r')) free_b,
      record {
        valid = i.valid;
        full = i.full (λ _. refl) rep.full;
        same = λ p.
            i.holds p
            ∙ ap (λ x. if x && (p == q) then some v else view r p) free_b
            ∙ ap (λ x. if free (f q) && (p == q) then some v else x) (rep.same p);
      },
    )

pub delete-Represents :
    (r : RadixRoot) (f : ℕ → Option ℕ) (q : ℕ)
    → Represents r f
    → q < 2 ^ 64
    → (r' : RadixRoot) × (radix_tree_delete r q ≡ done (f q, r')) × Represents r' (delete_map f q)
delete-Represents r f q rep hq =
    let (r', runs, ok, gone, full) = radix_tree_delete-Deletes r q rep.valid hq in
    (
      r',
      runs ∙ ap (λ x. done (x, r')) (rep.same q),
      record {
        valid = ok;
        full = full rep.full;
        same = λ p. gone p ∙ ap (λ x. if p == q then none else x) (rep.same p);
      },
    )

pub Runs-Represents : {r : RadixRoot} {f : ℕ → Option ℕ} → Runs r f → Represents r f
Runs-Represents here = init-Represents
Runs-Represents (insert {r} {r'} {f} q v b run hq e) =
    let (u, runs, rep) = insert-Represents r f q v (Runs-Represents run) hq in
    subst (λ t. Represents t (insert_map f q v)) (cc (runs, e)) rep
Runs-Represents (delete {r} {r'} {f} q x run hq e) =
    let (u, runs, rep) = delete-Represents r f q (Runs-Represents run) hq in
    subst (λ t. Represents t (delete_map f q)) (cc (runs, e)) rep

high-none : (r : RadixRoot) (p : ℕ) → 16 ^ r.height ≤ p → view r p ≡ none
unfolding view
high-none r p h = rw (le→ltb p (16 ^ r.height) h)

-- What the three operations do at q, on a tree with the map f
pub record Serves (r : RadixRoot) (f : ℕ → Option ℕ) (q v : ℕ) : Type 0 where
  pub inserts :
      (r' : RadixRoot) × (radix_tree_insert (λ _. true) r q v ≡ done (free (f q), r'))
      × Runs r' (insert_map f q v)
  pub deletes :
      (r' : RadixRoot) × (radix_tree_delete r q ≡ done (f q, r')) × Runs r' (delete_map f q)
  pub looks_up : radix_tree_lookup r q ≡ done (f (q % 16 ^ r.height))
  pub beyond : (q < 16 ^ r.height) ⊎ (f q ≡ none)

-- While memory is granted, a tree that any sequence of radix_tree_insert and radix_tree_delete, at
-- indices of 64 bits, makes from radix_tree_init is the map that the sequence makes of the empty
-- one: at any such index the next insertion returns 0 if the index is free in the map and -1 if it
-- is taken, the next removal returns the item that the map has there, or NULL, and both lead to a
-- tree for the changed map; a lookup finds what the map has at the index without the bits above the
-- levels of the tree, and at an index with such bits the map has nothing.
pub Runs-Serves :
    {r : RadixRoot} {f : ℕ → Option ℕ} (q v : ℕ) → Runs r f → q < 2 ^ 64 → Serves r f q v
Runs-Serves {r} {f} q v run hq =
    let rep = Runs-Represents run in
    let (r1, runs1, rep1) = insert-Represents r f q v rep hq in
    let (r2, runs2, rep2) = delete-Represents r f q rep hq in
    record {
      inserts = (r1, runs1, insert q v (free (f q)) run hq runs1);
      deletes = (r2, runs2, delete q (f q) run hq runs2);
      looks_up = radix_tree_lookup_lem r q rep.valid ∙ ap done (rep.same (q % 16 ^ r.height));
      beyond = elim (Bool-cases (ltb q (16 ^ r.height))) [
        | inl e ↦ inl (ltb→lt _ _ e)
        | inr e ↦ inr (sym (rep.same q) ∙ high-none r q (ltb→le _ _ e))
      ];
    }
