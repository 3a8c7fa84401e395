-- ===== src/HashMap/Map.antt =====
-- The map as a function from keys to values: what each operation of hashmap.c does to it.
use cc_rpc.Base.{
  ℕ, ◌-◌, ◌<◌, ◌≡◌, refl, ap, ◌∙◌, subst, arith, List, [], ◌∷◌, true, false, Option, none, some,
  length, get_or, set, if◌then◌else◌, inl, inr, ◌≢◌, Bool-cases, done, fault, bit_and-le,
  length-set, get_or-set_self, get_or-set_ne,
}
use native.Mathlib.Decide.{ℕ_discrete}
use cc_rpc.HashMap.{
  HashKey, HashMap, hashmap_bucket, chain_at, with_chain, hashmap_put, hashmap_get,
  hashmap_contains, hashmap_remove, chain_find,
}
use cc_rpc.HashMap.Chain.{HasUniqueKeys, chain_assign-cases, chain_remove-cases}

module _ {ℓ} {K V : Type ℓ} ⦃key : HashKey K⦄ where
  -- A map with its buckets, no key twice in one of them.
  pub record IsMap (map : HashMap K V) : Type ℓ where
    pub some_bucket : 0 < map.bucket_count
    pub all_buckets : length map.buckets ≡ map.bucket_count
    pub unique : (i : ℕ) → HasUniqueKeys (get_or map.buckets i [])

  -- `m'` is `m` with the value of `k` set to `v`, for every key that may be asked for.
  pub record Updates (map : HashMap K V) (k : K) (v : Option V) (map' : HashMap K V) : Type ℓ where
    pub valid : IsMap map'
    pub reads : (q : K) → hashmap_get map' q ≡ (if key.key_equal k q then v else hashmap_get map q)

  hashmap_bucket-lt :
      (map : HashMap K V) (k : K) → IsMap map → hashmap_bucket map k < length map.buckets
  unfolding hashmap_bucket
  hashmap_bucket-lt map k m = omega (arith, bit_and-le (key.hash k) (map.bucket_count - 1))

  apart :
      (map : HashMap K V) (k q : K)
      → hashmap_bucket map k ≢ hashmap_bucket map q
      → key.key_equal k q ≡ false
  apart map k q n = elim (Bool-cases (key.key_equal k q)) [
    | inl t ↦ absurd (n (ap (hashmap_bucket map) ((key.key_equal_iff k q).0 t)))
    | inr f ↦ f
  ]

  -- A bucket that is replaced: the keys of the other buckets are not touched.
  with_chain-Updates :
      (map : HashMap K V) (k : K) (v : Option V) (c : List (K × V))
      → IsMap map
      → HasUniqueKeys c
      → ((q : K)
          → chain_find q c ≡ (if key.key_equal k q then v else chain_find q (chain_at map k)))
      → Updates map k v (with_chain map k c)
  unfolding hashmap_get hashmap_bucket
  with_chain-Updates map k v c m u finds =
      let i = hashmap_bucket map k in
      let bs = map.buckets in
      let here : get_or (set bs i c) i [] ≡ c =
        get_or-set_self bs i c [] (hashmap_bucket-lt map k m) in
      record {
        valid = record {
          some_bucket = m.some_bucket;
          all_buckets = length-set bs i c ∙ m.all_buckets;
          unique = λ j. elim (ℕ_discrete i j) [
            | yes e ↦ subst (λ t. HasUniqueKeys (get_or (set bs i c) t [])) e (rw here u)
            | no n ↦ rw (get_or-set_ne bs i j c [] n) (m.unique j)
          ];
        };
        reads = λ q. elim (ℕ_discrete i (hashmap_bucket map q)) [
          | yes e ↦
              ap (chain_find q) (subst (λ t. get_or (set bs i c) t [] ≡ c) e here)
              ∙ finds q
              ∙ ap (λ t. if key.key_equal k q then v else chain_find q (get_or bs t [])) e
          | no n ↦
              ap (chain_find q) (get_or-set_ne bs i (hashmap_bucket map q) c [] n)
              ∙ rw (apart map k q n) refl
        ];
      }

  -- On a valid map, hashmap_put with memory sets the value of the key and of no other key and keeps
  -- the map valid; without memory it does the same for a key that is there, and writes through a
  -- null pointer for a new one.
  pub hashmap_put-Updates :
      (map : HashMap K V) (k : K) (v : V)
      → IsMap map
      → (map' : HashMap K V) × (hashmap_put true map k v ≡ done map')
        × Updates map k (some v) map'
        × (hashmap_put false map k v
            ≡ elim (hashmap_get map k) [ none ↦ fault | some _ ↦ done map' ])
  unfolding hashmap_put hashmap_get
  hashmap_put-Updates map k v m = elim (chain_assign-cases k v (chain_at map k)) [
    | inr (c, a) ↦ (
      with_chain map k c,
      rw (a.assigned, hashmap_put) refl,
      with_chain-Updates map k (some v) c m (a.unique (m.unique (hashmap_bucket map k))) a.finds,
      rw (a.assigned, hashmap_put, a.had) refl,
    )
    | inl (missing, e) ↦ (
      with_chain map k ((k, v) ∷ chain_at map k),
      rw (e, hashmap_put) refl,
      with_chain-Updates map k (some v) ((k, v) ∷ chain_at map k) m
          (missing, m.unique (hashmap_bucket map k)) (λ q. refl),
      rw (e, hashmap_put, missing) refl,
    )
  ]

  -- On a valid map, hashmap_remove takes the key out and no other key, keeps the map valid, and says
  -- whether the key was there.
  pub hashmap_remove-Updates :
      (map : HashMap K V) (k : K)
      → IsMap map
      → Updates map k none (hashmap_remove map k).1
        × ((hashmap_remove map k).0 ≡ hashmap_contains map k)
  unfolding hashmap_remove hashmap_contains hashmap_get
  hashmap_remove-Updates map k m = elim (chain_remove-cases k (chain_at map k)) [
    | inr (c, a) ↦
        rw (a.removed, hashmap_remove, a.had, hashmap_contains)
          (
            with_chain-Updates map k none c m (a.unique (m.unique (hashmap_bucket map k)))
                (a.finds (m.unique (hashmap_bucket map k))),
            refl,
          )
    | inl (missing, e) ↦
        rw (e, hashmap_remove, missing, hashmap_contains)
          (
            record {
              valid = m;
              reads = λ q. elim (Bool-cases (key.key_equal k q)) [
                | inl t ↦ rw t (
                    subst (λ x. chain_find x (chain_at map x) ≡ none) ((key.key_equal_iff k q).0 t)
                      missing)
                | inr f ↦ rw f refl
              ];
            },
            refl,
          )
  ]

  pub hashmap_contains-get :
      (map : HashMap K V) (k : K)
      → hashmap_contains map k ≡ elim (hashmap_get map k) [ none ↦ false | some _ ↦ true ]
  unfolding hashmap_contains hashmap_get
  hashmap_contains-get map k = refl
