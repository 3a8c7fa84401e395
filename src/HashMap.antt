-- ===== src/HashMap.antt =====
-- The chained hash map of lib/source/hashmap.c, over a type of keys with the hash and the test that
-- `key_type` selects. A bucket is the list of its entries from `bucket->next` on; the entries are
-- reached from their bucket alone.
pub mod Keys
pub mod Chain
pub mod Map
pub mod Init
use cc_rpc.Base.{
  ℕ, zero, suc, ◌+◌, ◌-◌, ◌*◌, ◌/◌, ◌^◌, ◌≡◌, ◌↔◌, List, [], ◌∷◌, Bool, true, false, Option, none,
  some, length, get_or, set, replicate, leb, if◌then◌else◌, Outcome, done, refuse, fault, ◌>>=◌,
  ◌>>◌, deref, bit_and,
}

-- `hashmap_hash` and `hashmap_key_equal` for one `key_type`.
pub record HashKey {ℓ} (K : Type ℓ) : Type ℓ where
  pub hash : K → ℕ
  pub key_equal : K → K → Bool
  pub key_equal_iff : (a b : K) → (key_equal a b ≡ true) ↔ (a ≡ b)

-- The number of bits of `v`, in at most `fuel` halvings.
unfoldable pub bit_length : ℕ → ℕ → ℕ
bit_length zero v = 0
bit_length (suc fuel) v =
    let rest = bit_length fuel (v / 2) in elim v [ zero ↦ 0 | suc _ ↦ suc rest ]

abbrev pub platform_bits : ℕ
platform_bits = 64

-- `__builtin_clzll`, for v > 0
unfoldable pub clz : ℕ → ℕ
unfolding bit_length
clz v = platform_bits - bit_length platform_bits v

unfoldable pub next_power_of_two : ℕ → ℕ
unfolding clz
next_power_of_two x = if leb x 1 then 1 else 2 ^ (platform_bits - clz (x - 1))

pub record HashMap {ℓ} (K V : Type ℓ) : Type ℓ where
  pub buckets : List (List (K × V))
  pub bucket_count : ℕ

-- `granted`: the array gets memory; it is written to without a test.
unfoldable pub hashmap_init {ℓ} : {K V : Type ℓ} → Bool → ℕ → Outcome (HashMap K V)
unfolding next_power_of_two
hashmap_init granted bucket_count =
    let count = next_power_of_two bucket_count in
    deref granted >> done (record { buckets = replicate count []; bucket_count = count })

module _ {ℓ} {K V : Type ℓ} ⦃key : HashKey K⦄ where
  -- `h & (map->bucket_count - 1)`
  unfoldable pub hashmap_bucket : HashMap K V → K → ℕ
  hashmap_bucket map k = bit_and (key.hash k) (map.bucket_count - 1)

  abbrev pub chain_at : HashMap K V → K → List (K × V)
  chain_at map k = get_or map.buckets (hashmap_bucket map k) []

  -- The walk of `hashmap_get` and `hashmap_contains`.
  unfoldable pub chain_find : K → List (K × V) → Option V
  chain_find k [] = none
  chain_find k (e ∷ c) = if key.key_equal e.0 k then some e.1 else chain_find k c

  -- The walk of `hashmap_put`: the bucket with the new value, if the key is there.
  unfoldable pub chain_assign : K → V → List (K × V) → Option (List (K × V))
  chain_assign k v [] = none
  chain_assign k v (e ∷ c) =
      let rest = chain_assign k v c in
      if key.key_equal e.0 k
      then some ((e.0, v) ∷ c)
      else elim rest [ none ↦ none | some c' ↦ some (e ∷ c') ]

  -- The walk of `hashmap_remove`: the bucket without the entry, if the key is there.
  unfoldable pub chain_remove : K → List (K × V) → Option (List (K × V))
  chain_remove k [] = none
  chain_remove k (e ∷ c) =
      let rest = chain_remove k c in
      if key.key_equal e.0 k then some c else elim rest [ none ↦ none | some c' ↦ some (e ∷ c') ]

  abbrev pub with_chain : HashMap K V → K → List (K × V) → HashMap K V
  with_chain map k c = record map { buckets = set map.buckets (hashmap_bucket map k) c }

  -- `granted`: a new entry gets memory; it is written to without a test.
  unfoldable pub hashmap_put : Bool → HashMap K V → K → V → Outcome (HashMap K V)
  unfolding chain_assign
  hashmap_put granted map k v = elim (chain_assign k v (chain_at map k)) [
    | some c ↦ done (with_chain map k c)
    | none ↦ deref granted >> done (with_chain map k ((k, v) ∷ chain_at map k))
  ]

  unfoldable pub hashmap_get : HashMap K V → K → Option V
  unfolding chain_find
  hashmap_get map k = chain_find k (chain_at map k)

  unfoldable pub hashmap_contains : HashMap K V → K → Bool
  unfolding chain_find
  hashmap_contains map k = elim (chain_find k (chain_at map k)) [ none ↦ false | some _ ↦ true ]

  -- 1 and the map without the key, or 0 and the map as it is.
  unfoldable pub hashmap_remove : HashMap K V → K → Bool × HashMap K V
  unfolding chain_remove
  hashmap_remove map k = elim (chain_remove k (chain_at map k)) [
    | some c ↦ (true, with_chain map k c)
    | none ↦ (false, map)
  ]

module _ {ℓ} {K V : Type ℓ} where
  -- `while (p != bucket)`: every entry is taken out and freed.
  unfoldable pub drain_chain : List (K × V) → List (K × V)
  drain_chain [] = []
  drain_chain (e ∷ c) = drain_chain c

  unfoldable pub drain_buckets : List (List (K × V)) → List (List (K × V))
  unfolding drain_chain
  drain_buckets [] = []
  drain_buckets (c ∷ cs) = drain_chain c ∷ drain_buckets cs

  unfoldable pub hashmap_clear : HashMap K V → HashMap K V
  unfolding drain_buckets
  hashmap_clear map = record map { buckets = drain_buckets map.buckets }

  unfoldable pub hashmap_destroy : HashMap K V → HashMap K V
  hashmap_destroy map = record { buckets = []; bucket_count = 0 }
