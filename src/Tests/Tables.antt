-- ===== src/Tests/Tables.antt =====
-- A map and a pool of blocks with a few entries.
use cc_rpc.Base.{
  ◌≤◌, ◌<◌, ◌*◌, ◌^◌, ◌+◌, ℕ, zero, suc, replicate, ◌≡◌, refl, arith, [], ◌∷◌, true, false, none,
  some, done, fault, ◌⊎◌, get_or,
}
use cc_rpc.HashMap.{
  HashMap, chain_find, hashmap_bucket, hashmap_put, hashmap_get, hashmap_remove, hashmap_contains,
}
use cc_rpc.HashMap.Keys.{int_key, hash_long}
use cc_rpc.HashMap.Chain.{HasUniqueKeys}
use cc_rpc.HashMap.Map.{IsMap, Updates, hashmap_put-Updates, hashmap_remove-Updates}
use cc_rpc.Region.{Classes, BumpState, block_header_size, mg_region_alloc_class}
use cc_rpc.Region.Nodes.{IsRegion}
use cc_rpc.Region.Pools.{ServedWell, mg_region_alloc_class-Served}
use cc_rpc.Membit.{MembitPool, bit, membit_alloc}
use cc_rpc.Membit.Blocks.{IsPool, Allocates, membit_alloc-Allocates}

abbrev table : HashMap ℕ ℕ
table = record { buckets = ((4, 40) ∷ (2, 20) ∷ []) ∷ []; bucket_count = 1 }

table-IsMap : IsMap table
unfolding chain_find
table-IsMap = record { some_bucket = omega arith; all_buckets = refl; unique = unique }
  where
    unique : (i : ℕ) → HasUniqueKeys {K = ℕ} {V = ℕ} (get_or (((4, 40) ∷ (2, 20) ∷ []) ∷ []) i [])
    unique zero = (refl, (refl, tt))
    unique (suc i) = tt

hashmap_put-Updates_example :
    (table' : HashMap ℕ ℕ) × (hashmap_put true table 2 21 ≡ done table')
    × Updates table 2 (some 21) table'
    × (hashmap_put false table 2 21
        ≡ elim (hashmap_get table 2) [ none ↦ fault | some _ ↦ done table' ])
hashmap_put-Updates_example = hashmap_put-Updates table 2 21 table-IsMap

hashmap_remove-Updates_example :
    Updates table 4 none (hashmap_remove table 4).1
    × ((hashmap_remove table 4).0 ≡ hashmap_contains table 4)
hashmap_remove-Updates_example = hashmap_remove-Updates table 4 table-IsMap

-- The entry with the key is replaced where it stands.
put_replaces :
    hashmap_put true table 2 21
    ≡ done (record { buckets = ((4, 40) ∷ (2, 21) ∷ []) ∷ []; bucket_count = 1 })
unfolding hashmap_put hashmap_bucket hash_long
put_replaces = refl

abbrev pool : MembitPool
pool = record { bitmask = 6; block_size = 16; count = 3 }

pool-IsPool : IsPool pool
unfolding bit
pool-IsPool = record {
  bounded = omega arith;
  masked = omega arith;
  inside = inside;
  sized = omega arith;
  short = omega arith;
}
  where
    no_bits : (i : ℕ) → bit i 0 ≡ true → ⊥
    no_bits zero e = cc
    no_bits (suc i) e = no_bits i e

    inside : (i : ℕ) → bit i 6 ≡ true → i < 3
    inside zero e = omega arith
    inside (suc zero) e = omega arith
    inside (suc (suc zero)) e = omega arith
    inside (suc (suc (suc i))) e = absurd (no_bits i e)

membit_alloc-Allocates_example :
    ((pool.bitmask ≡ 0) × (membit_alloc pool ≡ none)) ⊎ Allocates pool (membit_alloc pool)
membit_alloc-Allocates_example = membit_alloc-Allocates pool pool-IsPool

abbrev region : Classes
region = record { max_bits = 7; classes = replicate 8 []; next_id = 0 }

region-IsRegion : IsRegion region
region-IsRegion = record {
  few = omega arith;
  all_classes = refl;
  nodes = (tt, (tt, (tt, (tt, (tt, (tt, (tt, (tt, tt))))))));
}

mg_region_alloc_class-Served_example :
    (bits : ℕ) × (40 + block_header_size ≤ 2 ^ bits)
    × (2 ^ bits < 2 * (40 + block_header_size))
    × ServedWell
        (true, true)
        bits
        (40 + block_header_size)
        region
        (mg_region_alloc_class (true, true) region 40)
mg_region_alloc_class-Served_example =
    mg_region_alloc_class-Served (true, true) region 40 region-IsRegion (omega arith)

abbrev bump : BumpState
bump = record { cap = 64; off = 8 }
