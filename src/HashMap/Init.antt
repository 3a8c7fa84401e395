-- ===== src/HashMap/Init.antt =====
-- The size of a new map: the least power of two that is not below the capacity asked for.
use native.Mathlib.Nat.{pow-suc}
use cc_rpc.Base.{
  ◌==◌, ==_iff, ℕ, zero, suc, ◌-◌, ◌*◌, ◌/◌, ◌^◌, ◌≤◌, ◌<◌, ◌≡◌, refl, ap, ◌∙◌, arith, List, [],
  ◌∷◌, true, none, length, get_or, replicate, done, leb, Bool-cases, inl, inr, get_or-replicate,
  length-replicate,
}
use cc_rpc.HashMap.{
  chain_find, HashKey, HashMap, hashmap_init, hashmap_get, hashmap_clear, drain_buckets,
  drain_chain, next_power_of_two, bit_length, platform_bits,
}
use cc_rpc.HashMap.Map.{IsMap}

pub double : (n : ℕ) → 2 ^ suc n ≡ 2 * 2 ^ n
double n = rw (pow-suc 2 n) (omega arith)

bit_length-zero : (fuel : ℕ) → bit_length fuel 0 ≡ 0
unfolding bit_length
bit_length-zero zero = refl
bit_length-zero (suc fuel) = refl

pub bit_length_lem :
    (fuel v : ℕ)
    → v < 2 ^ fuel
    → (v < 2 ^ bit_length fuel v)
      × (0 < v → 2 ^ bit_length fuel v ≤ 2 * v)
      × (bit_length fuel v ≤ fuel)
unfolding bit_length
bit_length_lem zero v h = (h, (λ p. omega arith), omega arith)
bit_length_lem (suc fuel) zero h = (omega arith, (λ p. omega arith), omega arith)
bit_length_lem (suc fuel) (suc v) h =
    let half = suc v / 2 in
    let (above, below, short) = bit_length_lem fuel half (omega (arith, double fuel)) in
    let two = double (bit_length fuel half) in
    (
      omega (arith, two),
      (λ p. elim (Bool-cases (half == 0)) [
        | inl e ↦
            let none_left : bit_length fuel half ≡ 0 =
              ap (bit_length fuel) ((==_iff half 0).0 e) ∙ bit_length-zero fuel in
            rw none_left (omega arith)
        | inr e ↦ let pos : 0 < half = ground arith in omega (arith, two, below pos)
      ]),
      omega arith,
    )

-- For x up to 2^63, next_power_of_two gives a power of two that is at least x, at least 1, and below
-- 2x for x above 1.
pub next_power_of_two_lem :
    (x : ℕ)
    → x ≤ 2 ^ 63
    → (e : ℕ) × (next_power_of_two x ≡ 2 ^ e)
      × (x ≤ next_power_of_two x)
      × (0 < next_power_of_two x)
      × (1 < x → next_power_of_two x < 2 * x)
unfolding next_power_of_two
next_power_of_two_lem x h = elim (Bool-cases (leb x 1)) [
  | inl small ↦ rw small (0, refl, ground arith, omega arith, λ p. ground arith)
  | inr large ↦
      let v = x - 1 in
      let (above, below, short) = bit_length_lem platform_bits v (omega arith) in
      let size : platform_bits - (platform_bits - bit_length platform_bits v)
          ≡ bit_length platform_bits v =
        omega arith in
      let big : 1 < x = ground arith in
      rw (large, size)
        (
          bit_length platform_bits v,
          refl,
          omega arith,
          omega arith,
          λ p. omega (arith, below (omega arith)),
        )
]

-- For a capacity up to 2^63 and with memory, hashmap_init makes a valid map in which no key is
-- found, whose number of buckets is a power of two and at least the capacity.
pub hashmap_init_lem {ℓ} :
    {K V : Type ℓ} ⦃key : HashKey K⦄ (bucket_count : ℕ)
    → bucket_count ≤ 2 ^ 63
    → (map : HashMap K V) × (hashmap_init true bucket_count ≡ done map)
      × IsMap map
      × ((q : K) → hashmap_get map q ≡ none)
      × (bucket_count ≤ map.bucket_count)
      × ((e : ℕ) × (map.bucket_count ≡ 2 ^ e))
unfolding hashmap_init hashmap_get
hashmap_init_lem {K} {V} bucket_count h =
    let (e, power, above, pos, below) = next_power_of_two_lem bucket_count h in
    let n = next_power_of_two bucket_count in
    (
      record { buckets = replicate n []; bucket_count = n },
      refl,
      record {
        some_bucket = pos;
        all_buckets = length-replicate n [];
        unique = λ i. rw (get_or-replicate {A = List (K × V)} n i []) tt;
      },
      (λ q. ap (chain_find q) (get_or-replicate {A = List (K × V)} n _ [])),
      above,
      (e, power),
    )

drain_chain-nil {ℓ} : {K V : Type ℓ} (c : List (K × V)) → drain_chain c ≡ []
unfolding drain_chain
drain_chain-nil [] = refl
drain_chain-nil (e ∷ c) = drain_chain-nil c

drain_buckets-get_or {ℓ} :
    {K V : Type ℓ} (bs : List (List (K × V))) (i : ℕ) → get_or (drain_buckets bs) i [] ≡ []
unfolding drain_buckets
drain_buckets-get_or [] i = refl
drain_buckets-get_or (c ∷ bs) zero = drain_chain-nil c
drain_buckets-get_or (c ∷ bs) (suc i) = drain_buckets-get_or bs i

length-drain_buckets {ℓ} :
    {K V : Type ℓ} (bs : List (List (K × V))) → length (drain_buckets bs) ≡ length bs
unfolding drain_buckets
length-drain_buckets [] = refl
length-drain_buckets (c ∷ bs) = ap suc (length-drain_buckets bs)

-- hashmap_clear makes of a valid map a valid map with as many buckets in which no key is found.
pub hashmap_clear_lem {ℓ} :
    {K V : Type ℓ} ⦃key : HashKey K⦄ (map : HashMap K V)
    → IsMap map
    → IsMap (hashmap_clear map)
      × ((q : K) → hashmap_get (hashmap_clear map) q ≡ none)
      × ((hashmap_clear map).bucket_count ≡ map.bucket_count)
unfolding hashmap_clear hashmap_get
hashmap_clear_lem map m = (
  record {
    some_bucket = m.some_bucket;
    all_buckets = length-drain_buckets map.buckets ∙ m.all_buckets;
    unique = λ i. rw (drain_buckets-get_or map.buckets i) tt;
  },
  (λ q. ap (chain_find q) (drain_buckets-get_or map.buckets _)),
  refl,
)
