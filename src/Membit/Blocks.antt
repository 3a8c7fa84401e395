-- ===== src/Membit/Blocks.antt =====
-- The blocks of a pool: none is given out twice, all lie inside the pool, and all come back.
use cc_rpc.Base.{
  ℕ, suc, ◌+◌, ◌-◌, ==_iff, ltb→lt, min, ◌*◌, ◌/◌, ◌%◌, ◌^◌, ◌≤◌, ◌<◌, ◌≡◌, refl, sym, ap, ◌∙◌,
  arith, Bool, true, false, Option, none, some, ltb, ◌==◌, if◌then◌else◌, Bool-cases, ◌⊎◌, inl, inr,
  done,
}
use native.Mathlib.Nat.{pow-le-pow_right, mul-div_right, mul-le-mul_left}
use cc_rpc.Membit.{
  MembitPool, bit, clear_bit, lowbit_index, full_mask, round_up, membit_create, membit_alloc,
  membit_free, membit_reset,
}
use cc_rpc.Membit.Bits.{bit-clear_bit, set_bit-clear_bit, clear_bit-le, lowbit_index_lem, bit-ones}

-- A pool of at most 32 blocks of some size, with a bit for each of them and no other.
pub record IsPool (pool : MembitPool) : Type 0 where
  pub bounded : pool.count ≤ 32
  pub masked : pool.bitmask < 2 ^ 32
  pub inside : (i : ℕ) → bit i pool.bitmask ≡ true → i < pool.count
  pub sized : 0 < pool.block_size
  pub short : pool.block_size < 2 ^ 16

-- What `membit_alloc` does to a pool with a free block.
pub record Allocates (pool : MembitPool) (run : Option (ℕ × MembitPool)) : Type 0 where
  pub idx : ℕ
  pub after : MembitPool
  pub runs : run ≡ some (pool.block_size * idx, after)
  pub was_free : bit idx pool.bitmask ≡ true
  pub in_range : idx < pool.count
  pub others : (j : ℕ) → bit j after.bitmask ≡ (if idx == j then false else bit j pool.bitmask)
  pub block_size : after.block_size ≡ pool.block_size
  pub count : after.count ≡ pool.count
  pub valid : IsPool after
  pub freed : membit_free after (pool.block_size * idx) ≡ done pool

kept : (p i : ℕ) (a b : Bool) → a ≡ (if p == i then false else b) → a ≡ true → b ≡ true
kept p i a b e h = ground arith

membit_free-clear_bit :
    (pool : MembitPool) (idx : ℕ)
    → IsPool pool
    → bit idx pool.bitmask ≡ true
    → membit_free (record pool { bitmask = clear_bit idx pool.bitmask }) (pool.block_size * idx)
      ≡ done pool
unfolding membit_free
membit_free-clear_bit pool idx v here =
    let index : pool.block_size * idx / pool.block_size ≡ idx = mul-div_right idx v.sized in
    let size : (pool.block_size == 0) ≡ false = ground (arith, v.sized) in
    let narrow : idx % 256 ≡ idx = omega (arith, v.bounded, v.inside idx here) in
    let defined : ltb idx 32 ≡ true = ground (arith, v.bounded, v.inside idx here) in
    rw (size, index, narrow, defined, set_bit-clear_bit idx pool.bitmask here) refl

allocates :
    (pool : MembitPool) → IsPool pool → 0 < pool.bitmask → Allocates pool (membit_alloc pool)
unfolding membit_alloc
allocates pool v h =
    let idx = lowbit_index 32 pool.bitmask in
    let (here, short, before) = lowbit_index_lem 32 pool.bitmask h v.masked in
    let some_free : (pool.bitmask == 0) ≡ false = ground arith in
    let after : MembitPool = record pool { bitmask = clear_bit idx pool.bitmask } in
    record {
      idx = idx;
      after = after;
      runs = rw (some_free, membit_alloc) refl;
      was_free = here;
      in_range = v.inside idx here;
      others = λ j. bit-clear_bit idx j pool.bitmask;
      block_size = refl;
      count = refl;
      valid = record {
        bounded = v.bounded;
        masked = omega (arith, clear_bit-le idx pool.bitmask, v.masked);
        inside = λ i e. v.inside i (
            kept idx i (bit i after.bitmask) (bit i pool.bitmask) (bit-clear_bit idx i pool.bitmask)
              e);
        sized = v.sized;
        short = v.short;
      };
      freed = membit_free-clear_bit pool idx v here;
    }

-- On a valid pool, either no block is free and membit_alloc gives nothing, or it gives the offset of
-- a block that was free, which alone is no longer free, keeps the pool valid, and freeing that
-- offset at once restores the pool.
pub membit_alloc-Allocates :
    (pool : MembitPool)
    → IsPool pool
    → ((pool.bitmask ≡ 0) × (membit_alloc pool ≡ none)) ⊎ Allocates pool (membit_alloc pool)
unfolding membit_alloc
membit_alloc-Allocates pool v = elim (Bool-cases (pool.bitmask == 0)) [
  | inl e ↦ inl ((==_iff pool.bitmask 0).0 e, rw e refl)
  | inr e ↦ inr (allocates pool v (ground arith))
]

full_mask_lem : (count : ℕ) → full_mask count ≡ 2 ^ count - 1
unfolding full_mask
full_mask_lem count = elim (Bool-cases (count == 32)) [
  | inl e ↦ rw e (ap (λ c. 2 ^ c - 1) (sym ((==_iff count 32).0 e)))
  | inr e ↦ rw e refl
]

full_mask-lt : (count : ℕ) → count ≤ 32 → full_mask count < 2 ^ 32
full_mask-lt count h =
    rw (full_mask_lem count)
      (omega (arith, pow-le-pow_right {n = 2} (omega arith) {i = count} {j = 32} h))

bit-full_mask : (count j : ℕ) → bit j (full_mask count) ≡ ltb j count
bit-full_mask count j = ap (bit j) (full_mask_lem count) ∙ bit-ones count j

full-IsPool :
    (size count : ℕ)
    → count ≤ 32
    → 0 < size
    → size < 2 ^ 16
    → IsPool (record { bitmask = full_mask count; block_size = size; count = count })
full-IsPool size count h pos short = record {
  bounded = h;
  masked = full_mask-lt count h;
  inside = λ i e. ltb→lt i count (sym (bit-full_mask count i) ∙ e);
  sized = pos;
  short = short;
}

-- With memory, for a size from 1 to 2^16 - 8, membit_create makes a valid pool of at most 32 blocks,
-- as many as asked for up to that, all free, of a size that is a multiple of 8 and at least the one
-- asked for; membit_reset leaves such a new pool as it is.
pub membit_create_lem :
    (size count : ℕ)
    → 0 < size
    → size ≤ 2 ^ 16 - 8
    → (pool : MembitPool) × (membit_create true size count ≡ some pool)
      × IsPool pool
      × (size ≤ pool.block_size)
      × (pool.block_size % 8 ≡ 0)
      × (pool.count ≡ min count 32)
      × ((j : ℕ) → bit j pool.bitmask ≡ ltb j pool.count)
      × (membit_reset pool ≡ pool)
unfolding membit_create membit_reset
membit_create_lem size count pos small =
    let n = if ltb 32 count then 32 else count in
    let n-le : n ≤ 32 = ground arith in
    (
      record { bitmask = full_mask n; block_size = round_up size; count = n },
      unfold round_up full_mask in refl,
      full-IsPool (round_up size) n n-le (unfold round_up in ground arith)
          (unfold round_up in ground arith),
      unfold round_up in ground arith,
      unfold round_up in ground arith,
      ground arith,
      (λ j. bit-full_mask n j),
      refl,
    )

-- Two blocks of a pool do not overlap, and a block lies inside the memory of the pool.
pub blocks_apart :
    (pool : MembitPool) (i j : ℕ)
    → i < j
    → j < pool.count
    → (pool.block_size * i + pool.block_size ≤ pool.block_size * j)
      × (pool.block_size * j + pool.block_size ≤ pool.block_size * pool.count)
blocks_apart pool i j h k = (
  omega (arith, mul_suc pool.block_size i, mul-le-mul_left pool.block_size (fits i j h)),
  omega (arith, mul_suc pool.block_size j, mul-le-mul_left pool.block_size (fits j pool.count k)),
)
  where
    fits : (a b : ℕ) → a < b → suc a ≤ b
    fits a b h = omega arith

    mul_suc : (a b : ℕ) → a * suc b ≡ a * b + a
    mul_suc a b = omega arith
