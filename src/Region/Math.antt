-- ===== src/Region/Math.antt =====
-- The class of a size: the least power of two that is not below it.
use cc_rpc.Base.{
  ℕ, zero, suc, ◌+◌, ◌-◌, ◌*◌, ◌^◌, ◌≤◌, ◌<◌, ◌≡◌, refl, arith, leb, Bool-cases, inl, inr,
}
use cc_rpc.HashMap.{bit_length}
use cc_rpc.HashMap.Init.{bit_length_lem}
use cc_rpc.Region.{log2_clz32, next_power_of_two_index_u32, next_power_of_two_u32}

length_pos : (b v : ℕ) → 0 < v → v < 2 ^ b → 0 < b
length_pos zero v p h = omega arith
length_pos (suc b) v p h = omega arith

-- For x from 1 to 2^31, two to the power of next_power_of_two_index_u32 x is at least x, below 2x,
-- and equal to next_power_of_two_u32 x.
pub next_power_of_two_index_u32_lem :
    (x : ℕ)
    → 0 < x
    → x ≤ 2 ^ 31
    → (x ≤ 2 ^ next_power_of_two_index_u32 x)
      × (2 ^ next_power_of_two_index_u32 x < 2 * x)
      × (next_power_of_two_u32 x ≡ 2 ^ next_power_of_two_index_u32 x)
unfolding next_power_of_two_index_u32 next_power_of_two_u32 log2_clz32
next_power_of_two_index_u32_lem x p h = elim (Bool-cases (leb x 1)) [
  | inl small ↦ rw small (ground arith, ground arith, refl)
  | inr large ↦
      let big : 1 < x = ground arith in
      let (above, below, short) = bit_length_lem 32 (x - 1) (omega arith) in
      let pos = length_pos (bit_length 32 (x - 1)) (x - 1) (omega arith) above in
      let index : 31 - (32 - bit_length 32 (x - 1)) + 1 ≡ bit_length 32 (x - 1) = omega arith in
      rw (large, index)
        (omega arith, omega (arith, below (omega arith)), omega (arith, below (omega arith)))
]
