-- ===== src/Radix/Levels.antt =====
-- How many levels an index needs.
use cc_rpc.Base.{
  ℕ, zero, suc, ◌+◌, ◌-◌, ◌*◌, ◌/◌, ◌^◌, ◌<◌, ◌≤◌, ◌≡◌, refl, arith, false, ◌==◌, ltb, ltb→lt,
  ltb→le, Bool-cases, inl, inr,
}
use native.Mathlib.Nat.{
  div-lt_iff_lt-mul, div-eq_of_lt, mod-eq_of_lt, le-div_iff_mul-le, pow-le-pow_right,
}
use cc_rpc.HashMap.{bit_length}
use cc_rpc.HashMap.Init.{bit_length_lem, double}
use cc_rpc.Radix.{log2_clz64, radix_tree_height, offset_at}
use cc_rpc.Radix.Digits.{sixteen, power_pos}

sixteen_two : (n : ℕ) → 16 ^ n ≡ 2 ^ (4 * n)
sixteen_two zero = refl
sixteen_two (suc n) =
    let m = 4 * n in
    let more : 4 * suc n ≡ suc (suc (suc (suc m))) = omega arith in
    rw more (
      omega (
        arith,
        sixteen n,
        sixteen_two n,
        double (suc (suc (suc m))),
        double (suc (suc m)),
        double (suc m),
        double m,
      ))

pub sixteen_mono : {i j : ℕ} → i ≤ j → 16 ^ i ≤ 16 ^ j
sixteen_mono h = pow-le-pow_right (omega arith) h

-- q needs this many levels, at least one, and no fewer.
pub record Needs (q levels : ℕ) : Type 0 where
  pub enough : q < 16 ^ levels
  pub some_level : 0 < levels
  pub few : levels ≤ 16
  pub least : (h : ℕ) → 0 < h → q < 16 ^ h → levels ≤ h

-- With the bit length l of q, l - 1 is the index of the most significant bit.
levels_lem :
    (q l : ℕ) → 0 < q → l ≤ 64 → q < 2 ^ l → 2 ^ l ≤ 2 * q → Needs q ((63 - (64 - l)) / 4 + 1)
levels_lem q zero pos short above below = absurd (omega arith)
levels_lem q (suc m) pos short above below =
    let msb : 63 - (64 - suc m) ≡ m = omega arith in
    rw msb (record {
      enough =
          let wide : 2 ^ suc m ≤ 2 ^ (4 * (m / 4 + 1)) =
            pow-le-pow_right (omega arith) (omega arith) in
          omega (arith, wide, sixteen_two (m / 4 + 1));
      some_level = omega arith;
      few = omega arith;
      least = λ h ph lt. elim (Bool-cases (ltb h (m / 4 + 1))) [
        | inl e ↦
            let few : 4 * h ≤ m = ground arith in
            let thin : 2 ^ (4 * h) ≤ 2 ^ m = pow-le-pow_right (omega arith) few in
            absurd (omega (arith, thin, sixteen_two h, double m))
        | inr e ↦ ltb→le _ _ e
      ];
    })

pub radix_tree_height-Needs : (q : ℕ) → q < 2 ^ 64 → Needs q (radix_tree_height q)
unfolding radix_tree_height log2_clz64
radix_tree_height-Needs zero h = record {
  enough = omega arith;
  some_level = omega arith;
  few = omega arith;
  least = λ h ph lt. omega arith;
}
radix_tree_height-Needs (suc q) h =
    let (above, below, short) = bit_length_lem 64 (suc q) h in
    let nonzero : (suc q == 0) ≡ false = ground arith in
    rw nonzero
      (levels_lem (suc q) (bit_length 64 (suc q)) (omega arith) short above (below (omega arith)))

-- The top digit of an index with one level more than it needs is 0.
pub top_digit : (h p : ℕ) → p < 16 ^ suc h → (offset_at h p == 0) ≡ ltb p (16 ^ h)
top_digit h p lt = elim (Bool-cases (ltb p (16 ^ h))) [
  | inl e ↦ rw (e, div-eq_of_lt (ltb→lt _ _ e))
  | inr e ↦
      let pos = power_pos h in
      let short : p / 16 ^ h < 16 = (div-lt_iff_lt-mul pos).1 (omega (arith, sixteen h)) in
      let big : 1 ≤ p / 16 ^ h = (le-div_iff_mul-le pos).1 (omega (arith, ltb→le _ _ e)) in
      rw (e, mod-eq_of_lt short) (ground arith)
]
