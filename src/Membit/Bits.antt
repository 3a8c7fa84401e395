-- ===== src/Membit/Bits.antt =====
-- What the bit operations of membit.c do to each bit.
use native.Mathlib.Nat.{pow-suc}
use cc_rpc.Base.{
  ℕ, zero, suc, ◌+◌, ◌-◌, ◌*◌, ◌/◌, ◌%◌, ◌^◌, ◌≤◌, ◌<◌, ◌≡◌, refl, ◌∙◌, arith, true, false, ltb,
  ◌==◌, if◌then◌else◌, Bool-cases, inl, inr,
}
use cc_rpc.Membit.{bit, clear_bit, set_bit, lowbit_index}

double : (n : ℕ) → 2 ^ suc n ≡ 2 * 2 ^ n
double n = rw (pow-suc 2 n) (omega arith)

pub bit-clear_bit : (i j m : ℕ) → bit j (clear_bit i m) ≡ (if i == j then false else bit j m)
unfolding bit clear_bit
bit-clear_bit zero zero m = ground arith
bit-clear_bit zero (suc j) m =
    let half : m / 2 * 2 / 2 ≡ m / 2 = omega arith in
    let other : (0 == suc j) ≡ false = ground arith in rw (other, half) refl
bit-clear_bit (suc i) zero m = ground arith
bit-clear_bit (suc i) (suc j) m =
    let half : (clear_bit i (m / 2) * 2 + m % 2) / 2 ≡ clear_bit i (m / 2) = omega arith in
    rw half (ground (arith, bit-clear_bit i j (m / 2)))

pub bit-set_bit : (i j m : ℕ) → bit j (set_bit i m) ≡ (if i == j then true else bit j m)
unfolding bit set_bit
bit-set_bit zero zero m = ground arith
bit-set_bit zero (suc j) m =
    let half : (m / 2 * 2 + 1) / 2 ≡ m / 2 = omega arith in
    let other : (0 == suc j) ≡ false = ground arith in rw (other, half) refl
bit-set_bit (suc i) zero m = ground arith
bit-set_bit (suc i) (suc j) m =
    let half : (set_bit i (m / 2) * 2 + m % 2) / 2 ≡ set_bit i (m / 2) = omega arith in
    rw half (ground (arith, bit-set_bit i j (m / 2)))

pub set_bit-clear_bit : (i m : ℕ) → bit i m ≡ true → set_bit i (clear_bit i m) ≡ m
unfolding bit set_bit clear_bit
set_bit-clear_bit zero m h = ground arith
set_bit-clear_bit (suc i) m h =
    let half : (clear_bit i (m / 2) * 2 + m % 2) / 2 ≡ clear_bit i (m / 2) = omega arith in
    let low : (clear_bit i (m / 2) * 2 + m % 2) % 2 ≡ m % 2 = omega arith in
    rw (half, low, set_bit-clear_bit i (m / 2) h) (omega arith)

pub clear_bit-le : (i m : ℕ) → clear_bit i m ≤ m
unfolding clear_bit
clear_bit-le zero m = omega arith
clear_bit-le (suc i) m = omega (arith, clear_bit-le i (m / 2))

pub set_bit-lt : (n i m : ℕ) → i < n → m < 2 ^ n → set_bit i m < 2 ^ n
unfolding set_bit
set_bit-lt zero i m h k = absurd (omega arith)
set_bit-lt (suc n) zero m h k = omega (arith, double n)
set_bit-lt (suc n) (suc i) m h k =
    omega (arith, double n, set_bit-lt n i (m / 2) (omega arith) (omega (arith, double n)))

-- The lowest set bit of a number that is not 0.
pub lowbit_index_lem :
    (width m : ℕ)
    → 0 < m
    → m < 2 ^ width
    → (bit (lowbit_index width m) m ≡ true)
      × (lowbit_index width m < width)
      × ((j : ℕ) → j < lowbit_index width m → bit j m ≡ false)
unfolding bit lowbit_index
lowbit_index_lem zero m h k = absurd (omega arith)
lowbit_index_lem (suc width) m h k = elim (Bool-cases (m % 2 == 1)) [
  | inl e ↦ rw e (e, omega arith, λ j p. absurd (omega arith))
  | inr e ↦
      let (here, short, before) =
        lowbit_index_lem width (m / 2) (ground arith) (omega (arith, double width)) in
      rw e (here, omega arith, λ j p. lower j p e before)
]
  where
    lower :
        (j : ℕ)
        → j < suc (lowbit_index width (m / 2))
        → (m % 2 == 1) ≡ false
        → ((i : ℕ) → i < lowbit_index width (m / 2) → bit i (m / 2) ≡ false)
        → bit j m ≡ false
    lower zero p e before = e
    lower (suc j) p e before = before j (omega arith)

-- A set bit is below the width.
pub bit-lt : (n i m : ℕ) → m < 2 ^ n → bit i m ≡ true → i < n
unfolding bit
bit-lt zero zero m h k = ground arith
bit-lt zero (suc i) m h k = absurd (omega (arith, bit-lt zero i (m / 2) (omega arith) k))
bit-lt (suc n) zero m h k = omega arith
bit-lt (suc n) (suc i) m h k = omega (arith, bit-lt n i (m / 2) (omega (arith, double n)) k)

-- `(1u << n) - 1u`
pub bit-ones : (n j : ℕ) → bit j (2 ^ n - 1) ≡ ltb j n
unfolding bit
bit-ones zero zero = ground arith
bit-ones zero (suc j) = bit-ones zero j ∙ (ground arith)
bit-ones (suc n) zero = ground (arith, double n, pow_pos n)
  where
    pow_pos : (n : ℕ) → 0 < 2 ^ n
    pow_pos zero = omega arith
    pow_pos (suc n) = omega (arith, double n, pow_pos n)
bit-ones (suc n) (suc j) =
    let half : (2 ^ suc n - 1) / 2 ≡ 2 ^ n - 1 = omega (arith, double n) in
    rw half (ground (arith, bit-ones n j))
