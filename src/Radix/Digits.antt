-- ===== src/Radix/Digits.antt =====
-- The digits of an index in base 16, and the number of them.
use cc_rpc.Base.{
  ℕ, zero, suc, ◌+◌, ◌*◌, ◌/◌, ◌%◌, ◌^◌, ◌<◌, ◌≡◌, ◌↔◌, refl, sym, ap, ◌∙◌, arith, Bool, true,
  false, ◌&&◌, ◌==◌, ==_iff,
}
use native.Mathlib.Nat.{
  div-add-mod, div-div-eq-div-mul, pow-suc, mod-lt, mod-eq_of_lt, mul-add-div, div-eq_of_lt,
}
use cc_rpc.Radix.{offset_at}

pub sixteen : (n : ℕ) → 16 ^ suc n ≡ 16 * 16 ^ n
sixteen n = rw (pow-suc 16 n) (omega arith)

pub power_pos : (n : ℕ) → 0 < 16 ^ n
power_pos zero = omega arith
power_pos (suc n) = omega (arith, sixteen n, power_pos n)

-- Two indices have the same h lowest digits.
unfoldable pub same : ℕ → ℕ → ℕ → Bool
same zero p q = true
same (suc h) p q = (offset_at h p == offset_at h q) && same h p q

-- x in base 16 n, from its remainder in base n and one more digit
pub split : (n x : ℕ) → 0 < n → x % (n * 16) ≡ n * (x / n % 16) + x % n
split n x pos = omega (
  arith,
  div-add-mod x n,
  div-add-mod x (n * 16),
  ap (λ (t : ℕ). n * t) (div-add-mod (x / n) 16),
  ap (λ (t : ℕ). n * 16 * t) (div-div-eq-div-mul x n 16),
)

pub offset_at_lt : (h p : ℕ) → offset_at h p < 16
offset_at_lt h p = omega arith

-- A number below n in front of a multiple of n
parts : (n a b r s : ℕ) → r < n → s < n → n * a + r ≡ n * b + s → (a ≡ b) × (r ≡ s)
parts n a b r s hr hs e =
    let pos : 0 < n = omega arith in
    let front : (m t : ℕ) → t < n → (n * m + t) / n ≡ m =
      λ m t h. mul-add-div pos m t ∙ rw (div-eq_of_lt h) (omega arith) in
    let eq : a ≡ b = sym (front a r hr) ∙ ap (λ t. t / n) e ∙ front b s hs in
    (eq, omega (arith, e, ap (λ (t : ℕ). n * t) eq))

same_step :
    (h p q : ℕ)
    → (p % 16 ^ suc h ≡ q % 16 ^ suc h)
      ↔ ((offset_at h p ≡ offset_at h q) × (p % 16 ^ h ≡ q % 16 ^ h))
same_step h p q =
    let n = 16 ^ h in
    let pos = power_pos h in
    let a = split n p pos in
    let b = split n q pos in
    rw (pow-suc 16 h) (
      (λ e.
          parts n (p / n % 16) (q / n % 16) (p % n) (q % n) (mod-lt p pos) (mod-lt q pos)
            (sym a ∙ e ∙ b)),
      (λ e. a ∙ ap (λ t. n * t + p % n) e.0 ∙ ap (λ t. n * (q / n % 16) + t) e.1 ∙ sym b),
    )

pub and_left : (a b : Bool) → (a && b) ≡ true → a ≡ true
and_left true b e = refl
and_left false b e = cc

pub and_right : (a b : Bool) → (a && b) ≡ true → b ≡ true
and_right true b e = e
and_right false b e = cc

and_both : {a b : Bool} → a ≡ true → b ≡ true → (a && b) ≡ true
and_both e f = rw (e, f)

Bool_iff : (a b : Bool) → (a ≡ true → b ≡ true) → (b ≡ true → a ≡ true) → a ≡ b
Bool_iff true b f g = sym (f refl)
Bool_iff false true f g = g refl
Bool_iff false false f g = refl

pub same-mod : (h p q : ℕ) → (same h p q ≡ true) ↔ (p % 16 ^ h ≡ q % 16 ^ h)
unfolding same
same-mod zero p q = ((λ _. omega arith), (λ _. refl))
same-mod (suc h) p q =
    let (go, back) = same_step h p q in
    let (ih, hi) = same-mod h p q in
    let (te, et) = ==_iff (offset_at h p) (offset_at h q) in
    (
      (λ e. back (te (and_left _ _ e), ih (and_right _ _ e))),
      (λ e. and_both (et (go e).0) (hi (go e).1)),
    )

-- Below 16^h, the h lowest digits determine an index.
pub same_lem : (h p q : ℕ) → p < 16 ^ h → q < 16 ^ h → same h p q ≡ (p == q)
same_lem h p q hp hq =
    let (go, back) = same-mod h p q in
    let (te, et) = ==_iff p q in
    Bool_iff (same h p q) (p == q) (λ e. et (sym (mod-eq_of_lt hp) ∙ go e ∙ mod-eq_of_lt hq))
      (λ e. back (ap (λ t. t % 16 ^ h) (te e)))
