-- ===== src/Wire/Checksum.antt =====
-- The checksum of common.h is the complement of the one's complement sum of the words.
use cc_rpc.Base.{ℕ, ◌+◌, ◌*◌, ◌%◌, ◌^◌, ◌<◌, ◌≡◌, arith, ◌∙◌, List, [], ◌∷◌, All}
use cc_rpc.Tlv.{IsByte, IsU16}
use cc_rpc.Wire.{fold16, fold_high, add_words, fold_all, in_checksum}

-- The plain sum of the little-endian words.
abbrev pub word_sum : List ℕ → ℕ
word_sum [] = 0
word_sum (b ∷ []) = b
word_sum (a ∷ b ∷ bs) = (a + b * 256) + word_sum bs

fold16_mod : (s : ℕ) → fold16 s % 65535 ≡ s % 65535
fold16_mod s = omega arith

fold_high_lem :
    (s : ℕ) → s < 2 ^ 31 + 2 ^ 17 → (fold_high s < 2 ^ 31) × (fold_high s % 65535 ≡ s % 65535)
fold_high_lem s h = ground arith

add_mod : (a b n m : ℕ) → a % 65535 ≡ b % 65535 → (a + n) % 65535 ≡ (b + n) % 65535
add_mod a b n m h = omega arith

-- The sum stays below 2 ^ 31 + 2 ^ 8 and keeps its remainder.
add_words_lem :
    (sum : ℕ) (bs : List ℕ)
    → All IsByte bs
    → sum < 2 ^ 31
    → (add_words sum bs < 2 ^ 32) × (add_words sum bs % 65535 ≡ (sum + word_sum bs) % 65535)
unfolding add_words
add_words_lem sum [] h lt = omega arith
add_words_lem sum (b ∷ []) h lt = omega arith
add_words_lem sum (a ∷ b ∷ bs) h lt =
    let (small, same) = fold_high_lem (sum + (a + b * 256)) (omega arith) in
    let (bound, rest) = add_words_lem (fold_high (sum + (a + b * 256))) bs h.1.1 small in
    (
      bound,
      rest
          ∙ add_mod (fold_high (sum + (a + b * 256))) (sum + (a + b * 256)) (word_sum bs) 0 same
          ∙ omega arith,
    )

fold_all_lem :
    (sum : ℕ) → sum < 2 ^ 32 → (fold_all 3 sum < 2 ^ 16) × (fold_all 3 sum % 65535 ≡ sum % 65535)
unfolding fold_all
fold_all_lem sum h = ground (arith, fold16_mod sum, fold16_mod (fold16 sum))

-- The checksum of any list of bytes is a 16-bit word, and with it the little-endian words of the
-- data add up to 0 modulo 65535.
pub in_checksum_lem :
    (b : List ℕ) → All IsByte b → IsU16 (in_checksum b) × ((in_checksum b + word_sum b) % 65535 ≡ 0)
unfolding in_checksum
in_checksum_lem b h =
    let (bound, words) = add_words_lem 0 b h (omega arith) in
    let (small, folded) = fold_all_lem (add_words 0 b) bound in (omega arith, omega arith)
