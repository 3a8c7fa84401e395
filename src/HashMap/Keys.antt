-- ===== src/HashMap/Keys.antt =====
-- The two kinds of keys that rpc.c uses: C strings and integers.
use cc_rpc.Base.{
  ℕ, ◌+◌, ◌*◌, ◌%◌, ◌^◌, ◌≡◌, refl, subst, ◌↔◌, arith, List, [], ◌∷◌, Bool, true, false, ◌&&◌, ◌==◌,
  ==_iff,
}
use cc_rpc.HashMap.{HashKey}

abbrev pub golden_ratio_prime : ℕ
golden_ratio_prime = 0x9e37fffffffc0001

-- `uword_t` arithmetic: a 64-bit platform.
abbrev pub uword_mod : ℕ
uword_mod = 2 ^ 64

unfoldable pub hash_long : ℕ → ℕ
hash_long val = val * golden_ratio_prime % uword_mod

unfoldable pub hash_string_from : ℕ → List ℕ → ℕ
hash_string_from h [] = h
hash_string_from h (c ∷ s) = hash_string_from ((h * golden_ratio_prime + c) % uword_mod) s

unfoldable pub hash_string : List ℕ → ℕ
unfolding hash_string_from
hash_string s = hash_string_from 0 s

-- `strcmp(a, b) == 0`
unfoldable pub str_equal : List ℕ → List ℕ → Bool
str_equal [] [] = true
str_equal [] (d ∷ t) = false
str_equal (c ∷ s) [] = false
str_equal (c ∷ s) (d ∷ t) = (c == d) && str_equal s t

str_equal→eq : (s t : List ℕ) → str_equal s t ≡ true → s ≡ t
unfolding str_equal
str_equal→eq [] [] h = refl
str_equal→eq [] (d ∷ t) h = cc
str_equal→eq (c ∷ s) [] h = cc
str_equal→eq (c ∷ s) (d ∷ t) h = ground (arith, str_equal→eq s t)

str_equal_refl : (s : List ℕ) → str_equal s s ≡ true
unfolding str_equal
str_equal_refl [] = refl
str_equal_refl (c ∷ s) = ground (arith, str_equal_refl s)

pub str_equal_iff : (s t : List ℕ) → (str_equal s t ≡ true) ↔ (s ≡ t)
str_equal_iff s t = (str_equal→eq s t, λ e. subst (λ x. str_equal s x ≡ true) e (str_equal_refl s))

-- HASHMAP_KEY_STRING: the characters before the terminator.
instance abbrev pub string_key : HashKey (List ℕ)
string_key = record { hash = hash_string; key_equal = str_equal; key_equal_iff = str_equal_iff }

-- HASHMAP_KEY_INT
instance abbrev pub int_key : HashKey ℕ
int_key = record { hash = hash_long; key_equal = λ a b. a == b; key_equal_iff = ==_iff }
