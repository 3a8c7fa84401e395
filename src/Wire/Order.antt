-- ===== src/Wire/Order.antt =====
-- Byte order: `swap16` and `swap32` reverse the bytes of a word.
use cc_rpc.Base.{ℕ, ◌+◌, ◌*◌, ◌/◌, ◌%◌, ◌^◌, ◌≡◌, arith, [], ◌∷◌}
use cc_rpc.Tlv.{IsU16, IsU32, IsByte, u32_bytes}
use cc_rpc.Wire.{swap16, swap32, htons, htonl, ntohs, ntohl, u16_bytes}

pub swap16_bytes : (a b : ℕ) → IsByte a → IsByte b → swap16 (a + b * 256) ≡ b + a * 256
unfolding swap16
swap16_bytes a b ha hb = omega arith

pub swap32_bytes :
    (a b c d : ℕ)
    → IsByte a
    → IsByte b
    → IsByte c
    → IsByte d
    → swap32 (a + b * 2 ^ 8 + c * 2 ^ 16 + d * 2 ^ 24) ≡ d + c * 2 ^ 8 + b * 2 ^ 16 + a * 2 ^ 24
unfolding swap32
swap32_bytes a b c d ha hb hc hd = omega arith

pub ntohs-htons : (v : ℕ) → IsU16 v → ntohs (htons v) ≡ v
unfolding htons ntohs
ntohs-htons v h = omega arith

pub ntohl-htonl : (v : ℕ) → IsU32 v → ntohl (htonl v) ≡ v
unfolding htonl ntohl
ntohl-htonl v h = omega arith

-- In memory the most significant byte comes first.
pub u16_bytes-htons : (v : ℕ) → IsU16 v → u16_bytes (htons v) ≡ v / 256 ∷ v % 256 ∷ []
unfolding htons
u16_bytes-htons v h = ground arith

pub u32_bytes-htonl :
    (v : ℕ)
    → IsU32 v
    → u32_bytes (htonl v) ≡ v / 2 ^ 24 ∷ v / 2 ^ 16 % 256 ∷ v / 2 ^ 8 % 256 ∷ v % 256 ∷ []
unfolding htonl
u32_bytes-htonl v h = ground arith
