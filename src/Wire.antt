-- ===== src/Wire.antt =====
-- Byte order and checksum of ccrpc/include/common.h, and the message header of
-- ccrpc/include/rpc.h. Where the source joins parts by `|`, their bits do not meet, and the model adds.
pub mod Order
pub mod Checksum
pub mod Layout
use cc_rpc.Base.{
  ℕ, zero, suc, ◌+◌, ◌-◌, ◌*◌, ◌/◌, ◌%◌, ◌^◌, List, [], ◌∷◌, ◌++◌, Bool, ◌==◌, if◌then◌else◌,
  length, take, drop, ltb, Outcome, done, fault,
}
use cc_rpc.Tlv.{low_byte, u32_bytes, u32_of_bytes}

unfoldable pub swap16 : ℕ → ℕ
swap16 v = (v / 2 ^ 8 + v * 2 ^ 8) % 2 ^ 16

-- The masks 0x000000FF, 0x0000FF00, 0x00FF0000 and 0xFF000000 each keep one byte.
unfoldable pub swap32 : ℕ → ℕ
swap32 v =
    v / 2 ^ 24 % 2 ^ 8
    + v / 2 ^ 8 / 2 ^ 8 % 2 ^ 8 * 2 ^ 8
    + v * 2 ^ 8 % 2 ^ 32 / 2 ^ 16 % 2 ^ 8 * 2 ^ 16
    + v * 2 ^ 24 % 2 ^ 32 / 2 ^ 24 % 2 ^ 8 * 2 ^ 24

unfoldable pub htons : ℕ → ℕ
unfolding swap16
htons v = swap16 v

unfoldable pub ntohs : ℕ → ℕ
unfolding swap16
ntohs v = swap16 v

unfoldable pub htonl : ℕ → ℕ
unfolding swap32
htonl v = swap32 v

unfoldable pub ntohl : ℕ → ℕ
unfolding swap32
ntohl v = swap32 v

-- `(sum & 0xFFFF) + (sum >> 16)`
abbrev pub fold16 : ℕ → ℕ
fold16 sum = sum % 2 ^ 16 + sum / 2 ^ 16

-- `if (sum & 0x80000000) ...`
abbrev pub fold_high : ℕ → ℕ
fold_high sum = if sum / 2 ^ 31 % 2 == 1 then fold16 sum else sum

-- The loop over the words, and the last byte of an odd length.
unfoldable pub add_words : ℕ → List ℕ → ℕ
add_words sum [] = sum
add_words sum (b ∷ []) = sum + b
add_words sum (a ∷ b ∷ bs) = add_words (fold_high (sum + (a + b * 2 ^ 8))) bs

-- `while (sum >> 16)`, for at most `fuel` rounds.
unfoldable pub fold_all : ℕ → ℕ → ℕ
fold_all zero sum = sum
fold_all (suc fuel) sum =
    let next = fold_all fuel (fold16 sum) in if sum / 2 ^ 16 == 0 then sum else next

-- `return ~sum;` as an unsigned short.
unfoldable pub in_checksum : List ℕ → ℕ
unfolding add_words fold_all
in_checksum b = 2 ^ 16 - 1 - fold_all 3 (add_words 0 b) % 2 ^ 16

-- The fields of `struct rpc_header`, in host order.
pub record Header : Type 0 where
  pub status : ℕ
  pub seq : ℕ
  pub msg_len : ℕ
  pub method_len : ℕ

-- `sizeof(struct rpc_header)`: the struct is packed.
abbrev pub header_size : ℕ
header_size = 12

abbrev pub u16_bytes : ℕ → List ℕ
u16_bytes v = low_byte v ∷ low_byte (v / 2 ^ 8) ∷ []

-- The twelve bytes that the senders in rpc.c fill in.
unfoldable pub header_bytes : Header → List ℕ
unfolding htons htonl
header_bytes h =
    u16_bytes (htons h.status)
    ++ (u32_bytes (htonl h.seq) ++ (u32_bytes (htonl h.msg_len) ++ u16_bytes (htons h.method_len)))

-- The bytes of a field of the struct in memory.
abbrev pub field_at : ℕ → ℕ → List ℕ → List ℕ
field_at off size bs = take size (drop off bs)

-- `ntohs(hdr->status)` and so on, of a message that has the twelve bytes.
unfoldable pub read_header : List ℕ → Header
unfolding ntohs ntohl
read_header bs = record {
  status = ntohs (u32_of_bytes (field_at 0 2 bs));
  seq = ntohl (u32_of_bytes (field_at 2 4 bs));
  msg_len = ntohl (u32_of_bytes (field_at 6 4 bs));
  method_len = ntohs (u32_of_bytes (field_at 10 2 bs));
}

-- A header that is read where the message has fewer bytes lies past its end.
unfoldable pub load_header : List ℕ → Outcome Header
load_header msg = if ltb (length msg) header_size then fault else done (read_header msg)
