-- ===== src/Wire/Layout.antt =====
-- The message header: twelve bytes, big-endian, read back as they were written.
use cc_rpc.Base.{
  ℕ, ◌+◌, ◌/◌, ◌%◌, ◌^◌, ◌≡◌, refl, arith, List, [], ◌∷◌, ◌++◌, length, drop, drop-append,
  length-append,
}
use cc_rpc.Tlv.{IsU16, IsU32, u32_bytes, u32_of_bytes}
use cc_rpc.Tlv.Read.{u32_of_bytes-u32_bytes}
use cc_rpc.Wire.{
  Header, header_size, header_bytes, read_header, htons, htonl, ntohs, ntohl, u16_bytes,
}
use cc_rpc.Wire.Order.{ntohs-htons, ntohl-htonl, u16_bytes-htons, u32_bytes-htonl}

pub record IsHeader (h : Header) : Type 0 where
  pub status : IsU16 h.status
  pub seq : IsU32 h.seq
  pub msg_len : IsU32 h.msg_len
  pub method_len : IsU16 h.method_len

pub length-header_bytes : (h : Header) → length (header_bytes h) ≡ header_size
unfolding header_bytes
length-header_bytes h = refl

htons-IsU16 : (v : ℕ) → IsU16 (htons v)
unfolding htons
htons-IsU16 v = omega arith

htonl-IsU32 : (v : ℕ) → IsU32 (htonl v)
unfolding htonl
htonl-IsU32 v = omega arith

u16_again : (v : ℕ) → IsU16 v → u32_of_bytes (u16_bytes v) ≡ v
u16_again v h = omega arith

read_u16 : (v : ℕ) → IsU16 v → ntohs (u32_of_bytes (u16_bytes (htons v))) ≡ v
read_u16 v h = rw (u16_again (htons v) (htons-IsU16 v)) (ntohs-htons v h)

read_u32 : (v : ℕ) → IsU32 v → ntohl (u32_of_bytes (u32_bytes (htonl v))) ≡ v
read_u32 v h = rw (u32_of_bytes-u32_bytes (htonl v) (htonl-IsU32 v)) (ntohl-htonl v h)

-- A header whose fields fit their widths is read back from any message that begins with the bytes
-- the senders write for it.
pub read_header-header_bytes :
    (h : Header) (rest : List ℕ) → IsHeader h → read_header (header_bytes h ++ rest) ≡ h
unfolding read_header header_bytes
read_header-header_bytes h rest v = λ i. record {
  status = read_u16 h.status v.status i;
  seq = read_u32 h.seq v.seq i;
  msg_len = read_u32 h.msg_len v.msg_len i;
  method_len = read_u16 h.method_len v.method_len i;
}

-- A header whose fields fit their widths lies on the wire as status, number, message length and
-- method length, each with its most significant byte first.
pub header_bytes_lem :
    (h : Header)
    → IsHeader h
    → header_bytes h
      ≡ (h.status / 256 ∷ h.status % 256 ∷ [])
        ++ ((h.seq / 2 ^ 24 ∷ h.seq / 2 ^ 16 % 256 ∷ h.seq / 2 ^ 8 % 256 ∷ h.seq % 256 ∷ [])
            ++ ((h.msg_len / 2 ^ 24
                  ∷ h.msg_len / 2 ^ 16 % 256
                  ∷ h.msg_len / 2 ^ 8 % 256
                  ∷ h.msg_len % 256
                  ∷ [])
                ++ (h.method_len / 256 ∷ h.method_len % 256 ∷ [])))
unfolding header_bytes
header_bytes_lem h v = λ i.
    u16_bytes-htons h.status v.status i
    ++ (u32_bytes-htonl h.seq v.seq i
        ++ (u32_bytes-htonl h.msg_len v.msg_len i ++ u16_bytes-htons h.method_len v.method_len i))

pub drop-header_bytes :
    (h : Header) (payload : List ℕ) → drop header_size (header_bytes h ++ payload) ≡ payload
drop-header_bytes h payload = rw (← length-header_bytes h) (drop-append (header_bytes h) payload)

pub length-header_bytes-append :
    (h : Header) (payload : List ℕ)
    → length (header_bytes h ++ payload) ≡ header_size + length payload
length-header_bytes-append h payload =
    omega (arith, length-append (header_bytes h) payload, length-header_bytes h)
