-- ===== src/Tlv.antt =====
-- The type-length-value fields of ccrpc/source/rpc_tlv.c. A buffer is the list of the bytes from
-- the pointer to the end of its object. The host is little-endian, as `swap32` in common.h assumes.
pub mod Write
pub mod Read
use cc_rpc.Base.{
  ℕ, zero, suc, ◌+◌, ◌-◌, ◌*◌, ◌/◌, ◌%◌, ◌^◌, ◌≤◌, ◌<◌, ◌≡◌, refl, arith, Bool, true, false, not,
  ◌||◌, List, [], ◌∷◌, ◌++◌, length, drop, ltb, ◌==◌, if◌then◌else◌, Outcome, done, refuse, fault,
  ◌>>=◌, ◌>>◌, accept, deref, load, store, copy_in, copy_out, overwrite,
}

abbrev pub IsByte : ℕ → Type 0
IsByte b = b < 256

abbrev pub IsU16 : ℕ → Type 0
IsU16 v = v < 2 ^ 16

abbrev pub IsU32 : ℕ → Type 0
IsU32 v = v < 2 ^ 32

abbrev pub tag_u32 : ℕ
tag_u32 = 0x01

abbrev pub tag_string : ℕ
tag_string = 0x02

abbrev pub tag_bytes : ℕ
tag_bytes = 0x03

-- `v & 0xFF`
abbrev pub low_byte : ℕ → ℕ
low_byte v = v % 2 ^ 8

-- `lo | (hi << 8)`, of bytes, whose bits do not meet
abbrev pub join_bytes : ℕ → ℕ → ℕ
join_bytes lo hi = lo + hi * 2 ^ 8

-- The four bytes of a uint32_t in memory, and the uint32_t that four bytes are.
abbrev pub u32_bytes : ℕ → List ℕ
u32_bytes v = low_byte v ∷ low_byte (v / 2 ^ 8) ∷ low_byte (v / 2 ^ 16) ∷ low_byte (v / 2 ^ 24) ∷ []

abbrev pub u32_of_bytes : List ℕ → ℕ
u32_of_bytes [] = 0
u32_of_bytes (b ∷ bs) = b + 256 * u32_of_bytes bs

unfoldable pub tlv_write_u32 : List ℕ → ℕ → Outcome (List ℕ × ℕ)
unfolding copy_in overwrite
tlv_write_u32 buf v = do
  buf₁ ← store buf 0 tag_u32
  buf₂ ← store buf₁ 1 4
  buf₃ ← store buf₂ 2 0
  buf₄ ← copy_in buf₃ 3 (u32_bytes v)
  done (buf₄, 1 + 2 + 4)

unfoldable pub tlv_write_bytes : List ℕ → List ℕ → Outcome (List ℕ × ℕ)
unfolding copy_in overwrite
tlv_write_bytes buf content = do
  let len = length content
  buf₁ ← store buf 0 tag_bytes
  buf₂ ← store buf₁ 1 (low_byte len)
  buf₃ ← store buf₂ 2 (low_byte (len / 2 ^ 8))
  buf₄ ← copy_in buf₃ 3 content
  done (buf₄, 1 + 2 + len)

-- The bytes before the terminator: `strlen` with the characters. Without a terminator it reads on
-- past the object.
unfoldable pub c_string : List ℕ → Outcome (List ℕ)
c_string [] = fault
c_string (c ∷ cs) =
    let rest = c_string cs in if c == 0 then done [] else (rest >>= λ s. done (c ∷ s))

unfoldable pub tlv_write_string : List ℕ → List ℕ → Outcome (List ℕ × ℕ)
unfolding copy_in overwrite c_string
tlv_write_string buf s = do
  text ← c_string s
  let len = length text
  buf₁ ← store buf 0 tag_string
  buf₂ ← store buf₁ 1 (low_byte len)
  buf₃ ← store buf₂ 2 (low_byte (len / 2 ^ 8))
  buf₄ ← copy_in buf₃ 3 text
  done (buf₄, 1 + 2 + len)

-- What `tlv_read` stores through its pointers, and the size that it returns.
pub record Field : Type 0 where
  pub kind : ℕ
  pub value : List ℕ
  pub len : ℕ
  pub used : ℕ

unfoldable pub tlv_read : List ℕ → ℕ → Outcome Field
tlv_read buf buf_len = do
  accept (not (ltb buf_len 3))
  kind ← load buf 0
  lo ← load buf 1
  hi ← load buf 2
  let len = join_bytes lo hi
  accept (not (ltb buf_len (3 + len)))
  done (record { kind = kind; value = drop 3 buf; len = len; used = 3 + len })

-- The readers of one type return the value and the size used. `grant n` says whether
-- `heap_malloc(n)` returns memory; its result is not tested before it is written to.
unfoldable pub tlv_read_string : (ℕ → Bool) → List ℕ → ℕ → Outcome (List ℕ × ℕ)
unfolding tlv_read copy_out
tlv_read_string grant buf buf_len = do
  f ← tlv_read buf buf_len
  accept (not (f.used == 0 || not (f.kind == tag_string)))
  deref (grant (f.len + 1))
  s ← copy_out f.len f.value
  done (s ++ (0 ∷ []), f.used)

unfoldable pub tlv_read_u32 : List ℕ → ℕ → Outcome (ℕ × ℕ)
unfolding tlv_read copy_out
tlv_read_u32 buf buf_len = do
  f ← tlv_read buf buf_len
  accept (not (f.used == 0 || not (f.kind == tag_u32) || not (f.len == 4)))
  v ← copy_out 4 f.value
  done (u32_of_bytes v, f.used)

-- The same code; the result is the bit pattern of the int32_t.
unfoldable pub tlv_read_i32 : List ℕ → ℕ → Outcome (ℕ × ℕ)
unfolding tlv_read copy_out
tlv_read_i32 buf buf_len = do
  f ← tlv_read buf buf_len
  accept (not (f.used == 0 || not (f.kind == tag_u32) || not (f.len == 4)))
  v ← copy_out 4 f.value
  done (u32_of_bytes v, f.used)

unfoldable pub tlv_read_bytes : (ℕ → Bool) → List ℕ → ℕ → Outcome (List ℕ × ℕ)
unfolding tlv_read copy_out
tlv_read_bytes grant buf buf_len = do
  f ← tlv_read buf buf_len
  accept (not (f.used == 0 || not (f.kind == tag_bytes)))
  deref (grant f.len)
  p ← copy_out f.len f.value
  done (p, f.used)
