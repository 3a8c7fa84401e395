-- ===== src/Tlv/Write.antt =====
-- What the writers of rpc_tlv.c leave in the buffer.
use cc_rpc.Base.{
  ℕ, ◌/◌, ◌^◌, ◌≤◌, ◌<◌, ◌≡◌, refl, arith, List, [], ◌∷◌, ◌++◌, length, drop, All, Outcome, done,
  fault, ◌>>=◌, ◌+◌, ltb, Bool-cases, inl, inr, length-append, write_at-append, overwrite-append,
  write_at, overwrite, overwrite_fits, overwrite_overflow,
}
use cc_rpc.Tlv.{
  tag_u32, tag_string, tag_bytes, low_byte, u32_bytes, c_string, tlv_write_u32, tlv_write_bytes,
  tlv_write_string,
}

-- A field as it lies on the wire.
abbrev pub field_bytes : ℕ → List ℕ → List ℕ
field_bytes tag content =
    tag ∷ low_byte (length content) ∷ low_byte (length content / 2 ^ 8) ∷ content

-- A string of nonzero characters with its terminator.
abbrev pub IsText : List ℕ → Type 0
IsText s = All (λ c. 0 < c) s

pub c_string-text : (s rest : List ℕ) → IsText s → c_string (s ++ (0 ∷ rest)) ≡ done s
unfolding c_string
c_string-text [] rest h = refl
c_string-text (c ∷ s) rest h = ground (arith, c_string-text s rest h.1)

-- Copies `bs` to the front of the buffer, or runs over its end, and returns their number.
abbrev pub put_bytes : List ℕ → List ℕ → Outcome (List ℕ × ℕ)
put_bytes bs buf = overwrite buf bs >>= λ buf'. done (buf', length bs)

pub put_bytes_fits :
    (bs buf : List ℕ)
    → length bs ≤ length buf
    → put_bytes bs buf ≡ done (bs ++ drop (length bs) buf, length bs)
put_bytes_fits bs buf h = rw (overwrite_fits buf bs h) refl

pub put_bytes_overflow : (bs buf : List ℕ) → length buf < length bs → put_bytes bs buf ≡ fault
put_bytes_overflow bs buf h = rw (overwrite_overflow buf bs h) refl

pub tlv_write_u32_lem :
    (v : ℕ) (buf : List ℕ) → tlv_write_u32 buf v ≡ put_bytes (field_bytes tag_u32 (u32_bytes v)) buf
unfolding tlv_write_u32
tlv_write_u32_lem v [] = refl
tlv_write_u32_lem v (a ∷ []) = refl
tlv_write_u32_lem v (a ∷ b ∷ []) = refl
tlv_write_u32_lem v (a ∷ b ∷ c ∷ []) = refl
tlv_write_u32_lem v (a ∷ b ∷ c ∷ d ∷ []) = refl
tlv_write_u32_lem v (a ∷ b ∷ c ∷ d ∷ e ∷ []) = refl
tlv_write_u32_lem v (a ∷ b ∷ c ∷ d ∷ e ∷ f ∷ []) = refl
tlv_write_u32_lem v (a ∷ b ∷ c ∷ d ∷ e ∷ f ∷ g ∷ buf) = refl

pub tlv_write_bytes_lem :
    (content buf : List ℕ)
    → tlv_write_bytes buf content ≡ put_bytes (field_bytes tag_bytes content) buf
unfolding tlv_write_bytes
tlv_write_bytes_lem content [] = refl
tlv_write_bytes_lem content (a ∷ []) = refl
tlv_write_bytes_lem content (a ∷ b ∷ []) = refl
tlv_write_bytes_lem content (a ∷ b ∷ c ∷ buf) = ground arith

pub tlv_write_string_lem :
    (s buf : List ℕ) {text : List ℕ}
    → c_string s ≡ done text
    → tlv_write_string buf s ≡ put_bytes (field_bytes tag_string text) buf
unfolding tlv_write_string
tlv_write_string_lem s [] e = rw e refl
tlv_write_string_lem s (a ∷ []) e = rw e refl
tlv_write_string_lem s (a ∷ b ∷ []) e = rw e refl
tlv_write_string_lem s (a ∷ b ∷ c ∷ buf) e = rw e (ground arith)

-- A write behind a prefix leaves the prefix, and two writes in a row are one.
pub put_bytes-append :
    (xs ys buf : List ℕ)
    → put_bytes (xs ++ ys) buf
      ≡ (put_bytes xs buf >>= λ r. write_at r.0 r.1 (put_bytes ys) >>= λ q. done (q.0, r.1 + q.1))
put_bytes-append xs ys buf = elim (Bool-cases (ltb (length buf) (length xs))) [
  | inl short ↦
      rw
        (
          overwrite_overflow buf xs (ground arith),
          overwrite_overflow buf (xs ++ ys) (ground (arith, length-append xs ys)),
        )
        refl
  | inr fits ↦
      rw
        (
          overwrite-append buf xs ys (ground arith),
          overwrite_fits buf xs (ground arith),
          write_at-append xs (drop (length xs) buf) (put_bytes ys),
        )
        (ground (arith, length-append xs ys))
]
