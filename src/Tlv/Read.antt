-- ===== src/Tlv/Read.antt =====
-- What the readers of rpc_tlv.c give on fields that the writers made, and on any bytes at all.
use cc_rpc.Base.{
  ℕ, ◌+◌, ◌%◌, ◌^◌, ◌≤◌, ◌<◌, ◌≡◌, refl, arith, List, [], ◌∷◌, ◌++◌, length, drop, take, Bool, true,
  false, Outcome, done, refuse, fault, ◌>>=◌, copy_out, copy_out-take, Bool-cases, ◌≢◌, not, ◌||◌,
  ◌==◌, subst, take-append, length-append, length-drop, accept, ◌>>◌, inl, inr, ◌⊎◌,
}
use cc_rpc.Tlv.{
  IsU32, tag_u32, tag_string, tag_bytes, u32_bytes, u32_of_bytes, Field, tlv_read, tlv_read_string,
  tlv_read_u32, tlv_read_i32, tlv_read_bytes,
}
use cc_rpc.Tlv.Write.{field_bytes}

-- The length that the two length bytes hold.
abbrev pub stored_len : List ℕ → ℕ
stored_len content = length content % 2 ^ 16

-- Of a field that was written, with any tag, content and bytes behind it, tlv_read gives the tag and
-- the content's length modulo 2^16, if the buffer's length is at least that much and 3.
pub tlv_read-field_bytes :
    (tag : ℕ) (content rest : List ℕ) (buf_len : ℕ)
    → 3 + stored_len content ≤ buf_len
    → tlv_read (field_bytes tag content ++ rest) buf_len
      ≡ done (record {
        kind = tag;
        value = content ++ rest;
        len = stored_len content;
        used = 3 + stored_len content;
      })
unfolding tlv_read
tlv_read-field_bytes tag content rest buf_len h = ground arith

copy_out-append : (xs ys : List ℕ) → copy_out (length xs) (xs ++ ys) ≡ done xs
copy_out-append xs ys =
    rw (copy_out-take (length xs) (xs ++ ys) (omega (arith, length-append xs ys)), take-append) refl

module _ (grant : ℕ → Bool) (content rest : List ℕ) (buf_len : ℕ) (small : length content < 2 ^ 16)
    (room : 3 + length content ≤ buf_len) where
  whole : stored_len content ≡ length content
  whole = omega arith

  header :
      (tag : ℕ)
      → tlv_read (field_bytes tag content ++ rest) buf_len
        ≡ done (record {
          kind = tag;
          value = content ++ rest;
          len = length content;
          used = 3 + length content;
        })
  header tag =
      subst
        (λ n.
          tlv_read (field_bytes tag content ++ rest) buf_len
          ≡ done (record { kind = tag; value = content ++ rest; len = n; used = 3 + n }))
        whole (tlv_read-field_bytes tag content rest buf_len (omega arith))

  used_pos : (3 + length content == 0) ≡ false
  used_pos = ground arith

  pub tlv_read_bytes-field_bytes :
      grant (length content) ≡ true
      → tlv_read_bytes grant (field_bytes tag_bytes content ++ rest) buf_len
        ≡ done (content, 3 + length content)
  unfolding tlv_read_bytes
  tlv_read_bytes-field_bytes g = rw (header tag_bytes, used_pos, g, copy_out-append) refl

  pub tlv_read_string-field_bytes :
      grant (length content + 1) ≡ true
      → tlv_read_string grant (field_bytes tag_string content ++ rest) buf_len
        ≡ done (content ++ (0 ∷ []), 3 + length content)
  unfolding tlv_read_string
  tlv_read_string-field_bytes g = rw (header tag_string, used_pos, g, copy_out-append) refl

pub u32_of_bytes-u32_bytes : (v : ℕ) → IsU32 v → u32_of_bytes (u32_bytes v) ≡ v
u32_of_bytes-u32_bytes v h = omega arith

module _ (v : ℕ) (rest : List ℕ) (buf_len : ℕ) (small : IsU32 v) (room : 7 ≤ buf_len) where
  pub tlv_read_u32-field_bytes :
      tlv_read_u32 (field_bytes tag_u32 (u32_bytes v) ++ rest) buf_len ≡ done (v, 7)
  unfolding tlv_read_u32
  tlv_read_u32-field_bytes = ground (arith, u32_of_bytes-u32_bytes v small)

  pub tlv_read_i32-field_bytes :
      tlv_read_i32 (field_bytes tag_u32 (u32_bytes v) ++ rest) buf_len ≡ done (v, 7)
  unfolding tlv_read_i32
  tlv_read_i32-field_bytes = ground (arith, u32_of_bytes-u32_bytes v small)

-- What a successful `tlv_read` says of the bytes.
pub tlv_read_inv :
    (buf : List ℕ) (buf_len : ℕ) (f : Field)
    → tlv_read buf buf_len ≡ done f
    → (f.used ≡ 3 + f.len) × (f.used ≤ buf_len) × (f.value ≡ drop 3 buf)
unfolding tlv_read
tlv_read_inv [] buf_len f e = ground arith
tlv_read_inv (a ∷ []) buf_len f e = ground arith
tlv_read_inv (a ∷ b ∷ []) buf_len f e = ground arith
tlv_read_inv (a ∷ b ∷ c ∷ buf) buf_len f e = ground arith

pub tlv_read-ne-fault :
    (buf : List ℕ) (buf_len : ℕ) → buf_len ≤ length buf → tlv_read buf buf_len ≢ fault
unfolding tlv_read
tlv_read-ne-fault [] buf_len h = ground arith
tlv_read-ne-fault (a ∷ []) buf_len h = ground arith
tlv_read-ne-fault (a ∷ b ∷ []) buf_len h = ground arith
tlv_read-ne-fault (a ∷ b ∷ c ∷ buf) buf_len h = ground arith

-- A reader's outcome within `buf_len` readable bytes: no access outside them, and a field that is
-- read takes 3 to `buf_len` bytes, so that the next field starts inside or at the end.
abbrev pub IsWithin {ℓ} : {A : Type ℓ} → ℕ → Outcome (A × ℕ) → Type 0
IsWithin buf_len (done (v, used)) = (3 ≤ used) × (used ≤ buf_len)
IsWithin buf_len refuse = Unit {0}
IsWithin buf_len fault = ⊥

Outcome-cases {ℓ} :
    {A : Type ℓ} (r : Outcome A) → ((a : A) × (r ≡ done a)) ⊎ ((r ≡ refuse) ⊎ (r ≡ fault))
Outcome-cases (done a) = inl (a, refl)
Outcome-cases refuse = inr (inl refl)
Outcome-cases fault = inr (inr refl)

module _ (grant : ℕ → Bool) (granted : (n : ℕ) → grant n ≡ true) (buf : List ℕ) (buf_len : ℕ)
    (readable : buf_len ≤ length buf) where
  IsWithin-read {ℓ} :
      {A : Type ℓ} (k : Field → Outcome (A × ℕ))
      → ((f : Field)
          → f.used ≡ 3 + f.len
          → f.used ≤ buf_len
          → copy_out f.len f.value ≡ done (take f.len f.value)
          → IsWithin buf_len (k f))
      → IsWithin buf_len (tlv_read buf buf_len >>= k)
  IsWithin-read k h = elim (Outcome-cases (tlv_read buf buf_len)) [
    | inl (f, e) ↦
        let (size, fits, value) = tlv_read_inv buf buf_len f e in
        rw e (
          h f size fits (copy_out-take f.len f.value (rw value (omega (arith, length-drop 3 buf)))))
    | inr (inl e) ↦ rw e tt
    | inr (inr e) ↦ absurd (tlv_read-ne-fault buf buf_len readable e)
  ]

  pub tlv_read_bytes-IsWithin : IsWithin buf_len (tlv_read_bytes grant buf buf_len)
  unfolding tlv_read_bytes
  tlv_read_bytes-IsWithin =
      IsWithin-read _ λ f size fits copied. rw (granted f.len, copied) (ground arith)

  -- If memory is granted and buf_len bytes can be read, tlv_read_string on any bytes stays within
  -- them, and a string that is read takes from 3 to buf_len bytes.
  pub tlv_read_string-IsWithin : IsWithin buf_len (tlv_read_string grant buf buf_len)
  unfolding tlv_read_string
  tlv_read_string-IsWithin =
      IsWithin-read _ λ f size fits copied. rw (granted (f.len + 1), copied) (ground arith)

  word-IsWithin : IsWithin buf_len (do
    f ← tlv_read buf buf_len
    accept (not (f.used == 0 || not (f.kind == tag_u32) || not (f.len == 4)))
    v ← copy_out 4 f.value
    done (u32_of_bytes v, f.used))
  word-IsWithin = IsWithin-read _ λ f size fits copied. elim (Bool-cases (f.len == 4)) [
    | inl four ↦
        let n : f.len ≡ 4 = ground arith in
        rw (four, subst (λ m. copy_out m f.value ≡ done (take m f.value)) n copied) (ground arith)
    | inr other ↦ rw other (ground arith)
  ]

  pub tlv_read_u32-IsWithin : IsWithin buf_len (tlv_read_u32 buf buf_len)
  unfolding tlv_read_u32
  tlv_read_u32-IsWithin = word-IsWithin

  pub tlv_read_i32-IsWithin : IsWithin buf_len (tlv_read_i32 buf buf_len)
  unfolding tlv_read_i32
  tlv_read_i32-IsWithin = word-IsWithin
