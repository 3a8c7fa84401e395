-- ===== src/Gen/Emit.antt =====
-- What the emit macros, the size estimate and the result encoder of rpc_gen.c write.
use native.Mathlib.Nat.{add_assoc}
use cc_rpc.Base.{
  zero, suc, overwrite_fits, ◌∙◌, ap, sym, replicate, length-replicate, ◌*◌, overwrite-append,
  length-append, append_assoc, ℕ, ◌+◌, ◌≤◌, ◌≡◌, refl, arith, List, [], ◌∷◌, ◌++◌, length, drop,
  none, some, Outcome, done, refuse, fault, ◌>>=◌, write_at, overwrite, Bool-cases, inl, inr, ltb,
  write_at-append, length-append, append_assoc,
}
use cc_rpc.Gen.{
  encode_result, rpc_estimate_field, rpc_estimate_param_size, FieldValue, string_value, u32_value,
  i32_value, bytes_value, emit_field, emit_fields,
}
use cc_rpc.Tlv.{
  c_string, tag_string, tag_u32, tag_bytes, u32_bytes, tlv_write_u32, tlv_write_bytes,
  tlv_write_string,
}
use cc_rpc.Tlv.Write.{
  field_bytes, put_bytes, put_bytes_fits, put_bytes_overflow, tlv_write_u32_lem,
  tlv_write_bytes_lem, tlv_write_string_lem,
}

-- The characters of a C string, where it has a terminator.
abbrev pub text_of : List ℕ → List ℕ
text_of s = elim (c_string s) [ done text ↦ text | _ ↦ [] ]

text_of_done : (s : List ℕ) {text : List ℕ} → c_string s ≡ done text → text_of s ≡ text
text_of_done s e = rw (e, text_of)

-- The bytes of one field on the wire: a null string has none.
abbrev pub wire : FieldValue → List ℕ
wire (string_value none) = []
wire (string_value (some s)) = field_bytes tag_string (text_of s)
wire (u32_value v) = field_bytes tag_u32 (u32_bytes v)
wire (i32_value v) = field_bytes tag_u32 (u32_bytes v)
wire (bytes_value c) = field_bytes tag_bytes c

abbrev pub wires : List FieldValue → List ℕ
wires [] = []
wires (v ∷ vs) = wire v ++ wires vs

-- A string that is not null has a terminator.
abbrev pub IsTerminated : FieldValue → Type 0
IsTerminated (string_value none) = Unit {0}
IsTerminated (string_value (some s)) = (text : List ℕ) × (c_string s ≡ done text)
IsTerminated (u32_value v) = Unit {0}
IsTerminated (i32_value v) = Unit {0}
IsTerminated (bytes_value c) = Unit {0}

abbrev pub AreTerminated : List FieldValue → Type 0
AreTerminated [] = Unit {0}
AreTerminated (v ∷ vs) = IsTerminated v × AreTerminated vs

abbrev pub null_strings : List FieldValue → ℕ
null_strings [] = 0
null_strings (string_value none ∷ vs) = 1 + null_strings vs
null_strings (_ ∷ vs) = null_strings vs

drop-replicate : (n m : ℕ) → drop n (replicate (n + m) 0) ≡ replicate {A = ℕ} m 0
drop-replicate zero m = let e : 0 + m ≡ m = omega arith in ap (λ k. replicate k 0) e
drop-replicate (suc n) m =
    let e : suc n + m ≡ suc (n + m) = omega arith in rw e (drop-replicate n m)

-- The result of a write to the rest of the buffer, as one to the whole.
abbrev pub behind : List ℕ → Outcome (List ℕ × ℕ) → Outcome (List ℕ × ℕ)
behind pre r = r >>= λ q. done (pre ++ q.0, length pre + q.1)

abbrev prefixed : List ℕ → Outcome (List ℕ × ℕ) → Outcome (List ℕ × ℕ)
prefixed pre r = r >>= λ q. done (pre ++ q.0, q.1)

abbrev advanced : ℕ → Outcome (List ℕ × ℕ) → Outcome (List ℕ × ℕ)
advanced off r = r >>= λ q. done (q.0, off + q.1)

advanced-prefixed :
    (pre : List ℕ) (r : Outcome (List ℕ × ℕ))
    → advanced (length pre) (prefixed pre r) ≡ behind pre r
advanced-prefixed pre (done q) = refl
advanced-prefixed pre refuse = refl
advanced-prefixed pre fault = refl

behind-nil : (r : Outcome (List ℕ × ℕ)) → behind [] r ≡ r
behind-nil (done q) = ground arith
behind-nil refuse = refl
behind-nil fault = refl

-- A copy of two parts, seen from behind the first.
behind-put_bytes :
    (pre xs ys buf : List ℕ)
    → length xs ≤ length buf
    → behind pre (put_bytes (xs ++ ys) buf)
      ≡ behind (pre ++ xs) (put_bytes ys (drop (length xs) buf))
behind-put_bytes pre xs ys buf h =
    rw (overwrite-append buf xs ys h) (regroup (overwrite (drop (length xs) buf) ys))
  where
    regroup :
        (r : Outcome (List ℕ))
        → behind pre (r >>= (λ b. done (xs ++ b)) >>= λ b. done (b, length (xs ++ ys)))
          ≡ behind (pre ++ xs) (r >>= λ b. done (b, length ys))
    regroup (done b) =
        rw (append_assoc, length-append xs ys, length-append pre xs)
          (ground (arith, add_assoc (length pre) (length xs) (length ys)))
    regroup refuse = refl
    regroup fault = refl

write_at-put_bytes :
    (pre buf : List ℕ) (f : List ℕ → Outcome (List ℕ × ℕ)) (bs : List ℕ)
    → f buf ≡ put_bytes bs buf
    → advanced (length pre) (write_at (pre ++ buf) (length pre) f) ≡ behind pre (put_bytes bs buf)
write_at-put_bytes pre buf f bs e =
    rw (write_at-append pre buf f, e) (advanced-prefixed pre (put_bytes bs buf))

module _ (write_i32 : List ℕ → ℕ → Outcome (List ℕ × ℕ))
    (writes_i32 : (buf : List ℕ) (v : ℕ)
      → write_i32 buf v ≡ put_bytes (field_bytes tag_u32 (u32_bytes v)) buf) where
  emit_field-wire :
      (pre buf : List ℕ) (v : FieldValue)
      → IsTerminated v
      → emit_field write_i32 (pre ++ buf) (length pre) v ≡ behind pre (put_bytes (wire v) buf)
  unfolding emit_field overwrite
  emit_field-wire pre buf (string_value none) t = ground arith
  emit_field-wire pre buf (string_value (some s)) (text, e) =
      write_at-put_bytes pre buf (λ b. tlv_write_string b s) (field_bytes tag_string (text_of s))
        (tlv_write_string_lem s buf e
          ∙ ap (λ t. put_bytes (field_bytes tag_string t) buf) (sym (text_of_done s e)))
  emit_field-wire pre buf (u32_value v) t =
      write_at-put_bytes pre buf (λ b. tlv_write_u32 b v) (field_bytes tag_u32 (u32_bytes v))
        (tlv_write_u32_lem v buf)
  emit_field-wire pre buf (i32_value v) t =
      write_at-put_bytes pre buf (λ b. write_i32 b v) (field_bytes tag_u32 (u32_bytes v))
        (writes_i32 buf v)
  emit_field-wire pre buf (bytes_value c) t =
      write_at-put_bytes pre buf (λ b. tlv_write_bytes b c) (field_bytes tag_bytes c)
        (tlv_write_bytes_lem c buf)

  -- The emitted fields are the wire form of the struct, put behind what is there: the same bytes
  -- as one copy, and the same overrun.
  pub emit_fields-wires :
      (vs : List FieldValue) (pre buf : List ℕ)
      → AreTerminated vs
      → emit_fields write_i32 (pre ++ buf) (length pre) vs ≡ behind pre (put_bytes (wires vs) buf)
  unfolding emit_fields
  emit_fields-wires [] pre buf t = unfold overwrite in ground arith
  emit_fields-wires (v ∷ vs) pre buf (t, ts) =
      elim (Bool-cases (ltb (length buf) (length (wire v)))) [
        | inl short ↦
            rw
              (
                emit_field-wire pre buf v t,
                put_bytes_overflow (wire v) buf (ground arith),
                put_bytes_overflow (wire v ++ wires vs) buf
                    (ground (arith, length-append (wire v) (wires vs))),
              )
              refl
        | inr fits ↦
            rw
              (
                emit_field-wire pre buf v t,
                put_bytes_fits (wire v) buf (ground arith),
                ← append_assoc pre (wire v) (drop (length (wire v)) buf),
                ← length-append pre (wire v),
                emit_fields-wires vs (pre ++ wire v) (drop (length (wire v)) buf) ts,
                behind-put_bytes pre (wire v) (wires vs) buf (ground arith),
              )
              refl
      ]

  -- If all strings have a terminator, tlv_write_i32 writes like tlv_write_u32 and the buffer has the
  -- bytes to be cleared, the result encoder copies the wire form of the result to the front of the
  -- cleared buffer; where the wire form is longer than the whole buffer it runs over the buffer's
  -- end, whatever out_len was.
  pub encode_result-wires :
      (r : List FieldValue) (buf : List ℕ) (out_len : ℕ)
      → AreTerminated r
      → out_len ≤ length buf
      → encode_result write_i32 r buf out_len
        ≡ put_bytes (wires r) (replicate out_len 0 ++ drop out_len buf)
  unfolding encode_result
  encode_result-wires r buf out_len t h =
      rw
        (
          overwrite_fits buf (replicate out_len 0)
              (omega (arith, length-replicate {A = ℕ} out_len 0)),
          length-replicate {A = ℕ} out_len 0,
        )
        (emit_fields-wires r [] _ t ∙ behind-nil _)

-- The estimate is the length of the wire form and three bytes for each null string.
pub rpc_estimate_param_size-wires :
    (vs : List FieldValue)
    → AreTerminated vs
    → rpc_estimate_param_size vs ≡ done (length (wires vs) + 3 * null_strings vs)
unfolding rpc_estimate_param_size rpc_estimate_field
rpc_estimate_param_size-wires [] t = refl
rpc_estimate_param_size-wires (string_value none ∷ vs) (t, ts) =
    rw (rpc_estimate_param_size-wires vs ts) (ground arith)
rpc_estimate_param_size-wires (string_value (some s) ∷ vs) ((text, e), ts) =
    rw (rpc_estimate_param_size-wires vs ts, e) (ground (arith, length-append text (wires vs)))
rpc_estimate_param_size-wires (u32_value v ∷ vs) (t, ts) =
    rw (rpc_estimate_param_size-wires vs ts) (ground arith)
rpc_estimate_param_size-wires (i32_value v ∷ vs) (t, ts) =
    rw (rpc_estimate_param_size-wires vs ts) (ground arith)
rpc_estimate_param_size-wires (bytes_value c ∷ vs) (t, ts) =
    rw (rpc_estimate_param_size-wires vs ts) (ground (arith, length-append c (wires vs)))

-- If all strings have a terminator and tlv_write_i32 writes like tlv_write_u32, the emitted fields
-- fit a buffer of the estimated size: the size used is the length of the wire form, and three bytes
-- are left over for each null string.
pub emit_fields-estimate :
    (write_i32 : List ℕ → ℕ → Outcome (List ℕ × ℕ))
    → ((buf : List ℕ) (v : ℕ) → write_i32 buf v ≡ put_bytes (field_bytes tag_u32 (u32_bytes v)) buf)
    → (vs : List FieldValue) → AreTerminated vs
    → (rpc_estimate_param_size vs >>= λ n. emit_fields write_i32 (replicate n 0) 0 vs)
      ≡ done (wires vs ++ replicate (3 * null_strings vs) 0, length (wires vs))
emit_fields-estimate write_i32 writes_i32 vs t =
    let n = length (wires vs) + 3 * null_strings vs in
    rw (rpc_estimate_param_size-wires vs t) (
      emit_fields-wires write_i32 writes_i32 vs [] (replicate n 0) t
      ∙ behind-nil _
      ∙ put_bytes_fits (wires vs) (replicate n 0) (omega (arith, length-replicate {A = ℕ} n 0))
      ∙ rw (drop-replicate (length (wires vs)) (3 * null_strings vs)) refl)
