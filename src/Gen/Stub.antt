-- ===== src/Gen/Stub.antt =====
-- The client stub of rpc_gen.c, from the parameters to the parsed result, and a null string on its way.
use cc_rpc.Base.{
  ℕ, ◌+◌, ◌*◌, ◌≡◌, refl, sym, ap, ◌∙◌, arith, List, [], ◌∷◌, ◌++◌, length, replicate, Option, none,
  some, Bool, true, Outcome, done, refuse, ◌>>=◌, take-append, append-nil,
}
use cc_rpc.Tlv.{tag_u32, u32_bytes, tlv_read_string}
use cc_rpc.Tlv.Write.{field_bytes, put_bytes}
use cc_rpc.Gen.{
  FieldValue, string_value, u32_value, i32_value, bytes_value, parse_field, parse_fields,
  rpc_param_parse, rpc_call_stub, rpc_estimate_param_size, emit_fields, rpc_resp_buf_size,
}
use cc_rpc.Gen.Emit.{
  wires, AreTerminated, null_strings, emit_fields-estimate, rpc_estimate_param_size-wires,
}
use cc_rpc.Gen.Parse.{types_of, all_received, AreSendable, parse_fields-wires}

module _ (write_i32 : List ℕ → ℕ → Outcome (List ℕ × ℕ))
    (writes_i32 : (buf : List ℕ) (v : ℕ)
      → write_i32 buf v ≡ put_bytes (field_bytes tag_u32 (u32_bytes v)) buf)
    (grant : ℕ → Bool) (granted : (n : ℕ) → grant n ≡ true) (grant_field : ℕ → ℕ → Bool)
    (granted_field : (i n : ℕ) → grant_field i n ≡ true) where
  emitted :
      (params : List FieldValue) (n : ℕ)
      → AreTerminated params
      → rpc_estimate_param_size params ≡ done n
      → emit_fields write_i32 (replicate n 0) 0 params
        ≡ done (wires params ++ replicate (3 * null_strings params) 0, length (wires params))
  emitted params n t e =
      ap (λ r. r >>= λ m. emit_fields write_i32 (replicate m 0) 0 params) (sym e)
      ∙ emit_fields-estimate write_i32 writes_i32 params t

  -- If memory is granted, tlv_write_i32 writes like tlv_write_u32, the strings of the parameters
  -- have terminators and the results can be sent, then a stub whose call carries the wire form of
  -- the parameters out and the wire form of the results back returns those results.
  pub rpc_call_stub-wires :
      (call : List ℕ → Option (List ℕ)) (params results : List FieldValue)
      → AreTerminated params
      → AreSendable results
      → call (wires params) ≡ some (wires results)
      → rpc_call_stub write_i32 grant grant_field call (types_of results) params
        ≡ done (all_received results)
  unfolding rpc_call_stub rpc_param_parse
  rpc_call_stub-wires call params results t s answer =
      let n = length (wires params) + 3 * null_strings params in
      rw
        (
          rpc_estimate_param_size-wires params t,
          granted n,
          emitted params n t (rpc_estimate_param_size-wires params t),
          granted rpc_resp_buf_size,
          take-append (wires params) (replicate (3 * null_strings params) 0),
          answer,
        )
        (ap (λ b. parse_fields grant_field 0 (types_of results) b (length (wires results)))
            (sym (append-nil (wires results)))
          ∙ parse_fields-wires grant_field granted_field 0 results [] (length (wires results)) s
              (omega arith))

abbrev pub NoStringFirst : List FieldValue → Type 0
NoStringFirst [] = Unit {0}
NoStringFirst (string_value s ∷ vs) = ⊥
NoStringFirst (u32_value v ∷ vs) = Unit {0}
NoStringFirst (i32_value v ∷ vs) = Unit {0}
NoStringFirst (bytes_value c ∷ vs) = Unit {0}

-- A null string in the first place, with no string in the second, makes a wire form that the
-- receiver's parser refuses.
pub parse_fields-null_string :
    (grant : ℕ → ℕ → Bool) (vs : List FieldValue)
    → NoStringFirst vs
    → parse_fields grant 0
        (types_of (string_value none ∷ vs))
        (wires (string_value none ∷ vs))
        (length (wires (string_value none ∷ vs)))
      ≡ refuse
unfolding parse_fields parse_field tlv_read_string
parse_fields-null_string grant [] h = refl
parse_fields-null_string grant (string_value s ∷ vs) h = absurd h
parse_fields-null_string grant (u32_value v ∷ vs) h = ground arith
parse_fields-null_string grant (i32_value v ∷ vs) h = ground arith
parse_fields-null_string grant (bytes_value c ∷ vs) h = ground arith
