-- ===== src/Tests/Fields.antt =====
-- A struct with a field of each type, written, sent and read back.
use cc_rpc.Base.{
  ℕ, ◌+◌, ◌*◌, ◌≡◌, ◌≢◌, refl, arith, List, [], ◌∷◌, ◌++◌, Bool, true, some, length, drop,
  replicate, done, fault, ◌>>=◌,
}
use cc_rpc.Tlv.{c_string, tag_u32, tag_bytes, u32_bytes, tlv_write_u32, tlv_read}
use cc_rpc.Tlv.Write.{field_bytes, put_bytes, tlv_write_u32_lem}
use cc_rpc.Tlv.Read.{stored_len, tlv_read-field_bytes}
use cc_rpc.Gen.{
  FieldValue, string_value, u32_value, i32_value, bytes_value, string, bytes, parse_fields,
  emit_fields, encode_result, rpc_estimate_param_size, rpc_call_stub,
}
use cc_rpc.Gen.Emit.{wires, null_strings, AreTerminated, encode_result-wires, emit_fields-estimate}
use cc_rpc.Gen.Parse.{
  types_of, all_received, AreSendable, AreSendable-AreTerminated, parse_fields-wires,
  parse_fields-ne-fault,
}
use cc_rpc.Gen.Stub.{rpc_call_stub-wires}

abbrev values : List FieldValue
values =
    string_value (some (104 ∷ 105 ∷ 0 ∷ []))
    ∷ u32_value 0x01020304
    ∷ i32_value 0xFFFFFFFE
    ∷ bytes_value (1 ∷ 2 ∷ 3 ∷ [])
    ∷ []

values-AreSendable : AreSendable values
unfolding c_string
values-AreSendable = ((refl, omega arith), (omega arith, (omega arith, (omega arith, tt))))

values-AreTerminated : AreTerminated values
values-AreTerminated = AreSendable-AreTerminated values values-AreSendable

abbrev grant_all : ℕ → Bool
grant_all _ = true

abbrev grant_fields : ℕ → ℕ → Bool
grant_fields _ _ = true

writes_i32 :
    (buf : List ℕ) (v : ℕ) → tlv_write_u32 buf v ≡ put_bytes (field_bytes tag_u32 (u32_bytes v)) buf
writes_i32 buf v = tlv_write_u32_lem v buf

rpc_call_stub-wires_example :
    rpc_call_stub tlv_write_u32 grant_all grant_fields
      (λ _. some (wires values))
      (types_of values)
      values
    ≡ done (all_received values)
rpc_call_stub-wires_example =
    rpc_call_stub-wires tlv_write_u32 writes_i32 grant_all (λ n. refl) grant_fields (λ i n. refl)
      (λ _. some (wires values)) values values values-AreTerminated values-AreSendable refl

parse_fields-wires_example :
    parse_fields grant_fields 0 (types_of values) (wires values ++ (7 ∷ [])) 30
    ≡ done (all_received values)
unfolding c_string
parse_fields-wires_example =
    parse_fields-wires grant_fields (λ i n. refl) 0 values (7 ∷ []) 30 values-AreSendable
      (omega arith)

parse_fields-ne-fault_example :
    parse_fields grant_fields 0 (string ∷ bytes ∷ []) (2 ∷ 255 ∷ 255 ∷ 1 ∷ []) 4 ≢ fault
parse_fields-ne-fault_example =
    parse_fields-ne-fault grant_fields (λ i n. refl) 0 (string ∷ bytes ∷ [])
      (2 ∷ 255 ∷ 255 ∷ 1 ∷ []) 4 (omega arith)

encode_result-wires_example :
    encode_result tlv_write_u32 values (replicate 40 9) 32
    ≡ put_bytes (wires values) (replicate 32 0 ++ drop 32 (replicate 40 9))
encode_result-wires_example =
    encode_result-wires tlv_write_u32 writes_i32 values (replicate 40 9) 32 values-AreTerminated
      (omega arith)

emit_fields-estimate_example :
    (rpc_estimate_param_size values >>= λ n. emit_fields tlv_write_u32 (replicate n 0) 0 values)
    ≡ done (wires values ++ replicate (3 * null_strings values) 0, length (wires values))
emit_fields-estimate_example =
    emit_fields-estimate tlv_write_u32 writes_i32 values values-AreTerminated

tlv_read-field_bytes_example :
    tlv_read (field_bytes tag_bytes (1 ∷ 2 ∷ []) ++ (9 ∷ [])) 6
    ≡ done (record {
      kind = tag_bytes;
      value = (1 ∷ 2 ∷ []) ++ (9 ∷ []);
      len = stored_len (1 ∷ 2 ∷ []);
      used = 3 + stored_len (1 ∷ 2 ∷ []);
    })
tlv_read-field_bytes_example = tlv_read-field_bytes tag_bytes (1 ∷ 2 ∷ []) (9 ∷ []) 6 (omega arith)
