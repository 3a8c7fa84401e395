-- ===== src/Gen.antt =====
-- The code that the macros of ccrpc/source/rpc_gen.c make of a parameter or result list: one
-- function over the list of its fields in place of one copy for each struct.
pub mod Emit
pub mod Parse
pub mod Stub
use cc_rpc.Base.{
  ℕ, ◌+◌, ◌-◌, List, [], ◌∷◌, Bool, Option, none, some, Outcome, done, refuse, fault, ◌>>=◌, length,
  drop, write_at, accept, take, ◌>>◌, overwrite, replicate,
}
use cc_rpc.Tlv.{
  c_string, tlv_write_u32, tlv_write_string, tlv_write_bytes, tlv_read_string, tlv_read_u32,
  tlv_read_i32, tlv_read_bytes,
}

-- FIELD(type, name), with the type of the field in the struct.
pub data FieldType : Type 0 where
  string u32 i32 bytes : FieldType

-- A string is a pointer, null or to memory that should hold a terminator. An int32_t is its bits.
pub data FieldValue : Type 0 where
  string_value : Option (List ℕ) → FieldValue
  u32_value : ℕ → FieldValue
  i32_value : ℕ → FieldValue
  bytes_value : List ℕ → FieldValue

abbrev pub type_of : FieldValue → FieldType
type_of (string_value s) = string
type_of (u32_value v) = u32
type_of (i32_value v) = i32
type_of (bytes_value b) = bytes

-- PARSE_FIELD_string and the like, with the size used. `grant n`: `heap_malloc(n)` has memory.
unfoldable pub parse_field : (ℕ → Bool) → FieldType → List ℕ → ℕ → Outcome (FieldValue × ℕ)
parse_field grant string p remain =
    tlv_read_string grant p remain >>= λ r. done (string_value (some r.0), r.1)
parse_field grant u32 p remain = tlv_read_u32 p remain >>= λ r. done (u32_value r.0, r.1)
parse_field grant i32 p remain = tlv_read_i32 p remain >>= λ r. done (i32_value r.0, r.1)
parse_field grant bytes p remain =
    tlv_read_bytes grant p remain >>= λ r. done (bytes_value r.0, r.1)

-- GEN_PARAM_PARSER and GEN_RESULT_PARSER. `grant i` is the allocator at the i-th field.
unfoldable pub parse_fields :
    (ℕ → ℕ → Bool) → ℕ → List FieldType → List ℕ → ℕ → Outcome (List FieldValue)
parse_fields grant i [] p remain = done []
parse_fields grant i (t ∷ ts) p remain = do
  r ← parse_field (grant i) t p remain
  vs ← parse_fields grant (i + 1) ts (drop r.1 p) (remain - r.1)
  done (r.0 ∷ vs)

unfoldable pub rpc_param_parse :
    (ℕ → ℕ → Bool) → List FieldType → List ℕ → ℕ → Outcome (List FieldValue)
rpc_param_parse grant types tlv len = parse_fields grant 0 types tlv len

-- `tlv_write_i32` has no definition in the program: it is the argument `write_i32`.
module _ (write_i32 : List ℕ → ℕ → Outcome (List ℕ × ℕ)) where
  -- RPC_EMIT_FIELD_string and the like: `off += tlv_write_…(&buf[off], …)`.
  unfoldable pub emit_field : List ℕ → ℕ → FieldValue → Outcome (List ℕ × ℕ)
  emit_field buf off (string_value none) = done (buf, off)
  emit_field buf off (string_value (some s)) =
      write_at buf off (λ b. tlv_write_string b s) >>= λ r. done (r.0, off + r.1)
  emit_field buf off (u32_value v) =
      write_at buf off (λ b. tlv_write_u32 b v) >>= λ r. done (r.0, off + r.1)
  emit_field buf off (i32_value v) =
      write_at buf off (λ b. write_i32 b v) >>= λ r. done (r.0, off + r.1)
  emit_field buf off (bytes_value c) =
      write_at buf off (λ b. tlv_write_bytes b c) >>= λ r. done (r.0, off + r.1)

  unfoldable pub emit_fields : List ℕ → ℕ → List FieldValue → Outcome (List ℕ × ℕ)
  emit_fields buf off [] = done (buf, off)
  emit_fields buf off (v ∷ vs) = emit_field buf off v >>= λ r. emit_fields r.0 r.1 vs

  -- GEN_RESULT_ENCODER: `*out_len` bytes are cleared, and the room is not looked at again.
  unfoldable pub encode_result : List FieldValue → List ℕ → ℕ → Outcome (List ℕ × ℕ)
  encode_result r buf out_len =
      overwrite buf (replicate out_len 0) >>= λ cleared. emit_fields cleared 0 r

-- rpc_estimate_field_string and the like.
unfoldable pub rpc_estimate_field : FieldValue → Outcome ℕ
rpc_estimate_field (string_value none) = done (1 + 2 + 0)
rpc_estimate_field (string_value (some s)) = c_string s >>= λ text. done (1 + 2 + length text)
rpc_estimate_field (u32_value v) = done (1 + 2 + 4)
rpc_estimate_field (i32_value v) = done (1 + 2 + 4)
rpc_estimate_field (bytes_value c) = done (1 + 2 + length c)

unfoldable pub rpc_estimate_param_size : List FieldValue → Outcome ℕ
rpc_estimate_param_size [] = done 0
rpc_estimate_param_size (v ∷ vs) = do
  n ← rpc_estimate_field v
  m ← rpc_estimate_param_size vs
  done (n + m)

abbrev pub rpc_resp_buf_size : ℕ
rpc_resp_buf_size = 4096

-- GEN_STUB. `call tlv` is `rpc_call_with_tlv(rpcname, ...)`: the response bytes if it returns 0, and
-- none at any other status, which the stub passes on. `grant` is the allocator at the two buffers,
-- and `grant_field` at the fields of the result.
unfoldable pub rpc_call_stub :
    (List ℕ → ℕ → Outcome (List ℕ × ℕ))
    → (ℕ → Bool)
    → (ℕ → ℕ → Bool)
    → (List ℕ → Option (List ℕ))
    → List FieldType
    → List FieldValue
    → Outcome (List FieldValue)
rpc_call_stub write_i32 grant grant_field call results params = do
  tlv_size ← rpc_estimate_param_size params
  accept (grant tlv_size)
  (tlvbuf, off) ← emit_fields write_i32 (replicate tlv_size 0) 0 params
  accept (grant rpc_resp_buf_size)
  elim (call (take off tlvbuf)) [
    | none ↦ refuse
    | some resp ↦ rpc_param_parse grant_field results resp (length resp)
  ]
