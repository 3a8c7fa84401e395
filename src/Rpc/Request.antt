-- ===== src/Rpc/Request.antt =====
-- `rpc_handle_request`: the server's side of a call.
pub mod Serve
pub mod Laws
use cc_rpc.Base.{
  ℕ, zero, suc, ◌+◌, ◌-◌, ◌≤◌, ◌<◌, List, [], ◌∷◌, ◌++◌, Bool, true, false, not, ◌&&◌, ◌||◌, Option,
  none, some, length, take, drop, replicate, ltb, leb, ◌==◌, if◌then◌else◌, ◌%◌, ◌^◌, Outcome, done,
  fault, ◌>>=◌, copy_out,
}
use cc_rpc.HashMap.{hashmap_get}
use cc_rpc.HashMap.Keys.{string_key}
use cc_rpc.Wire.{Header, header_size, load_header}
use cc_rpc.Rpc.State.{
  Rpc, Transport, MethodEntry, Event, param_freed, result_freed, status_ok, status_method_not_found,
  status_invalid_params, status_internal_error,
}
use cc_rpc.Rpc.Send.{rpc_send_response_tlv}

-- METHOD_LEN, and the sizes of the static buffers
abbrev pub method_size : ℕ
method_size = 128

abbrev pub rpc_max_param_size : ℕ
rpc_max_param_size = 4096

abbrev pub rpc_max_result_size : ℕ
rpc_max_result_size = 4096

abbrev pub rpc_max_result_tlv_size : ℕ
rpc_max_result_tlv_size = 4096

-- The string that `method` holds once its terminator is written: it ends at the first 0.
unfoldable pub method_name : List ℕ → List ℕ
method_name [] = []
method_name (c ∷ cs) = let rest = method_name cs in if c == 0 then [] else c ∷ rest

-- The early returns on a malformed request whose header is there, for a message of `len` bytes.
unfoldable pub request_accepted : Header → ℕ → Bool
request_accepted hdr len =
    not (ltb hdr.msg_len hdr.method_len)
    && not (hdr.method_len == 0 || leb method_size hdr.method_len)
    && not (ltb len (header_size + hdr.msg_len))

-- What is copied to `method`, which has `method_size` bytes, the terminator included.
unfoldable pub read_method : ℕ → List ℕ → Outcome (List ℕ)
unfolding method_name
read_method method_len payload = copy_out method_len payload >>= λ chars.
    if leb method_size method_len then fault else done (method_name chars)

-- What the callbacks leave: a missing parser or handler leaves its zeroed buffer, a missing encoder
-- the whole zeroed `resp_tlv`.
unfoldable pub parser_output : MethodEntry → List ℕ → Bool × List ℕ
parser_output m tlv = elim m.parse_param [
  | none ↦ (true, replicate rpc_max_param_size 0)
  | some parse ↦ parse tlv
]

unfoldable pub handler_output : MethodEntry → List ℕ → Bool × List ℕ
handler_output m param = elim m.handler [
  | none ↦ (true, replicate rpc_max_result_size 0)
  | some handle ↦ handle param
]

unfoldable pub encoder_output : MethodEntry → List ℕ → Bool × List ℕ
encoder_output m result = elim m.encode_result [
  | none ↦ (true, replicate rpc_max_result_tlv_size 0)
  | some encode ↦ encode result
]

-- A callback that leaves more than the static buffer holds has written past its end.
unfoldable pub in_buffer : ℕ → Bool × List ℕ → Outcome (Bool × List ℕ)
in_buffer size r = if leb (length r.1) size then done r else fault

unfoldable pub run_parser : MethodEntry → List ℕ → Outcome (Bool × List ℕ)
unfolding parser_output in_buffer
run_parser m tlv = in_buffer rpc_max_param_size (parser_output m tlv)

unfoldable pub run_handler : MethodEntry → List ℕ → Outcome (Bool × List ℕ)
unfolding handler_output in_buffer
run_handler m param = in_buffer rpc_max_result_size (handler_output m param)

unfoldable pub run_encoder : MethodEntry → List ℕ → Outcome (Bool × List ℕ)
unfolding encoder_output in_buffer
run_encoder m result = in_buffer rpc_max_result_tlv_size (encoder_output m result)

-- The status and the response payload: parser, handler, encoder, each only while all is well.
unfoldable pub encode_reply : MethodEntry → Bool × List ℕ → Outcome (ℕ × List ℕ)
unfolding run_encoder
encode_reply m handled =
    if not handled.0
    then done (status_internal_error, [])
    else run_encoder m handled.1 >>= λ encoded.
        done (if not encoded.0 then (status_internal_error, []) else (status_ok, encoded.1))

unfoldable pub handle_parsed : MethodEntry → Bool × List ℕ → Outcome (ℕ × List ℕ)
unfolding run_handler encode_reply
handle_parsed m parsed =
    if not parsed.0
    then done (status_invalid_params, [])
    else run_handler m parsed.1 >>= encode_reply m

unfoldable pub execute_method : MethodEntry → List ℕ → Outcome (ℕ × List ℕ)
unfolding run_parser handle_parsed
execute_method m tlv = run_parser m tlv >>= handle_parsed m

-- The calls of `free_param` and `free_result`, where they are set.
unfoldable pub free_buffers : MethodEntry → Rpc → Rpc
free_buffers m s = record s {
  log =
      s.log
      ++ ((if m.free_param then param_freed m.name ∷ [] else [])
          ++ (if m.free_result then result_freed m.name ∷ [] else []));
}

-- The answer to a request for a method that was looked up
unfoldable pub answer_request :
    (ℕ → ℕ → Bool) → Transport → ℕ → List ℕ → Rpc → Option MethodEntry → Outcome Rpc
unfolding execute_method free_buffers
answer_request grant t seq tlv s none =
    done (rpc_send_response_tlv grant t seq status_method_not_found [] s).1
answer_request grant t seq tlv s (some m) = execute_method m tlv >>= λ r.
    done (free_buffers m (rpc_send_response_tlv grant t seq r.0 r.1 s).1)

-- The name and the parameters are read from the bytes behind the header.
unfoldable pub serve_request : (ℕ → ℕ → Bool) → Transport → Header → List ℕ → Rpc → Outcome Rpc
unfolding read_method answer_request
serve_request grant t hdr payload s = read_method hdr.method_len payload >>= λ name.
    copy_out ((hdr.msg_len + 2 ^ 32 - hdr.method_len) % 2 ^ 32) (drop hdr.method_len payload)
    >>= λ tlv. answer_request grant t hdr.seq tlv s (hashmap_get s.methods name)

unfoldable pub rpc_handle_request : (ℕ → ℕ → Bool) → Transport → List ℕ → Rpc → Outcome Rpc
unfolding request_accepted serve_request load_header
rpc_handle_request grant t msg s =
    if ltb (length msg) header_size
    then done s
    else load_header msg >>= λ hdr.
        if request_accepted hdr (length msg)
        then serve_request grant t hdr (drop header_size msg) s
        else done s
