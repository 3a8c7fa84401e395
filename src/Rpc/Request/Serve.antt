-- ===== src/Rpc/Request/Serve.antt =====
-- The callbacks of a method, and what a run of `rpc_handle_request` on any bytes keeps.
use cc_rpc.Base.{
  ◌≤◌, copy_out-take, Outcome, done, length-drop, ℕ, ◌+◌, ◌-◌, ◌%◌, ◌^◌, ◌<◌, ◌≡◌, refl, arith,
  List, [], ◌∷◌, Bool, true, false, not, ◌||◌, ◌&&◌, Option, none, some, length, take, drop, ltb,
  leb, ◌==◌, if◌then◌else◌, Bool-cases, inl, inr,
}
use cc_rpc.HashMap.{HashMap, hashmap_get}
use cc_rpc.HashMap.Keys.{string_key}
use cc_rpc.Tlv.Write.{IsText}
use cc_rpc.Wire.{Header, header_size, read_header, load_header}
use cc_rpc.Rpc.State.{
  Rpc, Transport, MethodEntry, status_ok, status_method_not_found, status_invalid_params,
  status_internal_error,
}
use cc_rpc.Rpc.Send.{rpc_send_response_tlv, response_bytes}
use cc_rpc.Rpc.Request.{
  method_size, rpc_max_param_size, rpc_max_result_size, rpc_max_result_tlv_size, method_name,
  request_accepted, read_method, parser_output, handler_output, encoder_output, in_buffer,
  run_parser, run_handler, run_encoder, encode_reply, handle_parsed, execute_method, free_buffers,
  answer_request, serve_request, rpc_handle_request,
}
use cc_rpc.Rpc.Invariant.{core, send_message-core}

pub response-core :
    (grant : ℕ → ℕ → Bool) (t : Transport) (seq status : ℕ) (tlv : List ℕ) (s : Rpc)
    → core (rpc_send_response_tlv grant t seq status tlv s).1 ≡ core s
unfolding rpc_send_response_tlv
response-core grant t seq status tlv s = send_message-core grant t (response_bytes seq status tlv) s

-- The callbacks of a method keep to the static buffers when they run on these parameters.
pub record FitsBuffers (m : MethodEntry) (tlv : List ℕ) : Type 0 where
  pub parsed : length (parser_output m tlv).1 ≤ rpc_max_param_size
  pub handled :
      (parser_output m tlv).0 ≡ true
      → length (handler_output m (parser_output m tlv).1).1 ≤ rpc_max_result_size
  pub encoded :
      (parser_output m tlv).0 ≡ true
      → (handler_output m (parser_output m tlv).1).0 ≡ true
      → length (encoder_output m (handler_output m (parser_output m tlv).1).1).1
        ≤ rpc_max_result_tlv_size

-- The callbacks of every registered method keep to the static buffers.
abbrev pub AllFit : HashMap (List ℕ) MethodEntry → Type 0
AllFit methods =
    (name : List ℕ) (m : MethodEntry)
    → hashmap_get methods name ≡ some m
    → (tlv : List ℕ) → FitsBuffers m tlv

-- What the client is told: the encoded result if all went well, and otherwise a status alone.
abbrev pub choose_reply : Bool → Bool → Bool → List ℕ → ℕ × List ℕ
choose_reply parsed handled encoded bytes =
    if parsed && handled && encoded
    then (status_ok, bytes)
    else ((if parsed then status_internal_error else status_invalid_params), [])

unfoldable pub method_result : MethodEntry → List ℕ → ℕ × List ℕ
method_result m tlv =
    let parsed = parser_output m tlv in
    let handled = handler_output m parsed.1 in
    let encoded = encoder_output m handled.1 in choose_reply parsed.0 handled.0 encoded.0 encoded.1

pub in_buffer_lem : (size : ℕ) (r : Bool × List ℕ) → length r.1 ≤ size → in_buffer size r ≡ done r
unfolding in_buffer
in_buffer_lem size r h = let fits : leb (length r.1) size ≡ true = ground arith in rw fits

-- Parser, handler and encoder run one after the other as far as they succeed.
pub execute_method_lem :
    (m : MethodEntry) (tlv : List ℕ)
    → FitsBuffers m tlv
    → execute_method m tlv ≡ done (method_result m tlv)
unfolding execute_method run_parser handle_parsed run_handler encode_reply run_encoder method_result
execute_method_lem m tlv f =
    let p = parser_output m tlv in
    let h = handler_output m p.1 in
    let e = encoder_output m h.1 in
    elim (Bool-cases p.0) [
      | inr bad ↦ rw (in_buffer_lem rpc_max_param_size p f.parsed, bad)
      | inl good ↦ elim (Bool-cases h.0) [
        | inr bad ↦ rw (
          in_buffer_lem rpc_max_param_size p f.parsed,
          good,
          in_buffer_lem rpc_max_result_size h (f.handled good),
          bad,
        )
        | inl well ↦
            rw
              (
                in_buffer_lem rpc_max_param_size p f.parsed,
                good,
                in_buffer_lem rpc_max_result_size h (f.handled good),
                well,
                in_buffer_lem rpc_max_result_tlv_size e (f.encoded good well),
              )
              (elim (Bool-cases e.0) [ inl f ↦ rw f | inr f ↦ rw f ])
      ]
    ]

-- What a run of the server keeps: it returns, and the tables, the pending calls, the numbers and the
-- lock are as before.
abbrev pub Serves : Rpc → Outcome Rpc → Type 0
Serves s run = (after : Rpc) × (run ≡ done after) × (core after ≡ core s)

pub answer_request-Serves :
    (grant : ℕ → ℕ → Bool) (t : Transport) (seq : ℕ) (tlv : List ℕ) (s : Rpc)
    (found : Option MethodEntry)
    → ((m : MethodEntry) → found ≡ some m → FitsBuffers m tlv)
    → Serves s (answer_request grant t seq tlv s found)
unfolding answer_request free_buffers
answer_request-Serves grant t seq tlv s none fit = (
  (rpc_send_response_tlv grant t seq status_method_not_found [] s).1,
  refl,
  response-core grant t seq status_method_not_found [] s,
)
answer_request-Serves grant t seq tlv s (some m) fit =
    let r = method_result m tlv in
    (
      free_buffers m (rpc_send_response_tlv grant t seq r.0 r.1 s).1,
      rw (execute_method_lem m tlv (fit m refl)) refl,
      response-core grant t seq r.0 r.1 s,
    )

pub read_method_lem :
    (n : ℕ) (payload : List ℕ)
    → n < method_size
    → n ≤ length payload
    → read_method n payload ≡ done (method_name (take n payload))
unfolding read_method
read_method_lem n payload short there =
    let room : leb method_size n ≡ false = ground arith in rw (copy_out-take n payload there, room)

pub tests :
    (msg_len len method_len : ℕ)
    → (not (ltb msg_len method_len)
        && not (method_len == 0 || leb method_size method_len)
        && not (ltb len (header_size + msg_len)))
      ≡ true
    → (method_len ≤ msg_len) × (method_len < method_size) × (header_size + msg_len ≤ len)
tests msg_len len method_len good = ground arith

-- The tests of an accepted request: the name fits `method`, and name and parameters are there.
pub accepted_bounds :
    (hdr : Header) (msg : List ℕ)
    → ltb (length msg) header_size ≡ false
    → request_accepted hdr (length msg) ≡ true
    → (hdr.method_len < method_size)
      × (hdr.method_len ≤ length (drop header_size msg))
      × ((hdr.msg_len + 2 ^ 32 - hdr.method_len) % 2 ^ 32
          ≤ length (drop hdr.method_len (drop header_size msg)))
unfolding request_accepted
accepted_bounds hdr msg long good =
    let (inner, short, whole) = tests hdr.msg_len (length msg) hdr.method_len good in
    let behind = length-drop header_size msg in
    (
      short,
      omega (arith, behind),
      omega (arith, behind, length-drop hdr.method_len (drop header_size msg)),
    )

-- Whatever bytes arrive as a request and whatever memory there is, while the callbacks keep to their
-- buffers the handler reads nothing past the message, writes nothing past `method`, and changes no
-- table, no pending call, no number and not the lock.
pub rpc_handle_request-Serves :
    (grant : ℕ → ℕ → Bool) (t : Transport) (msg : List ℕ) (s : Rpc)
    → AllFit s.methods
    → Serves s (rpc_handle_request grant t msg s)
unfolding rpc_handle_request load_header
rpc_handle_request-Serves grant t msg s fit = elim (Bool-cases (ltb (length msg) header_size)) [
  | inl short ↦ rw short (s, refl, refl)
  | inr long ↦ elim (Bool-cases (request_accepted (read_header msg) (length msg))) [
    | inr bad ↦ rw (long, bad) (s, refl, refl)
    | inl good ↦
        let hdr = read_header msg in
        let payload = drop header_size msg in
        let (short, named, filled) = accepted_bounds hdr msg long good in
        let n = (hdr.msg_len + 2 ^ 32 - hdr.method_len) % 2 ^ 32 in
        let name = method_name (take hdr.method_len payload) in
        rw (long, good)
          (unfold serve_request in
            rw
              (
                read_method_lem hdr.method_len payload short named,
                copy_out-take n (drop hdr.method_len payload) filled,
              )
              (answer_request-Serves grant t hdr.seq (take n (drop hdr.method_len payload)) s
                (hashmap_get s.methods name)
                (λ m e. fit name m e (take n (drop hdr.method_len payload)))))
  ]
]

pub method_name-text : (name : List ℕ) → IsText name → method_name name ≡ name
unfolding method_name
method_name-text [] h = refl
method_name-text (c ∷ name) h = ground (arith, method_name-text name h.1)
