-- ===== src/Rpc/Request/Laws.antt =====
-- What the server does with a request, on every branch of `rpc_handle_request`.
use cc_rpc.Base.{
  ◌≤◌, copy_out-take, done, ℕ, ◌+◌, ◌-◌, ◌%◌, ◌^◌, ◌<◌, ◌≡◌, refl, ap, ◌∙◌, arith, List, [], ◌∷◌,
  ◌++◌, Bool, true, false, not, ◌||◌, ◌&&◌, Option, none, some, length, take, drop, ltb, leb, ◌==◌,
  if◌then◌else◌, length-append, take-append, drop-append, append_assoc, append-nil,
}
use cc_rpc.HashMap.{hashmap_get}
use cc_rpc.HashMap.Keys.{string_key}
use cc_rpc.Tlv.{IsU32}
use cc_rpc.Tlv.Write.{IsText}
use cc_rpc.Wire.{Header, header_size, read_header, load_header}
use cc_rpc.Wire.Layout.{read_header-header_bytes, length-header_bytes-append, drop-header_bytes}
use cc_rpc.Rpc.State.{
  Rpc, Transport, MethodEntry, Event, sent, param_freed, result_freed, status_ok,
  status_method_not_found,
}
use cc_rpc.Rpc.Send.{send_message, rpc_send_response_tlv, response_bytes, request_bytes}
use cc_rpc.Rpc.Request.{
  method_size, request_accepted, free_buffers, answer_request, serve_request, rpc_handle_request,
}
use cc_rpc.Rpc.Request.Serve.{
  FitsBuffers, execute_method_lem, method_name-text, method_result, read_method_lem,
}

-- A request that the client can send: a method name without 0 and of 1 to 127 characters, and
-- lengths that fit their fields.
pub record IsRequest (seq : ℕ) (name tlv : List ℕ) : Type 0 where
  pub seq_range : IsU32 seq
  pub text : IsText name
  pub named : 0 < length name
  pub short : length name < method_size
  pub fits : length name + length tlv < 2 ^ 32

abbrev request_header : ℕ → List ℕ → List ℕ → Header
request_header seq name tlv = record {
  status = status_ok;
  seq = seq;
  msg_len = (length name + length tlv) % 2 ^ 32;
  method_len = length name % 2 ^ 16;
}

pub read_header-request_bytes :
    (seq : ℕ) (name tlv : List ℕ)
    → IsRequest seq name tlv
    → read_header (request_bytes seq name tlv) ≡ record {
      status = status_ok;
      seq = seq;
      msg_len = length name + length tlv;
      method_len = length name;
    }
unfolding request_bytes
read_header-request_bytes seq name tlv r =
    read_header-header_bytes _ (name ++ tlv) (record {
      status = omega arith;
      seq = r.seq_range;
      msg_len = omega arith;
      method_len = omega arith;
    })
    ∙ λ i. record { status = status_ok; seq = seq; msg_len = whole i; method_len = front i }
  where
    whole : (length name + length tlv) % 2 ^ 32 ≡ length name + length tlv
    whole = omega (arith, r.fits)

    front : length name % 2 ^ 16 ≡ length name
    front = omega (arith, r.short)

length-request_bytes :
    (seq : ℕ) (name tlv : List ℕ)
    → length (request_bytes seq name tlv) ≡ header_size + (length name + length tlv)
unfolding request_bytes
length-request_bytes seq name tlv = omega (
  arith,
  length-header_bytes-append (request_header seq name tlv) (name ++ tlv),
  length-append name tlv,
)

tests_pass :
    (n k : ℕ)
    → 0 < n
    → n < method_size
    → (not (ltb (n + k) n)
        && not (n == 0 || leb method_size n)
        && not (ltb (header_size + (n + k)) (header_size + (n + k))))
      ≡ true
tests_pass n k h h' = ground arith

request_accepted-request_bytes :
    (seq : ℕ) (name tlv : List ℕ)
    → IsRequest seq name tlv
    → request_accepted
        (read_header (request_bytes seq name tlv))
        (length (request_bytes seq name tlv))
      ≡ true
unfolding request_accepted
request_accepted-request_bytes seq name tlv r =
    rw (read_header-request_bytes seq name tlv r, length-request_bytes seq name tlv)
      (tests_pass (length name) (length tlv) r.named r.short)

-- The events of an answer, in order: the response, then the freed buffers.
abbrev pub freed_events : MethodEntry → List Event
freed_events m =
    (if m.free_param then param_freed m.name ∷ [] else [])
    ++ (if m.free_result then result_freed m.name ∷ [] else [])

abbrev pub answer_events : Transport → ℕ → List ℕ → Option MethodEntry → List Event
answer_events t seq tlv none = sent t.id (response_bytes seq status_method_not_found []) ∷ []
answer_events t seq tlv (some m) =
    sent t.id (response_bytes seq (method_result m tlv).0 (method_result m tlv).1) ∷ freed_events m

send_message-log :
    (grant : ℕ → ℕ → Bool) (t : Transport) (msg : List ℕ) (s : Rpc) (send : List ℕ → Bool)
    → ((k n : ℕ) → grant k n ≡ true)
    → t.send ≡ some send
    → (send_message grant t msg s).1.log ≡ s.log ++ (sent t.id msg ∷ [])
unfolding send_message
send_message-log grant t msg s send granted e = rw (e, send_message, granted) refl

answer_request_answers :
    (grant : ℕ → ℕ → Bool) (t : Transport) (seq : ℕ) (tlv : List ℕ) (s : Rpc) (send : List ℕ → Bool)
    (found : Option MethodEntry)
    → ((k n : ℕ) → grant k n ≡ true)
    → t.send ≡ some send
    → ((m : MethodEntry) → found ≡ some m → FitsBuffers m tlv)
    → (after : Rpc) × (answer_request grant t seq tlv s found ≡ done after)
      × (after.log ≡ s.log ++ answer_events t seq tlv found)
unfolding answer_request free_buffers rpc_send_response_tlv
answer_request_answers grant t seq tlv s send none granted can_send fit = (
  _,
  refl,
  send_message-log grant t (response_bytes seq status_method_not_found []) s send granted can_send,
)
answer_request_answers grant t seq tlv s send (some m) granted can_send fit =
    let r = method_result m tlv in
    let logged = send_message-log grant t (response_bytes seq r.0 r.1) s send granted can_send in
    (
      free_buffers m (rpc_send_response_tlv grant t seq r.0 r.1 s).1,
      rw (execute_method_lem m tlv (fit m refl)) refl,
      ap (λ l. l ++ freed_events m) logged
          ∙ append_assoc s.log (sent t.id (response_bytes seq r.0 r.1) ∷ []) (freed_events m),
    )

serve_request_answers :
    (grant : ℕ → ℕ → Bool) (t : Transport) (seq : ℕ) (name tlv : List ℕ) (s : Rpc)
    (send : List ℕ → Bool)
    → ((k n : ℕ) → grant k n ≡ true)
    → t.send ≡ some send
    → IsRequest seq name tlv
    → ((m : MethodEntry) → hashmap_get s.methods name ≡ some m → FitsBuffers m tlv)
    → (after : Rpc) × (serve_request grant t
          (record {
            status = status_ok;
            seq = seq;
            msg_len = length name + length tlv;
            method_len = length name;
          })
          (name ++ tlv)
          s
        ≡ done after)
      × (after.log ≡ s.log ++ answer_events t seq tlv (hashmap_get s.methods name))
unfolding serve_request
serve_request_answers grant t seq name tlv s send granted can_send r fit =
    let left : (length name + length tlv + 2 ^ 32 - length name) % 2 ^ 32 ≡ length tlv =
      omega (arith, r.fits) in
    let whole : take (length tlv) tlv ≡ tlv = rw (append-nil tlv) at (take-append tlv []) in
    let there : length name ≤ length (name ++ tlv) = omega (arith, length-append name tlv) in
    let all : length tlv ≤ length tlv = omega arith in
    rw
      (
        read_method_lem (length name) (name ++ tlv) r.short there,
        take-append name tlv,
        method_name-text name r.text,
        drop-append name tlv,
        left,
        copy_out-take (length tlv) tlv all,
        whole,
      )
      (answer_request_answers grant t seq tlv s send (hashmap_get s.methods name) granted can_send
        fit)

-- If memory is always granted and the transport can send, and the callbacks of the method of that
-- name, if there is one, leave no more than 4096 bytes each for the parameters, the handler returns
-- from a request as a client sends it (method name of 1 to 127 characters other than 0, lengths that
-- fit their fields) and adds exactly these events to the log: one response with the request's
-- number, METHOD_NOT_FOUND for a name without a method and otherwise the result of the method's
-- callbacks on the request's parameters, and after it the frees that the method asks for.
pub rpc_handle_request_answers :
    (grant : ℕ → ℕ → Bool) (t : Transport) (seq : ℕ) (name tlv : List ℕ) (s : Rpc)
    (send : List ℕ → Bool)
    → ((k n : ℕ) → grant k n ≡ true)
    → t.send ≡ some send
    → IsRequest seq name tlv
    → ((m : MethodEntry) → hashmap_get s.methods name ≡ some m → FitsBuffers m tlv)
    → (after : Rpc) × (rpc_handle_request grant t (request_bytes seq name tlv) s ≡ done after)
      × (after.log ≡ s.log ++ answer_events t seq tlv (hashmap_get s.methods name))
unfolding rpc_handle_request load_header
rpc_handle_request_answers grant t seq name tlv s send granted can_send r fit =
    let msg = request_bytes seq name tlv in
    let payload : drop header_size msg ≡ name ++ tlv =
      unfold request_bytes in drop-header_bytes (request_header seq name tlv) (name ++ tlv) in
    let long : ltb (length msg) header_size ≡ false =
      ground (arith, length-request_bytes seq name tlv) in
    rw (long, request_accepted-request_bytes seq name tlv r, payload)
      (rw (read_header-request_bytes seq name tlv r)
        (serve_request_answers grant t seq name tlv s send granted can_send r fit))
