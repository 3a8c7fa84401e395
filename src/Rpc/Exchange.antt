-- ===== src/Rpc/Exchange.antt =====
-- A whole exchange: the request that a client sends, what the server makes of it, and what the
-- client's call returns when the server's response arrives.
use cc_rpc.Base.{
  ◌≤◌, ℕ, ◌+◌, ◌^◌, ◌<◌, ◌≡◌, refl, sym, ap, ◌∙◌, subst, arith, List, [], ◌∷◌, ◌++◌, Bool, true,
  false, Option, none, some, length, ltb, ◌==◌, done, ◌>>=◌,
}
use cc_rpc.HashMap.{hashmap_get}
use cc_rpc.HashMap.Keys.{string_key, int_key}
use cc_rpc.Wire.{header_size, load_header}
use cc_rpc.Wire.Layout.{length-header_bytes-append}
use cc_rpc.Rpc.State.{
  Rpc, Transport, MethodEntry, PendingCall, Event, sent, status_method_not_found,
}
use cc_rpc.Rpc.Send.{request_bytes, response_bytes}
use cc_rpc.Rpc.Request.{
  rpc_handle_request, rpc_max_result_tlv_size, parser_output, handler_output, encoder_output,
}
use cc_rpc.Rpc.Request.Laws.{
  IsRequest, answer_events, freed_events, rpc_handle_request_answers, read_header-request_bytes,
}
use cc_rpc.Rpc.Request.Serve.{method_result, choose_reply, FitsBuffers}
use cc_rpc.Rpc.Response.{rpc_handle_response}
use cc_rpc.Rpc.Response.Answer.{answered}
use cc_rpc.Rpc.Response.Laws.{IsResponse, read_header-response_bytes}
use cc_rpc.Rpc.Receive.{rpc_dispatch_message}
use cc_rpc.Rpc.Call.{rpc_call_finish}
use cc_rpc.Rpc.Call.Finish.{Finished, rpc_call_answered}
use cc_rpc.Rpc.Invariant.{IsRpc}

-- The status and the payload for a method that is looked up.
abbrev pub reply : Option MethodEntry → List ℕ → ℕ × List ℕ
reply none tlv = (status_method_not_found, [])
reply (some m) tlv = method_result m tlv

abbrev pub frees : Option MethodEntry → List Event
frees none = []
frees (some m) = freed_events m

choose_reply-lt :
    (parsed handled encoded : Bool) (bytes : List ℕ)
    → (choose_reply parsed handled encoded bytes).0 < 2 ^ 16
choose_reply-lt false handled encoded bytes = omega arith
choose_reply-lt true false encoded bytes = omega arith
choose_reply-lt true true false bytes = omega arith
choose_reply-lt true true true bytes = omega arith

reply_status : (m : Option MethodEntry) (tlv : List ℕ) → (reply m tlv).0 < 2 ^ 16
unfolding method_result
reply_status none tlv = omega arith
reply_status (some m) tlv =
    let parsed = parser_output m tlv in
    let handled = handler_output m parsed.1 in
    let encoded = encoder_output m handled.1 in
    choose_reply-lt parsed.0 handled.0 encoded.0 encoded.1

-- A payload is what the encoder left in `resp_tlv`.
choose_reply-le :
    (parsed handled encoded : Bool) (bytes : List ℕ)
    → (parsed ≡ true → handled ≡ true → length bytes ≤ rpc_max_result_tlv_size)
    → length (choose_reply parsed handled encoded bytes).1 ≤ rpc_max_result_tlv_size
choose_reply-le false handled encoded bytes h = omega arith
choose_reply-le true false encoded bytes h = omega arith
choose_reply-le true true false bytes h = omega arith
choose_reply-le true true true bytes h = h refl refl

reply_short :
    (m : Option MethodEntry) (tlv : List ℕ)
    → ((e : MethodEntry) → m ≡ some e → FitsBuffers e tlv)
    → length (reply m tlv).1 < 2 ^ 32
unfolding method_result
reply_short none tlv fit = omega arith
reply_short (some m) tlv fit =
    let parsed = parser_output m tlv in
    let handled = handler_output m parsed.1 in
    let encoded = encoder_output m handled.1 in
    omega (arith, choose_reply-le parsed.0 handled.0 encoded.0 encoded.1 (fit m refl).encoded)

answer_events-reply :
    (t : Transport) (seq : ℕ) (tlv : List ℕ) (m : Option MethodEntry)
    → answer_events t seq tlv m
      ≡ sent t.id (response_bytes seq (reply m tlv).0 (reply m tlv).1) ∷ frees m
answer_events-reply t seq tlv none = refl
answer_events-reply t seq tlv (some m) = refl

dispatch_request :
    (grant : ℕ → ℕ → Bool) (t : Transport) (seq : ℕ) (name tlv : List ℕ) (s : Rpc)
    → IsRequest seq name tlv
    → rpc_dispatch_message grant t (request_bytes seq name tlv) s
      ≡ rpc_handle_request grant t (request_bytes seq name tlv) s
unfolding rpc_dispatch_message load_header
dispatch_request grant t seq name tlv s r =
    let size : length (request_bytes seq name tlv) ≡ header_size + length (name ++ tlv) =
      unfold request_bytes in length-header_bytes-append _ (name ++ tlv) in
    let long : ltb (length (request_bytes seq name tlv)) header_size ≡ false =
      ground (arith, size) in
    let named : (length name == 0) ≡ false = ground (arith, r.named) in
    rw (long, read_header-request_bytes seq name tlv r, named) refl

dispatch_response :
    (grant : ℕ → ℕ → Bool) (t : Transport) (seq status : ℕ) (tlv : List ℕ) (s : Rpc)
    → IsResponse seq status tlv
    → rpc_dispatch_message grant t (response_bytes seq status tlv) s
      ≡ rpc_handle_response (response_bytes seq status tlv) s
unfolding rpc_dispatch_message load_header
dispatch_response grant t seq status tlv s r =
    let size : length (response_bytes seq status tlv) ≡ header_size + length tlv =
      unfold response_bytes in length-header_bytes-append _ tlv in
    let long : ltb (length (response_bytes seq status tlv)) header_size ≡ false =
      ground (arith, size) in
    rw (long, read_header-response_bytes seq status tlv r) refl

-- What the two nodes do.
pub record IsExchange (grant : ℕ → ℕ → Bool) (t u : Transport) (has_len : Bool) (seq addr : ℕ)
    (name tlv : List ℕ) (pc : PendingCall) (server client : Rpc) : Type 0 where
  pub served : Rpc
  pub serves : rpc_dispatch_message grant t (request_bytes seq name tlv) server ≡ done served
  pub sends :
      let r = reply (hashmap_get server.methods name) tlv in
      served.log
      ≡ server.log
        ++ (sent t.id (response_bytes seq r.0 r.1) ∷ frees (hashmap_get server.methods name))
  pub returns :
      let r = reply (hashmap_get server.methods name) tlv in
      Finished has_len false seq addr (answered pc r.0 r.1) client (
        rpc_dispatch_message grant u (response_bytes seq r.0 r.1) client >>= λ c.
        rpc_call_finish has_len false seq addr c)

-- If memory is granted and the server's transport can send, the client's state is valid with its
-- lock free, and a call of the client is pending under the number of a well-formed request (method
-- name of 1 to 127 characters other than 0, lengths that fit their fields), and the callbacks of the
-- server's method of that name, if it has one, leave no more than 4096 bytes each for its
-- parameters, then the server, which dispatches the request, sends one response, with the status and
-- payload that its method of that name makes of the parameters (METHOD_NOT_FOUND if it has none) and
-- then frees what the method asks for; and the client, which dispatches that response, ends its call
-- with just that status and payload, cut to the caller's buffer.
pub rpc_dispatch_message-IsExchange :
    (grant : ℕ → ℕ → Bool) (t u : Transport) (has_len : Bool) (seq addr : ℕ) (name tlv : List ℕ)
    (pc : PendingCall) (server client : Rpc) (send : List ℕ → Bool)
    → ((k n : ℕ) → grant k n ≡ true)
    → t.send ≡ some send
    → IsRequest seq name tlv
    → ((m : MethodEntry) → hashmap_get server.methods name ≡ some m → FitsBuffers m tlv)
    → IsRpc client
    → client.is_locked ≡ false
    → hashmap_get client.pending seq ≡ some addr
    → client.calls addr ≡ some pc
    → IsExchange grant t u has_len seq addr name tlv pc server client
rpc_dispatch_message-IsExchange grant t u has_len seq addr name tlv pc server client send granted
      can_send r fit v free there here =
    let m = hashmap_get server.methods name in
    let fits : IsResponse seq (reply m tlv).0 (reply m tlv).1 = record {
      seq_range = r.seq_range;
      status_range = reply_status m tlv;
      fits = reply_short m tlv fit;
    } in
    let f =
      rpc_call_answered has_len seq addr (reply m tlv).0 (reply m tlv).1 pc client v free fits there
        here in
    let (served, serves, sends) =
      rpc_handle_request_answers grant t seq name tlv server send granted can_send r fit in
    record {
      served = served;
      serves = dispatch_request grant t seq name tlv server r ∙ serves;
      sends = sends ∙ ap (λ e. server.log ++ e) (answer_events-reply t seq tlv m);
      returns =
          subst
            (λ run.
              Finished has_len false seq addr (answered pc (reply m tlv).0 (reply m tlv).1) client
                (run >>= λ c. rpc_call_finish has_len false seq addr c))
            (sym (dispatch_response grant u seq (reply m tlv).0 (reply m tlv).1 client fits)) f;
    }
