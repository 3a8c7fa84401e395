-- ===== src/Rpc/Send.antt =====
-- `rpc_send_response_tlv` and `rpc_send_request_tlv`. The transport and the name are never null
-- where rpc.c calls them. A result says whether the C result is not negative.
use cc_rpc.Base.{
  ℕ, ◌+◌, ◌%◌, ◌^◌, List, [], ◌∷◌, ◌++◌, Bool, false, none, some, length, if◌then◌else◌,
}
use cc_rpc.Wire.{header_bytes}
use cc_rpc.Rpc.State.{Rpc, Transport, sent, malloc, status_ok}

-- The bytes of a response; `(uint32_t)tlv_len` and `(uint16_t)status` cut their arguments.
unfoldable pub response_bytes : ℕ → ℕ → List ℕ → List ℕ
response_bytes seq status tlv =
    header_bytes (record {
      status = status % 2 ^ 16;
      seq = seq;
      msg_len = length tlv % 2 ^ 32;
      method_len = 0;
    })
    ++ tlv

unfoldable pub request_bytes : ℕ → List ℕ → List ℕ → List ℕ
request_bytes seq name tlv =
    header_bytes (record {
      status = status_ok;
      seq = seq;
      msg_len = (length name + length tlv) % 2 ^ 32;
      method_len = length name % 2 ^ 16;
    })
    ++ (name ++ tlv)

-- Allocates the message, hands it to `t->send`, and frees it.
unfoldable pub send_message : (ℕ → ℕ → Bool) → Transport → List ℕ → Rpc → Bool × Rpc
send_message grant t msg s = elim t.send [
  | none ↦ (false, s)
  | some send ↦
      let (granted, s₁) = malloc grant (length msg) s in
      if granted
      then (send msg, record s₁ { log = s₁.log ++ (sent t.id msg ∷ []) })
      else (false, s₁)
]

unfoldable pub rpc_send_response_tlv :
    (ℕ → ℕ → Bool) → Transport → ℕ → ℕ → List ℕ → Rpc → Bool × Rpc
rpc_send_response_tlv grant t seq status tlv s =
    send_message grant t (response_bytes seq status tlv) s

unfoldable pub rpc_send_request_tlv :
    (ℕ → ℕ → Bool) → Transport → ℕ → List ℕ → List ℕ → Rpc → Bool × Rpc
rpc_send_request_tlv grant t seq name tlv s = send_message grant t (request_bytes seq name tlv) s
