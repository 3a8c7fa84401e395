-- ===== src/Rpc/Call.antt =====
-- `rpc_call_with_tlv`: the client's side of a call, in the two parts before and after its wait.
pub mod Numbers
pub mod Memory
pub mod Begin
pub mod Finish
use cc_rpc.Base.{
  ℕ, suc, ◌+◌, List, [], ◌∷◌, ◌++◌, Bool, true, false, not, ◌&&◌, Option, none, some, length,
  concat, if◌then◌else◌, Outcome, done, refuse, fault, ◌>>=◌,
}
use cc_rpc.HashMap.{HashMap, hashmap_put, hashmap_get, hashmap_remove, hashmap_contains}
use cc_rpc.HashMap.Keys.{string_key, int_key}
use cc_rpc.Rpc.State.{
  Rpc, Transport, PendingCall, Code, status, minus, status_ok, status_internal_error,
  status_transport_error, status_timeout, malloc, update, rpc_port_lock, rpc_port_unlock,
  sizeof_pending_call, sizeof_hashmap_entry,
}
use cc_rpc.Rpc.Seq.{next_seq_loop}
use cc_rpc.Rpc.Send.{rpc_send_request_tlv}
use cc_rpc.Rpc.Registry.{rpc_transport_lookup}

abbrev keys {ℓ} : {K V : Type ℓ} → List (K × V) → List K
keys [] = []
keys (e ∷ c) = e.0 ∷ keys c

-- The keys in a table: one try more than there are pending calls is enough.
abbrev pub pending_keys : Rpc → List ℕ
pending_keys s = keys (concat s.pending.buckets)

-- The number and the state after it; `refuse` is a thread that searches for ever.
unfoldable pub rpc_next_seq : Rpc → Outcome (ℕ × Rpc)
rpc_next_seq s =
    elim (next_seq_loop (suc (length (pending_keys s))) (λ k. hashmap_contains s.pending k)
      s.next_seq) [ none ↦ refuse | some (seq, next) ↦ done (seq, record s { next_seq = next }) ]

-- The caller's arguments: the name, the parameters, `out_tlv`, and `*out_len` or 0.
pub record Arguments : Type 0 where
  pub name : List ℕ
  pub tlv : List ℕ
  pub out_tlv : Option (List ℕ)
  pub out_len : ℕ

-- Where the first part ends: in a return, or in the wait, with the number and the address of the call.
pub data Begun : Type 0 where
  returned : Code → Begun
  waiting : ℕ → ℕ → Begun

-- `pc = heap_malloc(...)` at a new address, with its fields set.
unfoldable pub new_call : ℕ → Arguments → Rpc → Rpc
new_call seq args s = record s {
  calls = update s.calls s.next_call (
      some (record {
        seq = seq;
        buf = args.out_tlv;
        buf_size = args.out_len;
        resp_len = 0;
        status = status_ok;
        is_done = false;
        signaled = false;
      }));
  next_call = s.next_call + 1;
}

-- `heap_free(pc)`
unfoldable pub free_call : ℕ → Rpc → Rpc
free_call addr s = record s { calls = update s.calls addr none }

unfoldable pub forget_pending : ℕ → Rpc → Rpc
forget_pending seq s = record s { pending = (hashmap_remove s.pending seq).1 }

-- From the allocated call on: `hashmap_put`, the request, and the way back if it cannot be sent.
unfoldable pub start_call : (ℕ → ℕ → Bool) → Transport → ℕ → Arguments → Rpc → Outcome (Begun × Rpc)
start_call grant t seq args s = do
  let addr = s.next_call
  let (granted, s₁) = malloc grant sizeof_hashmap_entry (new_call seq args s)
  pending ← hashmap_put granted s₁.pending seq addr
  let (is_sent, s₂) =
      rpc_send_request_tlv grant t seq args.name args.tlv (record s₁ { pending = pending })
  if is_sent
      then done (waiting seq addr, rpc_port_unlock s₂)
      else done (
        returned (minus status_transport_error),
        rpc_port_unlock (free_call addr (forget_pending seq s₂)),
      )

-- `waiter_granted` says whether `rpc_waiter_create` returns a waiter.
unfoldable pub rpc_call_begin : (ℕ → ℕ → Bool) → Bool → Arguments → Rpc → Outcome (Begun × Rpc)
rpc_call_begin grant waiter_granted args s = elim (rpc_transport_lookup s args.name) [
  | none ↦ done (returned (minus status_transport_error), s)
  | some t ↦ do
    s₁ ← rpc_port_lock s
    (seq, s₂) ← rpc_next_seq s₁
    let (granted, s₃) = malloc grant sizeof_pending_call s₂
    if not (granted && waiter_granted)
        then done (returned (minus status_internal_error), rpc_port_unlock s₃)
        else start_call grant t seq args s₃
]

-- `rpc_waiter_wait`: `expired` says that the last timed wait ended with an error, and the flag is
-- what other threads have made of it by then. The result says whether it returns 0; `refuse` is a
-- thread that still waits.
unfoldable pub rpc_waiter_wait : Bool → PendingCall → Outcome (Bool × PendingCall)
rpc_waiter_wait expired pc =
    if expired
    then done (false, pc)
    else (if pc.signaled then done (true, record pc { signaled = false }) else refuse)

-- What the caller has: the status, the bytes in `out_tlv`, and what is written to `*out_len`, if
-- neither pointer is null.
pub record Result : Type 0 where
  pub code : Code
  pub out_tlv : Option (List ℕ)
  pub out_len : Option ℕ

-- `has_len`: the caller's `out_len` is not null.
unfoldable pub rpc_call_finish : Bool → Bool → ℕ → ℕ → Rpc → Outcome (Result × Rpc)
rpc_call_finish has_len expired seq addr s = elim (s.calls addr) [
  | none ↦ fault
  | some pc₀ ↦ do
    (is_answered, pc) ← rpc_waiter_wait expired pc₀
    s₁ ← rpc_port_lock s
    let s₂ = forget_pending seq s₁
    done (
      record {
        code = status (if is_answered then pc.status else status_timeout);
        out_tlv = pc.buf;
        out_len = elim pc.buf [ none ↦ none | some _ ↦ if has_len then some pc.resp_len else none ];
      },
      rpc_port_unlock (free_call addr s₂),
    )
]
