-- ===== src/Rpc/State.antt =====
-- The static data of ccrpc/source/rpc.c and ccrpc/source/rpc_port.c, and the types it holds.
use cc_rpc.Base.{
  ℕ, ◌+◌, List, Bool, true, false, Option, Outcome, done, refuse, if◌then◌else◌, ◌==◌,
}
use cc_rpc.HashMap.{HashMap}

-- `rpc_status_t`
abbrev pub status_ok : ℕ
status_ok = 0

abbrev pub status_method_not_found : ℕ
status_method_not_found = 1

abbrev pub status_invalid_params : ℕ
status_invalid_params = 2

abbrev pub status_internal_error : ℕ
status_internal_error = 3

abbrev pub status_transport_error : ℕ
status_transport_error = 4

abbrev pub status_timeout : ℕ
status_timeout = 5

-- What a call returns: a status, or a negated one.
pub data Code : Type 0 where
  status : ℕ → Code
  minus : ℕ → Code

-- The caller's side of a call. `buf` is what the caller's buffer holds, `signaled` the waiter's flag.
pub record PendingCall : Type 0 where
  pub seq : ℕ
  pub buf : Option (List ℕ)
  pub buf_size : ℕ
  pub resp_len : ℕ
  pub status : ℕ
  pub is_done : Bool
  pub signaled : Bool

-- The callbacks of a method. Each says whether it returned 0 and what it left in its output: the
-- parameter struct, the result struct, the encoded result.
pub record MethodEntry : Type 0 where
  pub name : List ℕ
  pub parse_param : Option (List ℕ → Bool × List ℕ)
  pub handler : Option (List ℕ → Bool × List ℕ)
  pub encode_result : Option (List ℕ → Bool × List ℕ)
  pub free_param : Bool
  pub free_result : Bool

-- `struct rpc_transport_class` without its reassembly buffer. `send` says of a message whether
-- the result is not negative.
pub record Transport : Type 0 where
  pub id : ℕ
  pub send : Option (List ℕ → Bool)
  pub has_recv : Bool

-- What the program does to its environment, in order.
pub data Event : Type 0 where
  sent : ℕ → List ℕ → Event
  param_freed : List ℕ → Event
  result_freed : List ℕ → Event

-- `calls` is the memory of the pending calls by address: none where nothing is allocated.
-- `ticks` counts the calls of `heap_malloc`, and those for entries and buffers that turn out not to
-- be needed.
pub record Rpc : Type 0 where
  pub methods : HashMap (List ℕ) MethodEntry
  pub pending : HashMap ℕ ℕ
  pub transports : HashMap (List ℕ) Transport
  pub next_seq : ℕ
  pub calls : ℕ → Option PendingCall
  pub next_call : ℕ
  pub is_locked : Bool
  pub ticks : ℕ
  pub log : List Event

abbrev pub update {ℓ} : {V : Type ℓ} → (ℕ → Option V) → ℕ → Option V → ℕ → Option V
update f p v q = if p == q then v else f q

-- `heap_malloc(n)`: `grant k n` says whether the k-th call has memory for n bytes.
abbrev pub malloc : (ℕ → ℕ → Bool) → ℕ → Rpc → Bool × Rpc
malloc grant n s = (grant s.ticks n, record s { ticks = s.ticks + 1 })

-- The mutex is not recursive. `refuse` is a thread that waits.
unfoldable pub rpc_port_lock : Rpc → Outcome Rpc
rpc_port_lock s = if s.is_locked then refuse else done (record s { is_locked = true })

unfoldable pub rpc_port_unlock : Rpc → Rpc
rpc_port_unlock s = record s { is_locked = false }

-- The sizes of the structs on a 64-bit platform.
abbrev pub sizeof_pending_call : ℕ
sizeof_pending_call = 48

abbrev pub sizeof_method_entry : ℕ
sizeof_method_entry = 48

abbrev pub sizeof_transport_entry : ℕ
sizeof_transport_entry = 16

abbrev pub sizeof_hashmap_entry : ℕ
sizeof_hashmap_entry = 32
