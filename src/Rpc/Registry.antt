-- ===== src/Rpc/Registry.antt =====
-- `rpc_init` and the tables of methods and transports.
pub mod Laws
use cc_rpc.Base.{
  ℕ, ◌+◌, List, [], ◌∷◌, ◌++◌, Bool, true, false, not, Option, none, some, if◌then◌else◌, Outcome,
  done, refuse, fault, ◌>>=◌,
}
use cc_rpc.HashMap.{HashMap, hashmap_init, hashmap_put, hashmap_get}
use cc_rpc.HashMap.Keys.{string_key, int_key}
use cc_rpc.Reasm.{Reasm, empty_reasm}
use cc_rpc.Rpc.State.{
  Rpc, Transport, MethodEntry, malloc, rpc_port_lock, rpc_port_unlock, sizeof_method_entry,
  sizeof_transport_entry, sizeof_hashmap_entry,
}

-- The static data before `rpc_init`, in which only `g_next_seq` is set, with three new tables.
-- `granted` says which of their arrays get memory.
unfoldable pub rpc_init : Bool × Bool × Bool → ℕ → ℕ → ℕ → Outcome Rpc
rpc_init granted method_cap pending_cap transport_cap = do
  methods ← hashmap_init granted.0 method_cap
  pending ← hashmap_init granted.1 pending_cap
  transports ← hashmap_init granted.2 transport_cap
  done (record {
    methods = methods;
    pending = pending;
    transports = transports;
    next_seq = 1;
    calls = λ _. none;
    next_call = 0;
    is_locked = false;
    ticks = 0;
    log = [];
  })

-- The entry is lost if it gets no memory. The name is not null.
unfoldable pub rpc_register_method : (ℕ → ℕ → Bool) → MethodEntry → Rpc → Outcome Rpc
rpc_register_method grant e s =
    let (granted, s₁) = malloc grant sizeof_method_entry s in
    if not granted then done s₁ else do
      s₂ ← rpc_port_lock s₁
      let (granted', s₃) = malloc grant sizeof_hashmap_entry s₂
      methods ← hashmap_put granted' s₃.methods e.name e
      done (rpc_port_unlock (record s₃ { methods = methods }))

unfoldable pub rpc_bind_transport : (ℕ → ℕ → Bool) → List ℕ → Transport → Rpc → Outcome Rpc
rpc_bind_transport grant name t s =
    let (granted, s₁) = malloc grant sizeof_transport_entry s in
    if not granted then done s₁ else do
      s₂ ← rpc_port_lock s₁
      let (granted', s₃) = malloc grant sizeof_hashmap_entry s₂
      transports ← hashmap_put granted' s₃.transports name t
      done (rpc_port_unlock (record s₃ { transports = transports }))

unfoldable pub rpc_transport_lookup : Rpc → List ℕ → Option Transport
rpc_transport_lookup s name = hashmap_get s.transports name

-- `granted`: the transport gets memory. The reassembly buffer that belongs to it starts empty; the
-- user pointer and `close` are not looked at again.
unfoldable pub rpc_trans_class_create :
    Bool → ℕ → Option (List ℕ → Bool) → Bool → Option (Transport × Reasm)
rpc_trans_class_create granted id send has_recv =
    if not granted
    then none
    else some (record { id = id; send = send; has_recv = has_recv }, empty_reasm)
