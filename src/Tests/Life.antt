-- ===== src/Tests/Life.antt =====
-- The life of a node: start, registration, a whole exchange, and the clock.
use cc_rpc.Base.{ℕ, ◌≡◌, refl, arith, List, [], ◌∷◌, true, false, none, some, if◌then◌else◌, done}
use cc_rpc.HashMap.{hashmap_get, hashmap_put, hashmap_bucket, hashmap_init}
use cc_rpc.HashMap.Keys.{string_key, int_key, str_equal, hash_string}
use cc_rpc.Rpc.State.{Rpc, rpc_port_lock, rpc_port_unlock}
use cc_rpc.Rpc.Request.Laws.{IsRequest}
use cc_rpc.Rpc.Registry.{rpc_init, rpc_register_method}
use cc_rpc.Rpc.Registry.Laws.{rpc_register_method_lem}
use cc_rpc.Rpc.Exchange.{IsExchange, rpc_dispatch_message-IsExchange}
use cc_rpc.Rpc.Steps.{Reach, starts, goes_on, registers, Reach-IsRpc}
use cc_rpc.Rpc.Clock.{deadline}
use cc_rpc.Rpc.Invariant.{IsRpc}
use cc_rpc.Tests.Node.{
  grant_all, granted, name, peer, method, call, node, node-IsRpc, node-AllFit, node_pending,
  request,
}

rpc_register_method_lem_example :
    (s' : Rpc) × (rpc_register_method grant_all method node ≡ done s')
    × IsRpc s'
    × (s'.is_locked ≡ false)
    × ((q : List ℕ)
        → hashmap_get s'.methods q
          ≡ (if str_equal name q then some method else hashmap_get node.methods q))
    × (s'.transports ≡ node.transports)
    × (s'.pending ≡ node.pending)
rpc_register_method_lem_example =
    rpc_register_method_lem grant_all method node granted node-IsRpc refl

-- The carry into the seconds.
deadline_carries : deadline (10, 999000000) 1500 ≡ (12, 499000000)
unfolding deadline
deadline_carries = refl

-- A node that is started and then gets the method.
abbrev started : Rpc
started = record {
  methods = record { buckets = [] ∷ []; bucket_count = 1 };
  pending = record { buckets = [] ∷ []; bucket_count = 1 };
  transports = record { buckets = [] ∷ []; bucket_count = 1 };
  next_seq = 1;
  calls = λ _. none;
  next_call = 0;
  is_locked = false;
  ticks = 0;
  log = [];
}

abbrev serving : Rpc
serving = record started {
  methods = record { buckets = ((name, method) ∷ []) ∷ []; bucket_count = 1 };
  ticks = 2;
}

serving-Reach : Reach grant_all serving
unfolding rpc_init hashmap_init rpc_register_method rpc_port_lock rpc_port_unlock hashmap_put
    hashmap_bucket hash_string
serving-Reach =
    goes_on started serving (starts 1 1 1 started (omega arith) (omega arith) (omega arith) refl)
      (registers method started serving refl)

Reach-IsRpc_example : IsRpc serving × (serving.is_locked ≡ false)
Reach-IsRpc_example = Reach-IsRpc grant_all serving granted serving-Reach

well_formed : IsRequest 5 name (4 ∷ [])
well_formed = record {
  seq_range = omega arith;
  text = request.text;
  named = omega arith;
  short = omega arith;
  fits = omega arith;
}

rpc_dispatch_message-IsExchange_example :
    IsExchange grant_all peer peer true 5 0 name (4 ∷ []) call node node
rpc_dispatch_message-IsExchange_example =
    rpc_dispatch_message-IsExchange grant_all peer peer true 5 0 name (4 ∷ []) call node node
      (λ _. true) granted refl well_formed (λ m e. node-AllFit name m e (4 ∷ [])) node-IsRpc refl
      node_pending refl
