-- ===== src/Rpc/Registry/Laws.antt =====
-- What is registered is found, and nothing else changes.
use cc_rpc.Base.{
  ℕ, ◌+◌, ◌≤◌, ◌^◌, ◌≡◌, refl, arith, List, [], Bool, true, false, Option, none, some,
  if◌then◌else◌, done,
}
use cc_rpc.HashMap.{HashMap, hashmap_get}
use cc_rpc.HashMap.Keys.{string_key, int_key, str_equal}
use cc_rpc.HashMap.Map.{IsMap, hashmap_put-Updates}
use cc_rpc.HashMap.Init.{hashmap_init_lem}
use cc_rpc.Rpc.State.{Rpc, MethodEntry, Transport, rpc_port_lock, rpc_port_unlock}
use cc_rpc.Rpc.Registry.{rpc_init, rpc_register_method, rpc_bind_transport, rpc_transport_lookup}
use cc_rpc.Rpc.Invariant.{IsRpc}

-- With memory for the three tables and capacities up to 2^63, rpc_init makes a valid state with the
-- lock free and no method, no transport and no pending call.
pub rpc_init-IsRpc :
    (method_cap pending_cap transport_cap : ℕ)
    → method_cap ≤ 2 ^ 63
    → pending_cap ≤ 2 ^ 63
    → transport_cap ≤ 2 ^ 63
    → (s : Rpc) × (rpc_init (true, true, true) method_cap pending_cap transport_cap ≡ done s)
      × IsRpc s
      × (s.is_locked ≡ false)
      × ((name : List ℕ)
          → (hashmap_get s.methods name ≡ none) × (rpc_transport_lookup s name ≡ none))
      × ((seq : ℕ) → hashmap_get s.pending seq ≡ none)
unfolding rpc_init rpc_transport_lookup
rpc_init-IsRpc method_cap pending_cap transport_cap hm hp ht =
    let (methods, em, vm, gm, _, _) =
      hashmap_init_lem {K = List ℕ} {V = MethodEntry} method_cap hm in
    let (pending, ep, vp, gp, _, _) = hashmap_init_lem {K = ℕ} {V = ℕ} pending_cap hp in
    let (transports, et, vt, gt, _, _) =
      hashmap_init_lem {K = List ℕ} {V = Transport} transport_cap ht in
    (
      record {
        methods = methods;
        pending = pending;
        transports = transports;
        next_seq = 1;
        calls = λ _. none;
        next_call = 0;
        is_locked = false;
        ticks = 0;
        log = [];
      },
      rw (rpc_init, em, ep, et) refl,
      record {
        methods = vm;
        pending = vp;
        transports = vt;
        next_seq = (omega arith, omega arith);
        live = λ seq addr e. absurd (none-ne-some (gp seq) e);
        fresh = λ addr h. refl;
      },
      refl,
      (λ name. (gm name, gt name)),
      gp,
    )
  where
    none-ne-some : {o : Option ℕ} {a : ℕ} → o ≡ none → o ≡ some a → ⊥
    none-ne-some e f = cc

with_tables-IsRpc :
    (s : Rpc) (methods : HashMap (List ℕ) MethodEntry) (transports : HashMap (List ℕ) Transport)
    (ticks : ℕ)
    → IsRpc s
    → IsMap methods
    → IsMap transports
    → IsRpc
        (record s { methods = methods; transports = transports; ticks = ticks; is_locked = false })
with_tables-IsRpc s methods transports ticks v m t = record {
  methods = m;
  pending = v.pending;
  transports = t;
  next_seq = v.next_seq;
  live = λ seq addr e.
      let l = v.live seq addr e in
      record { call = l.call; allocated = l.allocated; numbered = l.numbered; roomy = l.roomy };
  fresh = v.fresh;
}

-- With memory, in a valid state with the lock free, a registered method is the one that its name
-- finds, every other name finds what it found before, the other tables stay, and the state is valid
-- with the lock free.
pub rpc_register_method_lem :
    (grant : ℕ → ℕ → Bool) (e : MethodEntry) (s : Rpc)
    → ((k n : ℕ) → grant k n ≡ true)
    → IsRpc s
    → s.is_locked ≡ false
    → (s' : Rpc) × (rpc_register_method grant e s ≡ done s')
      × IsRpc s'
      × (s'.is_locked ≡ false)
      × ((name : List ℕ)
          → hashmap_get s'.methods name
            ≡ (if str_equal e.name name then some e else hashmap_get s.methods name))
      × (s'.transports ≡ s.transports)
      × (s'.pending ≡ s.pending)
unfolding rpc_register_method rpc_port_lock rpc_port_unlock
rpc_register_method_lem grant e s granted v free =
    let (methods, put, u, _) = hashmap_put-Updates s.methods e.name e v.methods in
    (
      record s { methods = methods; ticks = s.ticks + 1 + 1; is_locked = false },
      rw (granted, rpc_register_method, free, granted, put) refl,
      with_tables-IsRpc s methods s.transports (s.ticks + 1 + 1) v u.valid v.transports,
      refl,
      u.reads,
      refl,
      refl,
    )

-- With memory, in a valid state with the lock free, a transport that is bound to a name is the one
-- that rpc_transport_lookup finds for it, every other name finds what it found before, the other
-- tables stay, and the state is valid with the lock free.
pub rpc_bind_transport_lem :
    (grant : ℕ → ℕ → Bool) (bound : List ℕ) (t : Transport) (s : Rpc)
    → ((k n : ℕ) → grant k n ≡ true)
    → IsRpc s
    → s.is_locked ≡ false
    → (s' : Rpc) × (rpc_bind_transport grant bound t s ≡ done s')
      × IsRpc s'
      × (s'.is_locked ≡ false)
      × ((name : List ℕ)
          → rpc_transport_lookup s' name
            ≡ (if str_equal bound name then some t else rpc_transport_lookup s name))
      × (s'.methods ≡ s.methods)
      × (s'.pending ≡ s.pending)
unfolding rpc_bind_transport rpc_port_lock rpc_port_unlock rpc_transport_lookup
rpc_bind_transport_lem grant bound t s granted v free =
    let (transports, put, u, _) = hashmap_put-Updates s.transports bound t v.transports in
    (
      record s { transports = transports; ticks = s.ticks + 1 + 1; is_locked = false },
      rw (granted, rpc_bind_transport, free, granted, put) refl,
      with_tables-IsRpc s s.methods transports (s.ticks + 1 + 1) v v.methods u.valid,
      refl,
      u.reads,
      refl,
      refl,
    )
