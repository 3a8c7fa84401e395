-- ===== src/Rpc/Steps.antt =====
-- The runtime as a state machine: every completed operation of ccrpc/source/rpc.c is a step, in any
-- order, and each call of a client is two of them, so that calls and messages interleave.
use cc_rpc.Base.{
  ℕ, ◌-◌, ◌^◌, ◌<◌, ◌≡◌, refl, sym, ap, ◌∙◌, subst, arith, List, Bool, true, false, ◌||◌, Option,
  some, length, Outcome, done,
}
use cc_rpc.HashMap.{hashmap_get}
use cc_rpc.HashMap.Keys.{string_key, int_key}
use cc_rpc.Reasm.{Reasm}
use cc_rpc.Reasm.Buffer.{IsCounted}
use cc_rpc.Rpc.State.{Rpc, Transport, MethodEntry, PendingCall}
use cc_rpc.Rpc.Request.Serve.{AllFit}
use cc_rpc.Rpc.Receive.{pushed, rpc_on_data}
use cc_rpc.Rpc.Receive.Laws.{rpc_on_data-Receives}
use cc_rpc.Rpc.Call.{pending_keys, Arguments, Begun, Result, rpc_call_begin, rpc_call_finish}
use cc_rpc.Rpc.Call.Begin.{rpc_call_begin-Began}
use cc_rpc.Rpc.Call.Finish.{rpc_call_finish-Finished}
use cc_rpc.Rpc.Registry.{rpc_init, rpc_register_method, rpc_bind_transport, rpc_transport_lookup}
use cc_rpc.Rpc.Registry.Laws.{rpc_init-IsRpc, rpc_register_method_lem, rpc_bind_transport_lem}
use cc_rpc.Rpc.Invariant.{HasRoom, IsRpc}

-- A step with the conditions under which its callers make it: the callbacks of the registered methods
-- keep to their buffers when data are received, the buffer of a call that begins is as long as it says,
-- its transport is bound, and there is a free number; a call that ends is answered or late.
pub data Step (grant : ℕ → ℕ → Bool) : Rpc → Rpc → Type 0 where
  registers :
      (e : MethodEntry) (s s' : Rpc) → rpc_register_method grant e s ≡ done s' → Step grant s s'
  binds :
      (name : List ℕ) (t : Transport) (s s' : Rpc)
      → rpc_bind_transport grant name t s ≡ done s'
      → Step grant s s'
  receives :
      (t : Transport) (content : List ℕ) (r r' : Reasm) (s s' : Rpc)
      → IsCounted r
      → AllFit s.methods
      → t.has_recv ≡ true
      → rpc_on_data grant t (pushed content) r s ≡ some (r', done s')
      → Step grant s s'
  begins :
      (waiter_granted : Bool) (t : Transport) (args : Arguments) (b : Begun) (s s' : Rpc)
      → HasRoom args.out_tlv args.out_len
      → rpc_transport_lookup s args.name ≡ some t
      → length (pending_keys s) < 2 ^ 32 - 1
      → rpc_call_begin grant waiter_granted args s ≡ done (b, s')
      → Step grant s s'
  finishes :
      (has_len expired : Bool) (seq addr : ℕ) (pc : PendingCall) (result : Result) (s s' : Rpc)
      → hashmap_get s.pending seq ≡ some addr
      → s.calls addr ≡ some pc
      → (expired || pc.signaled) ≡ true
      → rpc_call_finish has_len expired seq addr s ≡ done (result, s')
      → Step grant s s'

-- The states after `rpc_init` and any number of steps.
pub data Reach (grant : ℕ → ℕ → Bool) : Rpc → Type 0 where
  starts :
      (method_cap pending_cap transport_cap : ℕ) (s : Rpc)
      → method_cap < 2 ^ 8
      → pending_cap < 2 ^ 8
      → transport_cap < 2 ^ 8
      → rpc_init (true, true, true) method_cap pending_cap transport_cap ≡ done s
      → Reach grant s
  goes_on : (s s' : Rpc) → Reach grant s → Step grant s s' → Reach grant s'

abbrev IsIdle : Rpc → Type 0
IsIdle s = IsRpc s × (s.is_locked ≡ false)

done_inj {ℓ} : {A : Type ℓ} {r : Outcome A} {a b : A} → r ≡ done a → r ≡ done b → a ≡ b
done_inj e f = cc

ran : {r : Outcome Rpc} (a b : Rpc) → r ≡ done a → r ≡ done b → IsIdle a → IsIdle b
ran a b e f = subst IsIdle (done_inj e f)

ran_with :
    {A : Type 0} {r : Outcome (A × Rpc)} (x y : A) (a b : Rpc)
    → r ≡ done (x, a)
    → r ≡ done (y, b)
    → IsIdle a
    → IsIdle b
ran_with x y a b e f = subst IsIdle (ap (λ p. p.1) (done_inj e f))

abbrev returned : Reasm → Rpc → Option (Reasm × Outcome Rpc)
returned r s = some (r, done s)

returned_inj : (q r : Reasm) (a b : Rpc) → returned q a ≡ returned r b → a ≡ b
returned_inj q r a b e = cc

ran_on :
    {o : Option (Reasm × Outcome Rpc)} (q r : Reasm) (a b : Rpc)
    → o ≡ returned q a
    → o ≡ returned r b
    → IsIdle a
    → IsIdle b
ran_on q r a b e f = subst IsIdle (returned_inj q r a b (sym e ∙ f))

Step-IsIdle :
    (grant : ℕ → ℕ → Bool) (s s' : Rpc)
    → ((k n : ℕ) → grant k n ≡ true)
    → Step grant s s'
    → IsIdle s
    → IsIdle s'
Step-IsIdle grant s s' granted (registers e _ _ run) (v, free) =
    let (t, did, v', free', _, _, _) = rpc_register_method_lem grant e s granted v free in
    ran t s' did run (v', free')
Step-IsIdle grant s s' granted (binds name t _ _ run) (v, free) =
    let (u, did, v', free', _, _, _) = rpc_bind_transport_lem grant name t s granted v free in
    ran u s' did run (v', free')
Step-IsIdle grant s s' granted (receives t content r r' _ _ counted fit can_poll run) (v, free) =
    let d = (rpc_on_data-Receives grant t content r s counted v fit free can_poll).0 in
    ran_on d.reasm r' (record d.after { is_locked = false }) s' d.runs run (d.valid, refl)
Step-IsIdle grant s s' granted (begins w t args b _ _ room bound few run) (v, free) =
    let d = rpc_call_begin-Began grant w t args s granted v free room bound few in
    ran_with d.begun b d.after s' d.runs run (d.valid, d.unlocked)
Step-IsIdle grant s s' granted
      (finishes has_len expired seq addr pc result _ _ there here ready run) (v, free) =
    let d = rpc_call_finish-Finished has_len expired seq addr pc s v free there here ready in
    ran_with _ result d.after s' d.runs run (d.valid, d.unlocked)

-- If memory is always granted, every state that is reached from rpc_init, with capacities of a
-- uint8_t, by any sequence of registrations, bindings, calls of rpc_on_data with data of any
-- content, and first and second parts of calls, interleaved in any way, is valid, with the lock
-- free. The steps are taken under these conditions: data arrive in a buffer whose count is right, at
-- a transport with recv, while the callbacks of the registered methods leave no more than 4096 bytes
-- each; a call begins with a buffer as long as the caller says, for a name whose transport is bound,
-- while fewer than 2^32 - 1 calls are pending; and a call ends that is pending and is answered or
-- late.
pub Reach-IsRpc :
    (grant : ℕ → ℕ → Bool) (s : Rpc)
    → ((k n : ℕ) → grant k n ≡ true)
    → Reach grant s
    → IsRpc s × (s.is_locked ≡ false)
Reach-IsRpc grant s granted (starts m p t _ hm hp ht run) =
    let (u, did, v, free, _, _) = rpc_init-IsRpc m p t (omega arith) (omega arith) (omega arith) in
    ran u s did run (v, free)
Reach-IsRpc grant s granted (goes_on before _ reached step) =
    Step-IsIdle grant before s granted step (Reach-IsRpc grant before granted reached)
