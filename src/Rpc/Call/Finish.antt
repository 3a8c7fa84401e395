-- ===== src/Rpc/Call/Finish.antt =====
-- `rpc_call_with_tlv` from its wait on, and a whole call with its answer.
use cc_rpc.Base.{
  ℕ, ◌≡◌, refl, sym, ◌∙◌, subst, arith, List, Bool, true, false, ◌||◌, none, some, ◌==◌,
  if◌then◌else◌, ◌⊎◌, Bool-cases, inl, inr, Outcome, done, ◌>>=◌,
}
use cc_rpc.HashMap.{hashmap_get}
use cc_rpc.HashMap.Keys.{string_key, int_key}
use cc_rpc.HashMap.Map.{hashmap_remove-Updates}
use cc_rpc.Rpc.State.{
  rpc_port_lock, rpc_port_unlock, Rpc, PendingCall, status, status_timeout, update,
}
use cc_rpc.Rpc.Send.{response_bytes}
use cc_rpc.Rpc.Response.{rpc_handle_response}
use cc_rpc.Rpc.Call.{free_call, forget_pending, rpc_waiter_wait, Result, rpc_call_finish}
use cc_rpc.Rpc.Response.Answer.{answered, with_answer, with_answer-IsRpc}
use cc_rpc.Rpc.Response.Laws.{IsResponse, rpc_handle_response_answers}
use cc_rpc.Rpc.Invariant.{unlocked-IsRpc, HasRoom, IsRpc}
use cc_rpc.Rpc.Call.Memory.{some_inj, forget-IsRpc}

-- The second part, once the call is answered or its time is up: the caller gets the answer or
-- `RPC_STATUS_TIMEOUT`, the number is no longer pending, the memory is free, and no other call is
-- touched.
pub record Finished (has_len expired : Bool) (seq addr : ℕ) (pc : PendingCall) (s : Rpc)
    (run : Outcome (Result × Rpc)) : Type 0 where
  pub after : Rpc
  pub runs :
      run
      ≡ done (
        record {
          code = status (if expired then status_timeout else pc.status);
          out_tlv = pc.buf;
          out_len = elim pc.buf [
            | none ↦ none
            | some _ ↦ if has_len then some pc.resp_len else none
          ];
        },
        after,
      )
  pub valid : IsRpc after
  pub unlocked : after.is_locked ≡ false
  pub reads :
      (q : ℕ) → hashmap_get after.pending q ≡ (if seq == q then none else hashmap_get s.pending q)
  pub freed : (p : ℕ) → after.calls p ≡ (if addr == p then none else s.calls p)

-- In a valid state with the lock free, if a pending call is signaled or its wait has expired, the
-- second part of the call returns the call's status, or TIMEOUT if the wait expired, with what is in
-- its buffer; afterwards its number is not pending, its memory is free, no other call or number is
-- touched, and the state is valid with the lock free.
pub rpc_call_finish-Finished :
    (has_len expired : Bool) (seq addr : ℕ) (pc : PendingCall) (s : Rpc)
    → IsRpc s
    → s.is_locked ≡ false
    → hashmap_get s.pending seq ≡ some addr
    → s.calls addr ≡ some pc
    → (expired || pc.signaled) ≡ true
    → Finished has_len expired seq addr pc s (rpc_call_finish has_len expired seq addr s)
unfolding rpc_call_finish rpc_port_lock rpc_waiter_wait
rpc_call_finish-Finished has_len expired seq addr pc s v free there here ready =
    let held : Rpc = record s { is_locked = true } in
    let (u, _) = hashmap_remove-Updates s.pending seq v.pending in
    record {
      after = rpc_port_unlock (free_call addr (forget_pending seq held));
      runs = elim (Bool-cases expired) [
        | inl e ↦ rw (here, rpc_call_finish, free, e) refl
        | inr e ↦
            let woken : pc.signaled ≡ true = rw e at ready in
            rw (here, rpc_call_finish, free, e, woken) refl
      ];
      valid =
          unfold rpc_port_unlock in
          unlocked-IsRpc (free_call addr (forget_pending seq held)) false
            (forget-IsRpc seq addr held (unlocked-IsRpc s true v) there);
      unlocked = unfold rpc_port_unlock in refl;
      reads = unfold rpc_port_unlock free_call forget_pending in u.reads;
      freed = λ p. unfold rpc_port_unlock free_call forget_pending in refl;
    }

-- In a valid state with the lock free, if a call is pending under a number and a response with that
-- number arrives, of a status below 2^16 and a payload below 2^32 bytes, then the call ends with
-- that status, the first bytes of the payload over the front of the caller's buffer, cut to the size
-- the caller gave, and their number; afterwards the number is not pending, the memory of the call is
-- free, no other call or number is touched, and the state is valid with the lock free.
pub rpc_call_answered :
    (has_len : Bool) (seq addr st : ℕ) (tlv : List ℕ) (pc : PendingCall) (s : Rpc)
    → IsRpc s
    → s.is_locked ≡ false
    → IsResponse seq st tlv
    → hashmap_get s.pending seq ≡ some addr
    → s.calls addr ≡ some pc
    → Finished has_len false seq addr (answered pc st tlv) s (
        rpc_handle_response (response_bytes seq st tlv) s >>= λ u.
        rpc_call_finish has_len false seq addr u)
rpc_call_answered has_len seq addr st tlv pc s v free r there here =
    let run : rpc_handle_response (response_bytes seq st tlv) s
        ≡ done (with_answer addr pc st tlv s) =
      rpc_handle_response_answers seq st tlv s v r ∙ rw (there, here) refl in
    let live = v.live seq addr there in
    let room : HasRoom pc.buf pc.buf_size =
      subst (λ (c : PendingCall). HasRoom c.buf c.buf_size) (some_inj (sym live.allocated ∙ here))
        live.roomy in
    let u = with_answer addr pc st tlv s in
    let f =
      rpc_call_finish-Finished has_len false seq addr (answered pc st tlv) u
        (with_answer-IsRpc addr st pc tlv s v here room) free there (ground arith) refl in
    record {
      after = f.after;
      runs = rw run f.runs;
      valid = f.valid;
      unlocked = f.unlocked;
      reads = f.reads;
      freed = λ p. f.freed p ∙ aside p (Bool-cases (addr == p));
    }
  where
    aside :
        (p : ℕ)
        → ((addr == p) ≡ true) ⊎ ((addr == p) ≡ false)
        → (if addr == p then none else update s.calls addr (some (answered pc st tlv)) p)
          ≡ (if addr == p then none else s.calls p)
    aside p (inl e) = rw e refl
    aside p (inr e) = rw e refl
