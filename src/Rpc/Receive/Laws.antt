-- ===== src/Rpc/Receive/Laws.antt =====
-- `rpc_on_data` as a whole: it returns, it keeps the state valid, and it lets go of the lock.
use cc_rpc.Base.{
  ℕ, suc, ◌+◌, ◌≡◌, refl, sym, ap, ◌∙◌, subst, arith, List, [], ◌∷◌, Bool, true, false, Option,
  none, some, length, ltb, ◌==◌, Bool-cases, inl, inr, Outcome, done, refuse,
}
use cc_rpc.Wire.{header_size, read_header, load_header}
use cc_rpc.Reasm.{Reasm, rpc_reasm_append}
use cc_rpc.Reasm.Buffer.{stream, IsCounted, rpc_reasm_append_lem}
use cc_rpc.Reasm.Frames.{frames}
use cc_rpc.Reasm.Loop.{deliver, on_data_loop-Delivers}
use cc_rpc.Rpc.State.{Rpc, Transport, malloc, rpc_port_lock, rpc_port_unlock}
use cc_rpc.Rpc.Send.{rpc_send_response_tlv, send_message}
use cc_rpc.Rpc.Request.{rpc_handle_request}
use cc_rpc.Rpc.Request.Serve.{AllFit, rpc_handle_request-Serves}
use cc_rpc.Rpc.Response.Laws.{Keeps, Keeps-self, rpc_handle_response-Keeps}
use cc_rpc.Rpc.Receive.{
  rpc_dispatch_message, loop_malloc, loop_dispatch, sizeof_rpc_buf, Input, pushed, polled, drain,
  rpc_on_data,
}
use cc_rpc.Rpc.Invariant.{unlocked-IsRpc, Core, IsCore, IsRpc}

-- In a valid state, if the callbacks of the registered methods leave no more than 4096 bytes each on
-- any parameters, any bytes dispatched as a message are handled, whatever memory there is, without a
-- read past the message, a write past the 128 bytes of method or past the caller's buffer, or an
-- access to a call that is not allocated; the state stays valid, and the lock, the methods and the
-- set of pending numbers stay as they are.
pub rpc_dispatch_message-Keeps :
    (grant : ℕ → ℕ → Bool) (t : Transport) (msg : List ℕ) (s : Rpc)
    → IsRpc s
    → AllFit s.methods
    → Keeps s (rpc_dispatch_message grant t msg s)
unfolding rpc_dispatch_message load_header
rpc_dispatch_message-Keeps grant t msg s v fit = elim (Bool-cases (ltb (length msg) header_size)) [
  | inl short ↦ rw short (Keeps-self s v)
  | inr whole ↦ elim (Bool-cases ((read_header msg).method_len == 0)) [
    | inl e ↦ rw (whole, e) (rpc_handle_response-Keeps msg s v)
    | inr e ↦
        let (after, runs, same) = rpc_handle_request-Serves grant t msg s fit in
        rw (whole, e)
          (record {
            after = after;
            runs = runs;
            valid = subst IsCore (sym same) v;
            lock = ap (λ (c : Core). c.is_locked) same;
            pending = ap (λ (c : Core). c.pending) same;
            methods = ap (λ (c : Core). c.methods) same;
          })
  ]
]

Keeps-trans :
    (a b : Rpc) (run : Outcome Rpc)
    → b.is_locked ≡ a.is_locked
    → b.pending ≡ a.pending
    → b.methods ≡ a.methods
    → Keeps b run
    → Keeps a run
Keeps-trans a b run l p m k = record {
  after = k.after;
  runs = k.runs;
  valid = k.valid;
  lock = k.lock ∙ l;
  pending = k.pending ∙ p;
  methods = k.methods ∙ m;
}

-- The messages of a stream, one after the other.
deliver-Keeps :
    (grant : ℕ → ℕ → Bool) (t : Transport) (ms : List (List ℕ)) (s : Rpc)
    → IsRpc s
    → AllFit s.methods
    → Keeps s (deliver (loop_malloc grant) (loop_dispatch grant t) ms (done s))
unfolding deliver
deliver-Keeps grant t [] s v fit = Keeps-self s v
deliver-Keeps grant t (m ∷ ms) s v fit =
    let s₁ = (malloc grant (length m) s).1 in
    elim (Bool-cases (grant s.ticks (length m))) [
      | inr g ↦ rw g (Keeps-trans s s₁ _ refl refl refl (deliver-Keeps grant t ms s₁ v fit))
      | inl g ↦
          let k = rpc_dispatch_message-Keeps grant t m s₁ v fit in
          rw (g, k.runs)
            (Keeps-trans s k.after _ k.lock k.pending k.methods
              (deliver-Keeps grant t ms k.after k.valid (subst AllFit (sym k.methods) fit)))
    ]

-- The state in which the loop runs: the lock is held, and memory for the chunk was asked for.
abbrev pub receiving : Rpc → Rpc
receiving s = record s { is_locked = true; ticks = s.ticks + 1 }

abbrev pub received : (ℕ → ℕ → Bool) → List ℕ → Reasm → Rpc → Reasm
received grant content r s =
    rpc_reasm_append (grant s.ticks (sizeof_rpc_buf + length content)) r content

-- What a call of `rpc_on_data` with data does: the messages that are whole now are handled, in
-- order, the bytes of the message that is not stay, the state is valid, and the lock is free.
pub record Receives (grant : ℕ → ℕ → Bool) (t : Transport) (r₁ : Reasm) (s₁ : Rpc)
    (run : Option (Reasm × Outcome Rpc)) : Type 0 where
  pub reasm : Reasm
  pub after : Rpc
  pub runs : run ≡ some (reasm, done (record after { is_locked = false }))
  pub handled :
      deliver (loop_malloc grant) (loop_dispatch grant t) (frames (stream r₁)).messages (done s₁)
      ≡ done after
  pub rest : stream reasm ≡ (frames (stream r₁)).rest
  pub counted : IsCounted reasm
  pub valid : IsRpc (record after { is_locked = false })
  pub pending : after.pending ≡ s₁.pending

received-IsCounted :
    (grant : ℕ → ℕ → Bool) (content : List ℕ) (r : Reasm) (s : Rpc)
    → IsCounted r
    → IsCounted (received grant content r s)
unfolding rpc_reasm_append
received-IsCounted grant content r s h =
    elim (Bool-cases (grant s.ticks (sizeof_rpc_buf + length content))) [
      | inl g ↦ rw g ((rpc_reasm_append_lem r content h).1)
      | inr g ↦ elim (Bool-cases (length content == 0)) [
        | inl e ↦ rw (g, e) h
        | inr e ↦ rw (g, e) h
      ]
    ]

drain-Receives :
    (grant : ℕ → ℕ → Bool) (t : Transport) (r : Reasm) (s : Rpc)
    → IsCounted r
    → IsRpc s
    → AllFit s.methods
    → Receives grant t r s (drain grant t r s)
unfolding drain rpc_port_unlock
drain-Receives grant t r s h v fit =
    let d =
      on_data_loop-Delivers (loop_malloc grant) (loop_dispatch grant t) (suc r.total_len) r (done s)
        h (omega arith) in
    let k = deliver-Keeps grant t (frames (stream r)).messages s v fit in
    record {
      reasm = d.reasm;
      after = k.after;
      runs = rw (drain, d.runs, k.runs) refl;
      handled = k.runs;
      rest = d.rest;
      counted = d.counted;
      valid = unlocked-IsRpc k.after false k.valid;
      pending = k.pending;
    }

-- In a valid state with the lock free, for a transport with recv and a reassembly buffer whose count
-- is right, rpc_on_data on data of any content, pushed or polled, whatever memory there is, and if
-- the callbacks of the registered methods leave no more than 4096 bytes each on any parameters,
-- returns with a valid state and the lock free: the messages that are whole now were handled in
-- order, the bytes behind them stay in the buffer, and the set of pending numbers is the same.
pub rpc_on_data-Receives :
    (grant : ℕ → ℕ → Bool) (t : Transport) (content : List ℕ) (r : Reasm) (s : Rpc)
    → IsCounted r
    → IsRpc s
    → AllFit s.methods
    → s.is_locked ≡ false
    → t.has_recv ≡ true
    → Receives grant t
        (received grant content r s)
        (receiving s)
        (rpc_on_data grant t (pushed content) r s)
      × Receives grant t
          (received grant content r s)
          (receiving s)
          (rpc_on_data grant t (polled (some content)) r s)
unfolding rpc_on_data rpc_port_lock drain rpc_dispatch_message rpc_handle_request
    rpc_send_response_tlv send_message
rpc_on_data-Receives grant t content r s h v fit free can_poll =
    let ready = unlocked-IsRpc (record s { ticks = s.ticks + 1 }) true v in
    let run =
      drain-Receives grant t (received grant content r s) (receiving s)
        (received-IsCounted grant content r s h) ready fit in
    let pushes : rpc_on_data grant t (pushed content) r s
        ≡ drain grant t (received grant content r s) (receiving s) =
      rw (can_poll, free, rpc_on_data) refl in
    let polls : rpc_on_data grant t (polled (some content)) r s
        ≡ drain grant t (received grant content r s) (receiving s) =
      rw (can_poll, free, rpc_on_data) refl in
    (
      subst (Receives grant t (received grant content r s) (receiving s)) (sym pushes) run,
      subst (Receives grant t (received grant content r s) (receiving s)) (sym polls) run,
    )

-- A poll that receives nothing, on a lock that is free and a transport with recv, returns with the
-- lock held, and every later call of rpc_on_data, for any transport with recv and any input, waits
-- for the lock.
pub rpc_on_data_locked_out :
    (grant : ℕ → ℕ → Bool) (t u : Transport) (r q : Reasm) (input : Input) (s : Rpc)
    → s.is_locked ≡ false
    → t.has_recv ≡ true
    → u.has_recv ≡ true
    → (after : Rpc) × (rpc_on_data grant t (polled none) r s ≡ some (r, done after))
      × (rpc_on_data grant u input q after ≡ some (q, refuse))
unfolding rpc_on_data rpc_port_lock
rpc_on_data_locked_out grant t u r q input s free can_poll can_poll' =
    (record s { is_locked = true }, rw (can_poll, free, rpc_on_data) refl, rw can_poll' refl)
