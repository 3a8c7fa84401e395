-- ===== src/Rpc/Call/Begin.antt =====
-- `rpc_call_with_tlv` up to its wait.
use cc_rpc.Base.{
  ℕ, ◌+◌, ◌-◌, ◌^◌, ◌<◌, ◌≡◌, refl, sym, ap, ◌∙◌, subst, arith, List, [], ◌∷◌, ◌++◌, Bool, true,
  false, none, some, length, ◌==◌, ==_iff, if◌then◌else◌, ◌⊎◌, Bool-cases, Option-cases, inl, inr,
  Outcome, done,
}
use cc_rpc.HashMap.{HashMap, hashmap_get}
use cc_rpc.HashMap.Keys.{string_key, int_key}
use cc_rpc.HashMap.Map.{hashmap_put-Updates, hashmap_remove-Updates}
use cc_rpc.Rpc.State.{
  Event, sent, rpc_port_lock, rpc_port_unlock, Rpc, Transport, minus, status_transport_error,
  status_internal_error, Code,
}
use cc_rpc.Rpc.Send.{send_message, rpc_send_request_tlv, request_bytes}
use cc_rpc.Rpc.Registry.{rpc_transport_lookup}
use cc_rpc.Rpc.Seq.{IsSeq}
use cc_rpc.Rpc.Call.{
  pending_keys, Arguments, Begun, returned, waiting, new_call, free_call, forget_pending,
  start_call, rpc_call_begin,
}
use cc_rpc.Rpc.Invariant.{unlocked-IsRpc, Core, core, HasRoom, IsCore, IsRpc, send_message-core}
use cc_rpc.Rpc.Call.Numbers.{rpc_next_seq-IsNext}
use cc_rpc.Rpc.Call.Memory.{unanswered, new_call-IsRpc, forget-IsRpc, renumbered-IsRpc}

request_sent :
    (grant : ℕ → ℕ → Bool) (t : Transport) (seq : ℕ) (args : Arguments) (s : Rpc)
    → (rpc_send_request_tlv grant t seq args.name args.tlv s).0 ≡ true
    → (rpc_send_request_tlv grant t seq args.name args.tlv s).1.log
      ≡ s.log ++ (sent t.id (request_bytes seq args.name args.tlv) ∷ [])
unfolding rpc_send_request_tlv send_message
request_sent grant t seq args s h = elim (Option-cases t.send) [
  | inl e ↦ absurd (false-ne-true (rw (e, send_message) refl) h)
  | inr (send, e) ↦
      elim (Bool-cases (grant s.ticks (length (request_bytes seq args.name args.tlv)))) [
        | inl g ↦ rw (e, send_message, g) refl
        | inr g ↦ absurd (false-ne-true (rw (e, send_message, g) refl) h)
      ]
]
  where
    false-ne-true : {b : Bool} → b ≡ false → b ≡ true → ⊥
    false-ne-true e f = cc

-- Whether the transport takes the bytes; without a `send` it takes none.
abbrev pub accepts : Transport → List ℕ → Bool
accepts t msg = elim t.send [ none ↦ false | some send ↦ send msg ]

request_taken :
    (grant : ℕ → ℕ → Bool) (t : Transport) (seq : ℕ) (args : Arguments) (s : Rpc)
    → ((k n : ℕ) → grant k n ≡ true)
    → (rpc_send_request_tlv grant t seq args.name args.tlv s).0
      ≡ accepts t (request_bytes seq args.name args.tlv)
unfolding rpc_send_request_tlv send_message
request_taken grant t seq args s granted = elim (Option-cases t.send) [
  | inl e ↦ rw (e, send_message) refl
  | inr (send, e) ↦ rw (e, send_message, granted) refl
]

-- The code of a return, and its cause: no waiter, or a transport that does not take the request.
abbrev pub Refused : Bool → Transport → Arguments → HashMap ℕ ℕ → Code → Type 0
Refused waiter_granted t args old c =
    ((waiter_granted ≡ false) × (c ≡ minus status_internal_error))
    ⊎ ((seq : ℕ) × (waiter_granted ≡ true)
        × (c ≡ minus status_transport_error)
        × IsSeq seq
        × (hashmap_get old seq ≡ none)
        × (accepts t (request_bytes seq args.name args.tlv) ≡ false))

-- What the first part of a call leaves: a return that leaves no trace among the pending calls, or
-- a wait, for a number that was free, whose request is sent.
abbrev pub Begins : Bool → Transport → Arguments → HashMap ℕ ℕ → List Event → Begun → Rpc → Type 0
Begins w t args old log (returned c) after =
    ((q : ℕ) → hashmap_get after.pending q ≡ hashmap_get old q) × Refused w t args old c
Begins w t args old log (waiting seq addr) after =
    (w ≡ true)
    × IsSeq seq
    × (hashmap_get old seq ≡ none)
    × (accepts t (request_bytes seq args.name args.tlv) ≡ true)
    × ((q : ℕ) → hashmap_get after.pending q ≡ (if seq == q then some addr else hashmap_get old q))
    × (after.calls addr ≡ some (unanswered seq args))
    × (after.log ≡ log ++ (sent t.id (request_bytes seq args.name args.tlv) ∷ []))

pub record Began (w : Bool) (t : Transport) (args : Arguments) (s : Rpc)
    (run : Outcome (Begun × Rpc)) : Type 0 where
  pub begun : Begun
  pub after : Rpc
  pub runs : run ≡ done (begun, after)
  pub valid : IsRpc after
  pub unlocked : after.is_locked ≡ false
  pub begins : Begins w t args s.pending s.log begun after

start_call-Began :
    (grant : ℕ → ℕ → Bool) (t : Transport) (seq : ℕ) (args : Arguments) (s : Rpc)
    → ((k n : ℕ) → grant k n ≡ true)
    → IsRpc s
    → HasRoom args.out_tlv args.out_len
    → IsSeq seq
    → hashmap_get s.pending seq ≡ none
    → Began true t args s (start_call grant t seq args s)
unfolding start_call new_call
start_call-Began grant t seq args s granted v room range free =
    let addr = s.next_call in
    let (pending, put, u, _) = hashmap_put-Updates s.pending seq addr v.pending in
    let base : Rpc = record (new_call seq args s) {
      pending = pending;
      ticks = (new_call seq args s).ticks + 1;
    } in
    let r = rpc_send_request_tlv grant t seq args.name args.tlv base in
    let same : core r.1 ≡ core base =
      unfold rpc_send_request_tlv in send_message-core grant t _ base in
    let ready = new_call-IsRpc seq args s pending v room u in
    let valid : IsRpc r.1 = subst IsCore (sym same) ready in
    elim (Bool-cases r.0) [
      | inl ok ↦ record {
        begun = waiting seq addr;
        after = rpc_port_unlock r.1;
        runs = rw (start_call, granted, put, ok) refl;
        valid = unfold rpc_port_unlock in unlocked-IsRpc r.1 false valid;
        unlocked = unfold rpc_port_unlock in refl;
        begins = (
          refl,
          range,
          free,
          sym (request_taken grant t seq args base granted) ∙ ok,
          (λ q.
              unfold rpc_port_unlock in
              ap (λ (c : Core). hashmap_get c.pending q) same ∙ u.reads q),
          unfold rpc_port_unlock in ap (λ (c : Core). c.calls addr) same ∙ ground arith,
          unfold rpc_port_unlock in request_sent grant t seq args base ok,
        );
      }
      | inr failed ↦
          let there : hashmap_get r.1.pending seq ≡ some addr =
            ap (λ (c : Core). hashmap_get c.pending seq) same ∙ u.reads seq ∙ ground arith in
          let (w, _) = hashmap_remove-Updates r.1.pending seq valid.pending in
          record {
            begun = returned (minus status_transport_error);
            after = rpc_port_unlock (free_call addr (forget_pending seq r.1));
            runs = rw (start_call, granted, put, failed) refl;
            valid =
                unfold rpc_port_unlock in
                unlocked-IsRpc (free_call addr (forget_pending seq r.1)) false
                  (forget-IsRpc seq addr r.1 valid there);
            unlocked = unfold rpc_port_unlock in refl;
            begins = (
              (λ q.
                  unfold rpc_port_unlock free_call forget_pending in
                  w.reads q
                  ∙ ap (λ (c : Core). if seq == q then none else hashmap_get c.pending q) same
                  ∙ ap (λ o. if seq == q then none else o) (u.reads q)
                  ∙ given_back q (Bool-cases (seq == q))),
              inr (
                seq,
                refl,
                refl,
                range,
                free,
                sym (request_taken grant t seq args base granted) ∙ failed,
              ),
            );
          }
    ]
  where
    given_back :
        (q : ℕ)
        → ((seq == q) ≡ true) ⊎ ((seq == q) ≡ false)
        → (if seq == q
            then none
            else (if seq == q then some s.next_call else hashmap_get s.pending q))
          ≡ hashmap_get s.pending q
    given_back q (inl e) = rw e (sym (ap (hashmap_get s.pending) (sym ((==_iff seq q).0 e)) ∙ free))
    given_back q (inr e) = rw e refl

pub rpc_call_begin-Began :
    (grant : ℕ → ℕ → Bool) (waiter_granted : Bool) (t : Transport) (args : Arguments) (s : Rpc)
    → ((k n : ℕ) → grant k n ≡ true)
    → IsRpc s
    → s.is_locked ≡ false
    → HasRoom args.out_tlv args.out_len
    → rpc_transport_lookup s args.name ≡ some t
    → length (pending_keys s) < 2 ^ 32 - 1
    → Began waiter_granted t args s (rpc_call_begin grant waiter_granted args s)
unfolding rpc_call_begin rpc_port_lock
rpc_call_begin-Began grant waiter_granted t args s granted v free room bound few =
    let next = rpc_next_seq-IsNext (record s { is_locked = true }) (unlocked-IsRpc s true v) few in
    let taken : Rpc = record s { is_locked = true; next_seq = next.next; ticks = s.ticks + 1 } in
    let ready =
      renumbered-IsRpc (record s { is_locked = true }) next.next next.next_range
        (unlocked-IsRpc s true v) in
    elim (Bool-cases waiter_granted) [
      | inl w ↦
          let b =
            start_call-Began grant t next.seq args taken granted ready room next.seq_range
              next.free in
          record {
            begun = b.begun;
            after = b.after;
            runs = rw (bound, free, rpc_call_begin, next.runs, granted, w) b.runs;
            valid = b.valid;
            unlocked = b.unlocked;
            begins = subst (λ u. Begins u t args s.pending s.log b.begun b.after) (sym w) b.begins;
          }
      | inr w ↦ record {
        begun = returned (minus status_internal_error);
        after = rpc_port_unlock taken;
        runs = rw (bound, free, rpc_call_begin, next.runs, granted, w) refl;
        valid = unfold rpc_port_unlock in unlocked-IsRpc taken false ready;
        unlocked = unfold rpc_port_unlock in refl;
        begins = ((λ q. unfold rpc_port_unlock in refl), inl (w, refl));
      }
    ]
