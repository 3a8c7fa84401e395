-- ===== src/Rpc/Call/Memory.antt =====
-- The memory of the pending calls, as `rpc_call_with_tlv` allocates and frees it.
use cc_rpc.Base.{
  ℕ, ◌≡◌, refl, sym, ap, ◌∙◌, subst, arith, false, Option, none, some, ◌==◌, ==_iff, Bool-cases,
  inl, inr,
}
use cc_rpc.HashMap.{HashMap, hashmap_get}
use cc_rpc.HashMap.Keys.{string_key, int_key}
use cc_rpc.HashMap.Map.{Updates, hashmap_remove-Updates}
use cc_rpc.Rpc.State.{Rpc, PendingCall, status_ok}
use cc_rpc.Rpc.Seq.{IsSeq}
use cc_rpc.Rpc.Call.{Arguments, new_call, free_call, forget_pending}
use cc_rpc.Rpc.Invariant.{core, HasRoom, IsLive, IsRpc}

pub some_inj {ℓ} : {A : Type ℓ} {a b : A} → some a ≡ some b → a ≡ b
some_inj e = cc

pub none-ne-some {ℓ} : {A : Type ℓ} {o : Option A} {a : A} → o ≡ none → o ≡ some a → ⊥
none-ne-some e f = cc

-- What a table holds after the number of a new call is put into it.
-- A call before its answer.
abbrev pub unanswered : ℕ → Arguments → PendingCall
unanswered seq args = record {
  seq = seq;
  buf = args.out_tlv;
  buf_size = args.out_len;
  resp_len = 0;
  status = status_ok;
  is_done = false;
  signaled = false;
}

new_call-IsLive :
    (seq : ℕ) (args : Arguments) (s : Rpc) (pending : HashMap ℕ ℕ)
    → IsRpc s
    → HasRoom args.out_tlv args.out_len
    → Updates s.pending seq (some s.next_call) pending
    → (k p : ℕ) → hashmap_get pending k ≡ some p
    → IsLive (core (record (new_call seq args s) { pending = pending })) k p
new_call-IsLive seq args s pending v room u k p found = elim (Bool-cases (seq == k)) [
  | inl e ↦
      let same : s.next_call ≡ p = some_inj (sym (u.reads k ∙ rw e refl) ∙ found) in
      subst (IsLive (core (record (new_call seq args s) { pending = pending })) k) same (record {
        call = unanswered seq args;
        allocated = unfold new_call in ground arith;
        numbered = (==_iff seq k).0 e;
        roomy = room;
      })
  | inr e ↦
      let old = v.live k p (sym (u.reads k ∙ rw e refl) ∙ found) in
      elim (Bool-cases (s.next_call == p)) [
        | inl f ↦
            absurd
              (none-ne-some (v.fresh p (omega (arith, (==_iff s.next_call p).0 f))) old.allocated)
        | inr f ↦ record {
          call = old.call;
          allocated = unfold new_call in rw f old.allocated;
          numbered = old.numbered;
          roomy = old.roomy;
        }
      ]
]

pub new_call-IsRpc :
    (seq : ℕ) (args : Arguments) (s : Rpc) (pending : HashMap ℕ ℕ)
    → IsRpc s
    → HasRoom args.out_tlv args.out_len
    → Updates s.pending seq (some s.next_call) pending
    → IsRpc (record (new_call seq args s) { pending = pending })
unfolding new_call
new_call-IsRpc seq args s pending v room u = record {
  methods = v.methods;
  pending = u.valid;
  transports = v.transports;
  next_seq = v.next_seq;
  live = new_call-IsLive seq args s pending v room u;
  fresh = λ p h.
      let other : (s.next_call == p) ≡ false = ground arith in rw other (v.fresh p (omega arith));
}

pub forget-IsRpc :
    (seq addr : ℕ) (s : Rpc)
    → IsRpc s
    → hashmap_get s.pending seq ≡ some addr
    → IsRpc (free_call addr (forget_pending seq s))
unfolding free_call forget_pending
forget-IsRpc seq addr s v here =
    let (u, _) = hashmap_remove-Updates s.pending seq v.pending in
    let mine = v.live seq addr here in
    record {
      methods = v.methods;
      pending = u.valid;
      transports = v.transports;
      next_seq = v.next_seq;
      live = λ k p found. elim (Bool-cases (seq == k)) [
        | inl e ↦ absurd (none-ne-some (u.reads k ∙ rw e refl) found)
        | inr e ↦
            let old = v.live k p (sym (u.reads k ∙ rw e refl) ∙ found) in
            elim (Bool-cases (addr == p)) [
              | inl f ↦
                  let same : mine.call ≡ old.call =
                    some_inj
                      (sym mine.allocated ∙ ap s.calls ((==_iff addr p).0 f) ∙ old.allocated) in
                  absurd (apart e (sym mine.numbered ∙ ap (λ c. c.seq) same ∙ old.numbered))
              | inr f ↦ record {
                call = old.call;
                allocated = rw f old.allocated;
                numbered = old.numbered;
                roomy = old.roomy;
              }
            ]
      ];
      fresh =
          λ p h. elim (Bool-cases (addr == p)) [ inl f ↦ rw f refl | inr f ↦ rw f (v.fresh p h) ];
    }
  where
    apart : {a b : ℕ} → a == b ≡ false → a ≡ b → ⊥
    apart {a} {b} e f = ground arith

pub renumbered-IsRpc :
    (s : Rpc) (next : ℕ) → IsSeq next → IsRpc s → IsRpc (record s { next_seq = next })
renumbered-IsRpc s next range v = record {
  methods = v.methods;
  pending = v.pending;
  transports = v.transports;
  next_seq = range;
  live = λ seq addr e.
      let l = v.live seq addr e in
      record { call = l.call; allocated = l.allocated; numbered = l.numbered; roomy = l.roomy };
  fresh = v.fresh;
}
