-- ===== src/Rpc/Call/Numbers.antt =====
-- `rpc_next_seq` on the table of pending calls.
use cc_rpc.Base.{
  ℕ, zero, suc, ◌-◌, ◌^◌, ◌<◌, ◌≡◌, refl, ap, arith, List, [], ◌∷◌, ◌++◌, Bool, true, false, Option,
  none, some, length, concat, get_or, ◌==◌, Bool-cases, Option-cases, inl, inr, Outcome, done,
}
use cc_rpc.HashMap.{chain_find, chain_at, hashmap_bucket, hashmap_get, hashmap_contains}
use cc_rpc.HashMap.Keys.{string_key, int_key}
use cc_rpc.HashMap.Map.{hashmap_contains-get}
use cc_rpc.Rpc.State.{Rpc}
use cc_rpc.Rpc.Seq.{IsSeq, member, next_seq_loop-Found}
use cc_rpc.Rpc.Call.{keys, pending_keys, rpc_next_seq}
use cc_rpc.Rpc.Invariant.{IsRpc}

member-append : (k : ℕ) (xs ys : List ℕ) → member k xs ≡ true → member k (xs ++ ys) ≡ true
member-append k [] ys h = cc
member-append k (x ∷ xs) ys h = ground (arith, member-append k xs ys)

member-behind : (k : ℕ) (xs ys : List ℕ) → member k ys ≡ true → member k (xs ++ ys) ≡ true
member-behind k [] ys h = h
member-behind k (x ∷ xs) ys h = rw (member-behind k xs ys h) (ground arith)

keys-append {ℓ} : {K V : Type ℓ} (a b : List (K × V)) → keys (a ++ b) ≡ keys a ++ keys b
keys-append [] b = refl
keys-append (e ∷ a) b = ap (λ r. e.0 ∷ r) (keys-append a b)

chain_find-member :
    (k : ℕ) (c : List (ℕ × ℕ)) (v : ℕ) → chain_find k c ≡ some v → member k (keys c) ≡ true
unfolding chain_find
chain_find-member k [] v h = cc
chain_find-member k ((j, w) ∷ c) v h = elim (Bool-cases (j == k)) [
  | inl e ↦ rw e refl
  | inr e ↦ rw e (chain_find-member k c v (rw e at h))
]

bucket-member :
    (k : ℕ) (bs : List (List (ℕ × ℕ))) (i : ℕ)
    → member k (keys (get_or bs i [])) ≡ true
    → member k (keys (concat bs)) ≡ true
bucket-member k [] i h = cc
bucket-member k (c ∷ bs) zero h =
    rw (keys-append c (concat bs)) (member-append k (keys c) (keys (concat bs)) h)
bucket-member k (c ∷ bs) (suc i) h =
    rw (keys-append c (concat bs))
      (member-behind k (keys c) (keys (concat bs)) (bucket-member k bs i h))

contains_none :
    (k : ℕ) (s : Rpc) → hashmap_contains s.pending k ≡ false → hashmap_get s.pending k ≡ none
contains_none k s h = elim (Option-cases (hashmap_get s.pending k)) [
  | inl e ↦ e
  | inr (v, e) ↦ absurd (clash _ _ (hashmap_contains-get s.pending k) e h)
]
  where
    clash :
        (b : Bool) (o : Option ℕ) {v : ℕ}
        → b ≡ elim o [ none ↦ false | some _ ↦ true ]
        → o ≡ some v
        → b ≡ false
        → ⊥
    clash b o e f g = cc

contains_some :
    (k : ℕ) (s : Rpc)
    → hashmap_contains s.pending k ≡ true
    → (v : ℕ) × (hashmap_get s.pending k ≡ some v)
contains_some k s h = elim (Option-cases (hashmap_get s.pending k)) [
  | inr found ↦ found
  | inl e ↦ absurd (clash _ _ (hashmap_contains-get s.pending k) e h)
]
  where
    clash :
        (b : Bool) (o : Option ℕ)
        → b ≡ elim o [ none ↦ false | some _ ↦ true ]
        → o ≡ none
        → b ≡ true
        → ⊥
    clash b o e f g = cc

contains-member :
    (k : ℕ) (s : Rpc) → hashmap_contains s.pending k ≡ true → member k (pending_keys s) ≡ true
unfolding hashmap_get
contains-member k s h =
    let (v, e) = contains_some k s h in
    bucket-member k s.pending.buckets (hashmap_bucket s.pending k)
      (chain_find-member k (chain_at s.pending k) v e)

-- As long as fewer calls are pending than there are numbers, `rpc_next_seq` returns a number that
-- is not 0 and not pending.
pub record IsNext (s : Rpc) (run : Outcome (ℕ × Rpc)) : Type 0 where
  pub seq : ℕ
  pub next : ℕ
  pub runs : run ≡ done (seq, record s { next_seq = next })
  pub seq_range : IsSeq seq
  pub next_range : IsSeq next
  pub free : hashmap_get s.pending seq ≡ none

-- In a valid state with fewer than 2^32 - 1 pending calls, rpc_next_seq ends, with a number from 1
-- to 2^32 - 1 that is not pending; the next number to try is in that range too, and nothing else
-- changes.
pub rpc_next_seq-IsNext :
    (s : Rpc) → IsRpc s → length (pending_keys s) < 2 ^ 32 - 1 → IsNext s (rpc_next_seq s)
unfolding rpc_next_seq
rpc_next_seq-IsNext s v few =
    let f =
      next_seq_loop-Found s.next_seq (λ k. hashmap_contains s.pending k) (pending_keys s) v.next_seq
        (λ k h. contains-member k s h) few in
    record {
      seq = f.seq;
      next = f.next;
      runs = rw (rpc_next_seq, f.runs) refl;
      seq_range = f.seq_range;
      next_range = f.next_range;
      free = contains_none f.seq s f.free;
    }
