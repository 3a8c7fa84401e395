-- ===== src/Tests/Node.antt =====
-- A node that waits for the answer to call 5 and has one method and one transport.
use cc_rpc.Base.{
  take, length-take, subst, ℕ, zero, suc, ◌≡◌, refl, sym, ap, ◌∙◌, arith, List, [], ◌∷◌, Bool, true,
  false, none, some, ◌==◌, ==_iff, Bool-cases, inl, inr, bit_and, bit_and-le, get_or,
}
use cc_rpc.HashMap.{
  HashMap, HashKey, hashmap_get, hashmap_put, hashmap_bucket, chain_find, hashmap_init,
}
use cc_rpc.HashMap.Keys.{string_key, int_key, str_equal}
use cc_rpc.HashMap.Map.{IsMap}
use cc_rpc.Rpc.State.{Rpc, Transport, MethodEntry, PendingCall, status_ok, update}
use cc_rpc.Rpc.Request.Laws.{IsRequest}
use cc_rpc.Rpc.Request.Serve.{FitsBuffers, AllFit}
use cc_rpc.Rpc.Request.{parser_output, handler_output, encoder_output}
use cc_rpc.Rpc.Response.Laws.{IsResponse}
use cc_rpc.Rpc.Call.{Arguments}
use cc_rpc.Rpc.Registry.{rpc_transport_lookup}
use cc_rpc.Rpc.Invariant.{core, IsLive, IsRpc}

abbrev pub grant_all : ℕ → ℕ → Bool
grant_all _ _ = true

abbrev pub granted : (k n : ℕ) → grant_all k n ≡ true
granted k n = refl

abbrev pub name : List ℕ
name = 97 ∷ 100 ∷ 100 ∷ []

abbrev pub peer : Transport
peer = record { id = 7; send = some (λ _. true); has_recv = true }

abbrev pub method : MethodEntry
method = record {
  name = name;
  parse_param = some (λ tlv. (true, take 16 tlv));
  handler = some (λ param. (true, 1 ∷ take 16 param));
  encode_result = some (λ result. (true, take 16 result));
  free_param = true;
  free_result = false;
}

abbrev pub call : PendingCall
call = record {
  seq = 5;
  buf = some (9 ∷ 9 ∷ 9 ∷ []);
  buf_size = 2;
  resp_len = 0;
  status = status_ok;
  is_done = false;
  signaled = false;
}

abbrev pub node : Rpc
node = record {
  methods = record { buckets = ((name, method) ∷ []) ∷ []; bucket_count = 1 };
  pending = record { buckets = ((5, 0) ∷ []) ∷ []; bucket_count = 1 };
  transports = record { buckets = ((name, peer) ∷ []) ∷ []; bucket_count = 1 };
  next_seq = 5;
  calls = update (λ _. none) 0 (some call);
  next_call = 1;
  is_locked = false;
  ticks = 0;
  log = [];
}

pub one_bucket {ℓ} :
    {K V : Type ℓ} ⦃key : HashKey K⦄ (c : List (K × V)) (k : K)
    → hashmap_get (record { buckets = c ∷ []; bucket_count = 1 }) k ≡ chain_find k c
unfolding hashmap_get hashmap_bucket
one_bucket {K} {V} ⦃key⦄ c k =
    let only : bit_and (key.hash k) 0 ≡ 0 = omega (arith, bit_and-le (key.hash k) 0) in rw only refl

pub one_entry-IsMap {ℓ} :
    {K V : Type ℓ} ⦃key : HashKey K⦄ (e : K × V)
    → IsMap (record { buckets = (e ∷ []) ∷ []; bucket_count = 1 })
unfolding chain_find
one_entry-IsMap {K} {V} ⦃key⦄ e = record {
  some_bucket = omega arith;
  all_buckets = refl;
  unique = λ i. at_most_one i;
}
  where
    at_most_one : (i : ℕ) → cc_rpc.HashMap.Chain.HasUniqueKeys (get_or ((e ∷ []) ∷ []) i [])
    at_most_one zero = (refl, tt)
    at_most_one (suc i) = tt

pub node-IsLive :
    (seq addr : ℕ) → hashmap_get node.pending seq ≡ some addr → IsLive (core node) seq addr
unfolding chain_find
node-IsLive seq addr e = elim (Bool-cases (5 == seq)) [
  | inr f ↦ absurd (none-ne-some (sym (one_bucket ((5, 0) ∷ []) seq ∙ rw f refl) ∙ e))
  | inl f ↦
      let found : some 0 ≡ some addr = sym (one_bucket ((5, 0) ∷ []) seq ∙ rw f refl) ∙ e in
      record {
        call = call;
        allocated = ap node.calls (sym (some_inj found));
        numbered = (==_iff 5 seq).0 f;
        roomy = omega arith;
      }
]
  where
    none-ne-some : {a : ℕ} → none ≡ some a → ⊥
    none-ne-some e = cc

    some_inj : {a b : ℕ} → some a ≡ some b → a ≡ b
    some_inj e = cc

pub node-IsRpc : IsRpc node
node-IsRpc = record {
  methods = one_entry-IsMap (name, method);
  pending = one_entry-IsMap (5, 0);
  transports = one_entry-IsMap (name, peer);
  next_seq = (omega arith, omega arith);
  live = node-IsLive;
  fresh = λ addr h. let other : (0 == addr) ≡ false = ground arith in rw other refl;
}

pub node_bound : rpc_transport_lookup node name ≡ some peer
unfolding rpc_transport_lookup chain_find str_equal
node_bound = one_bucket ((name, peer) ∷ []) name

pub node_pending : hashmap_get node.pending 5 ≡ some 0
unfolding chain_find
node_pending = one_bucket ((5, 0) ∷ []) 5

pub fits : IsResponse 5 0 (1 ∷ 2 ∷ 3 ∷ [])
fits = record { seq_range = omega arith; status_range = omega arith; fits = omega arith }

pub request : IsRequest 3 name (4 ∷ [])
request = record {
  seq_range = omega arith;
  text = (omega arith, (omega arith, (omega arith, tt)));
  named = omega arith;
  short = omega arith;
  fits = omega arith;
}

abbrev pub args : Arguments
args = record { name = name; tlv = 8 ∷ []; out_tlv = some (0 ∷ 0 ∷ []); out_len = 2 }

pub method-FitsBuffers : (tlv : List ℕ) → FitsBuffers method tlv
unfolding parser_output handler_output encoder_output
method-FitsBuffers tlv = record {
  parsed = omega (arith, length-take 16 tlv);
  handled = λ _. omega (arith, length-take 16 (take 16 tlv));
  encoded = λ _ _. omega (arith, length-take 16 (1 ∷ take 16 (take 16 tlv)));
}

pub node-AllFit : AllFit node.methods
unfolding chain_find
node-AllFit q m e tlv = elim (Bool-cases (str_equal name q)) [
  | inl f ↦
      let found : some method ≡ some m = sym (one_bucket ((name, method) ∷ []) q ∙ rw f refl) ∙ e in
      subst (λ x. FitsBuffers x tlv) (cc found) (method-FitsBuffers tlv)
  | inr f ↦ absurd (none-ne-some m (sym (one_bucket ((name, method) ∷ []) q ∙ rw f refl) ∙ e))
]
  where
    none-ne-some : (x : MethodEntry) → none ≡ some x → ⊥
    none-ne-some x e = cc
