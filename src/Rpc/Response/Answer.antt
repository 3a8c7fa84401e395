-- ===== src/Rpc/Response/Answer.antt =====
-- `answer` of rpc_handle_response: the pending call after its response, and the state around it.
use cc_rpc.Base.{
  ℕ, zero, suc, [], ◌∷◌, copy_out-take, ◌≤◌, ◌≡◌, refl, sym, ap, ◌∙◌, subst, arith, List, ◌++◌,
  true, Option, none, some, length, take, drop, ltb, ◌==◌, ==_iff, if◌then◌else◌, Bool-cases,
  Option-cases, inl, inr, length-append, length-take, length-drop, done, overwrite_fits,
}
use cc_rpc.HashMap.{hashmap_get}
use cc_rpc.HashMap.Keys.{int_key}
use cc_rpc.Rpc.State.{Rpc, PendingCall, update}
use cc_rpc.Rpc.Response.{copy_payload, answer}
use cc_rpc.Rpc.Invariant.{core, HasRoom, IsLive, IsRpc}

-- A buffer with some bytes written over its front.
abbrev pub fill : Option (List ℕ) → List ℕ → Option (List ℕ)
fill none bytes = none
fill (some buf) bytes = some (bytes ++ drop (length bytes) buf)

-- How many bytes of an answer the caller gets.
abbrev pub answer_len : PendingCall → List ℕ → ℕ
answer_len pc payload = if ltb pc.buf_size (length payload) then pc.buf_size else length payload

-- A call that is answered: as much of the payload as there is room for, its length, the status.
abbrev pub answered : PendingCall → ℕ → List ℕ → PendingCall
answered pc status payload = record {
  seq = pc.seq;
  buf = fill pc.buf (take (answer_len pc payload) payload);
  buf_size = pc.buf_size;
  resp_len = answer_len pc payload;
  status = status;
  is_done = true;
  signaled = true;
}

answer_len-le :
    (pc : PendingCall) (payload : List ℕ)
    → length (take (answer_len pc payload) payload) ≤ pc.buf_size
answer_len-le pc payload = ground (arith, length-take (answer_len pc payload) payload)

take-take : (k n : ℕ) (xs : List ℕ) → k ≤ n → take k (take n xs) ≡ take k xs
take-take zero n xs h = refl
take-take (suc k) zero xs h = absurd (omega arith)
take-take (suc k) (suc n) [] h = refl
take-take (suc k) (suc n) (x ∷ xs) h = ap (λ ys. x ∷ ys) (take-take k n xs (omega arith))

copy_payload_lem :
    (pc : PendingCall) (n : ℕ) (payload : List ℕ)
    → HasRoom pc.buf pc.buf_size
    → n ≤ pc.buf_size
    → n ≤ length payload
    → copy_payload pc n payload ≡ done (fill pc.buf (take n payload))
unfolding copy_payload
copy_payload_lem pc n payload room short there = elim (Option-cases pc.buf) [
  | inl e ↦ rw (e, copy_payload) refl
  | inr (buf, e) ↦
      let fits : pc.buf_size ≤ length buf = subst (λ b. HasRoom b pc.buf_size) e room in
      rw
        (
          e,
          copy_payload,
          copy_out-take n payload there,
          overwrite_fits buf (take n payload) (omega (arith, length-take n payload)),
        )
        refl
]

-- A message whose payload is there: the copy takes the front of it.
pub answer_lem :
    (pc : PendingCall) (status msg_len : ℕ) (payload : List ℕ)
    → HasRoom pc.buf pc.buf_size
    → msg_len ≤ length payload
    → answer pc status msg_len payload ≡ done (answered pc status (take msg_len payload))
unfolding answer
answer_lem pc status msg_len payload room there =
    let n = if ltb pc.buf_size msg_len then pc.buf_size else msg_len in
    let le_size : n ≤ pc.buf_size = ground arith in
    let le_len : n ≤ msg_len = ground arith in
    let whole : length (take msg_len payload) ≡ msg_len =
      omega (arith, length-take msg_len payload) in
    rw
      (
        copy_payload_lem pc n payload room le_size (omega arith),
        whole,
        take-take n msg_len payload le_len,
      )
      refl

fill-HasRoom :
    (buf : Option (List ℕ)) (bytes : List ℕ) (size : ℕ)
    → HasRoom buf size
    → length bytes ≤ size
    → HasRoom (fill buf bytes) size
fill-HasRoom none bytes size room short = tt
fill-HasRoom (some buf) bytes size room short =
    omega (arith, length-append bytes (drop (length bytes) buf), length-drop (length bytes) buf)

-- The state in which the call at an address is answered.
abbrev pub with_answer : ℕ → PendingCall → ℕ → List ℕ → Rpc → Rpc
with_answer addr pc status payload s = record s {
  calls = update s.calls addr (some (answered pc status payload));
}

with_answer-IsLive :
    (addr status : ℕ) (pc : PendingCall) (payload : List ℕ) (s : Rpc)
    → IsRpc s
    → s.calls addr ≡ some pc
    → HasRoom pc.buf pc.buf_size
    → (seq p : ℕ) → hashmap_get s.pending seq ≡ some p
    → IsLive (core (with_answer addr pc status payload s)) seq p
with_answer-IsLive addr status pc payload s v here room seq p found =
    let old = v.live seq p found in
    elim (Bool-cases (addr == p)) [
      | inl e ↦
          let same : old.call ≡ pc =
            some_inj (sym old.allocated ∙ rw (sym ((==_iff addr p).0 e)) here) in
          record {
            call = answered pc status payload;
            allocated = rw e refl;
            numbered = sym (ap (λ c. c.seq) same) ∙ old.numbered;
            roomy = fill-HasRoom pc.buf _ pc.buf_size room (answer_len-le pc payload);
          }
      | inr e ↦ record {
        call = old.call;
        allocated = rw e old.allocated;
        numbered = old.numbered;
        roomy = old.roomy;
      }
    ]
  where
    some_inj : {a b : PendingCall} → some a ≡ some b → a ≡ b
    some_inj e = cc

pub with_answer-IsRpc :
    (addr status : ℕ) (pc : PendingCall) (payload : List ℕ) (s : Rpc)
    → IsRpc s
    → s.calls addr ≡ some pc
    → HasRoom pc.buf pc.buf_size
    → IsRpc (with_answer addr pc status payload s)
with_answer-IsRpc addr status pc payload s v here room = record {
  methods = v.methods;
  pending = v.pending;
  transports = v.transports;
  next_seq = v.next_seq;
  live = with_answer-IsLive addr status pc payload s v here room;
  fresh = λ p h. elim (Bool-cases (addr == p)) [
    | inl e ↦
        absurd (none-ne-some (sym (v.fresh p h)) (ap s.calls (sym ((==_iff addr p).0 e)) ∙ here))
    | inr e ↦ rw e (v.fresh p h)
  ];
}
  where
    none-ne-some : {b : Option PendingCall} {c : PendingCall} → none ≡ b → b ≡ some c → ⊥
    none-ne-some e f = cc
