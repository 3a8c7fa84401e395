-- ===== src/Rpc/Response/Laws.antt =====
-- What the client does with a response: the answer reaches the call that is pending, and no other.
use cc_rpc.Base.{
  Option, ◌≤◌, length-drop, ltb→le, ℕ, ◌+◌, ◌%◌, ◌^◌, ◌<◌, ◌≡◌, refl, ◌∙◌, arith, List, [], false,
  none, some, length, take, drop, ltb, Bool-cases, Option-cases, inl, inr, take-append, append-nil,
  Outcome, done, fault,
}
use cc_rpc.HashMap.{hashmap_get}
use cc_rpc.HashMap.Keys.{int_key}
use cc_rpc.Tlv.{IsU32}
use cc_rpc.Wire.{Header, header_size, read_header, load_header}
use cc_rpc.Wire.Layout.{read_header-header_bytes, length-header_bytes-append, drop-header_bytes}
use cc_rpc.Rpc.State.{Rpc}
use cc_rpc.Rpc.Send.{response_bytes}
use cc_rpc.Rpc.Response.{rpc_handle_response, answer_call}
use cc_rpc.Rpc.Invariant.{IsRpc}
use cc_rpc.Rpc.Response.Answer.{with_answer, answer_lem, with_answer-IsRpc}

-- What a run keeps: it returns, the state stays valid, and the lock and the pending numbers stay.
pub record Keeps (s : Rpc) (run : Outcome Rpc) : Type 0 where
  pub after : Rpc
  pub runs : run ≡ done after
  pub valid : IsRpc after
  pub lock : after.is_locked ≡ s.is_locked
  pub pending : after.pending ≡ s.pending
  pub methods : after.methods ≡ s.methods

pub Keeps-self : (s : Rpc) → IsRpc s → Keeps s (done s)
Keeps-self s v = record {
  after = s;
  runs = refl;
  valid = v;
  lock = refl;
  pending = refl;
  methods = refl;
}

answer_call-Keeps :
    (hdr : Header) (msg : List ℕ) (s : Rpc)
    → IsRpc s
    → ltb (length msg) (header_size + hdr.msg_len) ≡ false
    → (found : Option ℕ) → hashmap_get s.pending hdr.seq ≡ found
    → Keeps s (answer_call hdr (drop header_size msg) s found)
unfolding answer_call
answer_call-Keeps hdr msg s v whole none e = Keeps-self s v
answer_call-Keeps hdr msg s v whole (some addr) e =
    let live = v.live hdr.seq addr e in
    let payload = take hdr.msg_len (drop header_size msg) in
    let there : hdr.msg_len ≤ length (drop header_size msg) =
      omega (arith, ltb→le _ _ whole, length-drop header_size msg) in
    record {
      after = with_answer addr live.call hdr.status payload s;
      runs =
          rw
            (
              live.allocated,
              answer_call,
              answer_lem live.call hdr.status hdr.msg_len (drop header_size msg) live.roomy there,
            )
            refl;
      valid = with_answer-IsRpc addr hdr.status live.call payload s v live.allocated live.roomy;
      lock = refl;
      pending = refl;
      methods = refl;
    }

-- Whatever bytes arrive as a response, no memory is accessed that is not allocated, a copy stays
-- inside the caller's buffer, and the state stays valid.
pub rpc_handle_response-Keeps :
    (msg : List ℕ) (s : Rpc) → IsRpc s → Keeps s (rpc_handle_response msg s)
unfolding rpc_handle_response load_header answer_call
rpc_handle_response-Keeps msg s v =
    let hdr = read_header msg in
    elim (Bool-cases (ltb (length msg) header_size)) [
      | inl short ↦ rw short (Keeps-self s v)
      | inr long ↦ elim (Bool-cases (ltb (length msg) (header_size + hdr.msg_len))) [
        | inl short ↦ rw (long, short) (Keeps-self s v)
        | inr whole ↦
            rw (long, whole)
              (answer_call-Keeps hdr msg s v whole (hashmap_get s.pending hdr.seq) refl)
      ]
    ]

-- A response that fits its fields.
pub record IsResponse (seq status : ℕ) (tlv : List ℕ) : Type 0 where
  pub seq_range : IsU32 seq
  pub status_range : status < 2 ^ 16
  pub fits : length tlv < 2 ^ 32

abbrev response_header : ℕ → ℕ → List ℕ → Header
response_header seq status tlv = record {
  status = status % 2 ^ 16;
  seq = seq;
  msg_len = length tlv % 2 ^ 32;
  method_len = 0;
}

pub read_header-response_bytes :
    (seq status : ℕ) (tlv : List ℕ)
    → IsResponse seq status tlv
    → read_header (response_bytes seq status tlv)
      ≡ record { status = status; seq = seq; msg_len = length tlv; method_len = 0 }
unfolding response_bytes
read_header-response_bytes seq status tlv r =
    read_header-header_bytes _ tlv (record {
      status = omega arith;
      seq = r.seq_range;
      msg_len = omega arith;
      method_len = omega arith;
    })
    ∙ λ i. record { status = code i; seq = seq; msg_len = whole i; method_len = 0 }
  where
    whole : length tlv % 2 ^ 32 ≡ length tlv
    whole = omega (arith, r.fits)

    code : status % 2 ^ 16 ≡ status
    code = omega (arith, r.status_range)

-- In a valid state, a well-formed response whose number is not pending leaves the state as it is,
-- and one whose number is pending answers the call at the address that the table has for it, with
-- the payload cut to the caller's buffer, and changes nothing else; it faults only if nothing is
-- allocated there.
pub rpc_handle_response_answers :
    (seq status : ℕ) (tlv : List ℕ) (s : Rpc)
    → IsRpc s
    → IsResponse seq status tlv
    → rpc_handle_response (response_bytes seq status tlv) s ≡ elim (hashmap_get s.pending seq) [
      | none ↦ done s
      | some addr ↦ elim (s.calls addr) [
        | none ↦ fault
        | some pc ↦ done (with_answer addr pc status tlv s)
      ]
    ]
unfolding rpc_handle_response load_header answer_call
rpc_handle_response_answers seq status tlv s v r =
    let msg = response_bytes seq status tlv in
    let hdr = read_header-response_bytes seq status tlv r in
    let size : length msg ≡ header_size + length tlv =
      unfold response_bytes in length-header_bytes-append (response_header seq status tlv) tlv in
    let payload : drop header_size msg ≡ tlv =
      unfold response_bytes in drop-header_bytes (response_header seq status tlv) tlv in
    let whole : take (length tlv) tlv ≡ tlv = rw (append-nil tlv) at (take-append tlv []) in
    let long : ltb (header_size + length tlv) header_size ≡ false = ground arith in
    let accepted : ltb (header_size + length tlv) (header_size + length tlv) ≡ false =
      ground arith in
    let fits : length tlv ≤ length tlv = omega arith in
    elim (Option-cases (hashmap_get s.pending seq)) [
      | inl e ↦ rw (size, long, hdr, accepted, e) refl
      | inr (addr, e) ↦
          let live = v.live seq addr e in
          rw
            (
              size,
              long,
              hdr,
              accepted,
              e,
              answer_call,
              live.allocated,
              payload,
              hdr,
              answer_lem live.call status (length tlv) tlv live.roomy fits,
              whole,
            )
            refl
    ]
