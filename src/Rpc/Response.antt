-- ===== src/Rpc/Response.antt =====
-- `rpc_handle_response` and `rpc_waiter_wake`: the answer to a call that is pending.
pub mod Answer
pub mod Laws
use cc_rpc.Base.{
  ℕ, ◌+◌, List, [], ◌∷◌, ◌++◌, Bool, true, false, not, ◌||◌, Option, none, some, length, take, drop,
  ltb, ◌==◌, if◌then◌else◌, Outcome, done, refuse, fault, ◌>>=◌, overwrite, copy_out,
}
use cc_rpc.HashMap.{hashmap_get}
use cc_rpc.HashMap.Keys.{int_key}
use cc_rpc.Wire.{Header, header_size, load_header}
use cc_rpc.Rpc.State.{Rpc, PendingCall, update}

-- `w->signaled = 1`
unfoldable pub rpc_waiter_wake : PendingCall → PendingCall
rpc_waiter_wake pc = record pc { signaled = true }

-- The caller's buffer after the copy of n bytes from the payload. The copy runs over the buffer's end
-- if it is shorter than the size that the caller gave, and past the message if that has fewer bytes.
unfoldable pub copy_payload : PendingCall → ℕ → List ℕ → Outcome (Option (List ℕ))
copy_payload pc n payload = elim pc.buf [
  | none ↦ done none
  | some buf ↦ copy_out n payload >>= λ bytes. overwrite buf bytes >>= λ buf'. done (some buf')
]

-- `payload` is what the memory of the message has behind the header.
unfoldable pub answer : PendingCall → ℕ → ℕ → List ℕ → Outcome PendingCall
unfolding copy_payload rpc_waiter_wake
answer pc status msg_len payload =
    let copy_len = if ltb pc.buf_size msg_len then pc.buf_size else msg_len in
    copy_payload pc copy_len payload >>= λ buf. done (
      rpc_waiter_wake
        (record pc { buf = buf; resp_len = copy_len; status = status; is_done = true }))

-- `fault` where the table of pending calls leads to memory that is freed.
unfoldable pub answer_call : Header → List ℕ → Rpc → Option ℕ → Outcome Rpc
unfolding answer
answer_call hdr payload s none = done s
answer_call hdr payload s (some addr) = elim (s.calls addr) [
  | none ↦ fault
  | some pc ↦ answer pc hdr.status hdr.msg_len payload >>= λ pc'.
      done (record s { calls = update s.calls addr (some pc') })
]

unfoldable pub rpc_handle_response : List ℕ → Rpc → Outcome Rpc
unfolding load_header answer_call
rpc_handle_response msg s =
    if ltb (length msg) header_size
    then done s
    else load_header msg >>= λ hdr.
        if ltb (length msg) (header_size + hdr.msg_len)
        then done s
        else answer_call hdr (drop header_size msg) s (hashmap_get s.pending hdr.seq)
