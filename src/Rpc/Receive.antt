-- ===== src/Rpc/Receive.antt =====
-- `rpc_dispatch_message` and `rpc_on_data`: the receive path.
pub mod Laws
use cc_rpc.Base.{
  ℕ, suc, ◌+◌, List, [], ◌∷◌, ◌++◌, Bool, true, false, not, Option, none, some, length, ltb, ◌==◌,
  if◌then◌else◌, Outcome, done, refuse, fault, ◌>>=◌,
}
use cc_rpc.Wire.{Header, header_size, load_header}
use cc_rpc.Reasm.{Reasm, rpc_reasm_append, on_data_loop}
use cc_rpc.Rpc.State.{Rpc, Transport, malloc, rpc_port_lock, rpc_port_unlock}
use cc_rpc.Rpc.Request.{rpc_handle_request}
use cc_rpc.Rpc.Response.{rpc_handle_response}

unfoldable pub rpc_dispatch_message : (ℕ → ℕ → Bool) → Transport → List ℕ → Rpc → Outcome Rpc
unfolding load_header
rpc_dispatch_message grant t buf s =
    if ltb (length buf) header_size
    then done s
    else load_header buf >>= λ hdr.
        if hdr.method_len == 0 then rpc_handle_response buf s else rpc_handle_request grant t buf s

-- The state of the loop: a fault in one message is the end of the program.
abbrev pub loop_malloc : (ℕ → ℕ → Bool) → ℕ → Outcome Rpc → Bool × Outcome Rpc
loop_malloc grant n (done s) = ((malloc grant n s).0, done (malloc grant n s).1)
loop_malloc grant n refuse = (false, refuse)
loop_malloc grant n fault = (false, fault)

abbrev pub loop_dispatch : (ℕ → ℕ → Bool) → Transport → List ℕ → Outcome Rpc → Outcome Rpc
loop_dispatch grant t msg r = r >>= rpc_dispatch_message grant t msg

-- `sizeof(struct rpc_buf)` before its data
abbrev pub sizeof_rpc_buf : ℕ
sizeof_rpc_buf = 24

-- What arrives: the data of a call with `len > 0`, or, for `len == 0`, what `t->recv` gives: some
-- bytes, or none for a result that is not positive.
pub data Input : Type 0 where
  pushed : List ℕ → Input
  polled : Option (List ℕ) → Input

abbrev append_input : (ℕ → ℕ → Bool) → List ℕ → Reasm → Rpc → Reasm × Rpc
append_input grant content r s =
    let (granted, s₁) = malloc grant (sizeof_rpc_buf + length content) s in
    (rpc_reasm_append granted r content, s₁)

-- The loop of `rpc_on_data`, and `rpc_port_unlock` after it. A round takes a byte at least from
-- the buffer, so one round more than it has bytes is enough.
unfoldable pub drain : (ℕ → ℕ → Bool) → Transport → Reasm → Rpc → Option (Reasm × Outcome Rpc)
drain grant t r s =
    elim (on_data_loop (loop_malloc grant) (loop_dispatch grant t) (suc r.total_len) r (done s)) [
      | none ↦ none
      | some (r', s') ↦ some (r', s' >>= λ u. done (rpc_port_unlock u))
    ]

-- `none` means that the fuel ran out.
unfoldable pub rpc_on_data :
    (ℕ → ℕ → Bool) → Transport → Input → Reasm → Rpc → Option (Reasm × Outcome Rpc)
rpc_on_data grant t input r s =
    if not t.has_recv then some (r, done s) else elim (rpc_port_lock s) [
      | refuse ↦ some (r, refuse)
      | fault ↦ some (r, fault)
      | done s₁ ↦ elim input [
        | polled none ↦ some (r, done s₁)
        | polled (some content) ↦
            let (r₂, s₂) = append_input grant content r s₁ in drain grant t r₂ s₂
        | pushed content ↦ let (r₂, s₂) = append_input grant content r s₁ in drain grant t r₂ s₂
      ]
    ]
