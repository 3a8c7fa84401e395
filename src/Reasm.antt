-- ===== src/Reasm.antt =====
-- The reassembly buffer of ccrpc/source/rpc.c: `struct rpc_reasm` with `rpc_reasm_append`,
-- `rpc_reasm_peek_header`, `rpc_reasm_consume`, and the loop of `rpc_on_data` over it. The list from
-- `head.next` on is the list of the contents of its `struct rpc_buf`s. `r` is never null there.
pub mod Buffer
pub mod Frames
pub mod Loop
use cc_rpc.Base.{
  ℕ, zero, suc, ◌+◌, ◌-◌, List, [], ◌∷◌, ◌++◌, Bool, true, false, Option, none, some, length, take,
  drop, ltb, ◌==◌, if◌then◌else◌,
}
use cc_rpc.Wire.{Header, header_size, read_header}

pub record Reasm : Type 0 where
  pub bufs : List (List ℕ)
  pub total_len : ℕ

abbrev pub empty_reasm : Reasm
empty_reasm = record { bufs = []; total_len = 0 }

-- `granted`: `heap_malloc` has memory.
unfoldable pub rpc_buf_alloc : Bool → List ℕ → Option (List ℕ)
rpc_buf_alloc true content = some content
rpc_buf_alloc false content = none

unfoldable pub rpc_reasm_append : Bool → Reasm → List ℕ → Reasm
unfolding rpc_buf_alloc
rpc_reasm_append granted r content =
    if length content == 0 then r else elim (rpc_buf_alloc granted content) [
      | none ↦ r
      | some b ↦ record { bufs = r.bufs ++ (b ∷ []); total_len = r.total_len + length content }
    ]

-- `copied` are the bytes already in `*hdr`.
unfoldable pub peek_loop : List (List ℕ) → List ℕ → List ℕ
peek_loop [] copied = copied
peek_loop (b ∷ bs) copied =
    let remain_size = header_size - length copied in
    let size = if ltb (length b) remain_size then length b else remain_size in
    let rest = peek_loop bs (copied ++ take size b) in
    if ltb (length copied) header_size then rest else copied

-- The bytes of the header, or none for -1.
unfoldable pub rpc_reasm_peek_header : Reasm → Option (List ℕ)
unfolding peek_loop
rpc_reasm_peek_header r =
    if ltb r.total_len header_size
    then none
    else let hdr = peek_loop r.bufs [] in if length hdr == header_size then some hdr else none

-- The buffers that are left and the bytes copied to `out`.
pub record Consumed : Type 0 where
  pub left : List (List ℕ)
  pub out : List ℕ

unfoldable pub consume_loop : ℕ → List (List ℕ) → List ℕ → Consumed
consume_loop len [] copied = record { left = []; out = copied }
consume_loop len (b ∷ bs) copied =
    let remain = len - length copied in
    let size = if ltb (length b) remain then length b else remain in
    let next = consume_loop len bs (copied ++ take size b) in
    if ltb (length copied) len
    then if size == length b
      then next
      else record { left = drop size b ∷ bs; out = copied ++ take size b }
    else record { left = b ∷ bs; out = copied }

-- The bytes that go to `out`, where it is not null, and the buffer after the call.
unfoldable pub rpc_reasm_consume : Reasm → ℕ → List ℕ × Reasm
unfolding consume_loop
rpc_reasm_consume r len =
    if len == 0
    then ([], r)
    else let c = consume_loop len r.bufs [] in
      (c.out, record { bufs = c.left; total_len = r.total_len - length c.out })

-- The loop of `rpc_on_data`. `malloc` is `heap_malloc` for the message, on the state of the rest of
-- the program, and `dispatch` is `rpc_dispatch_message`. `none` means that the fuel ran out.
module _ {ℓ} {S : Type ℓ} (malloc : ℕ → S → Bool × S) (dispatch : List ℕ → S → S) where
  unfoldable pub on_data_loop : ℕ → Reasm → S → Option (Reasm × S)
  on_data_loop zero r s = none
  on_data_loop (suc fuel) r s =
      if ltb r.total_len header_size then some (r, s) else elim (rpc_reasm_peek_header r) [
        | none ↦ some (r, s)
        | some hdr ↦
            let need = header_size + (read_header hdr).msg_len in
            let (granted, s₁) = malloc need s in
            let (msg_buf, r₁) = rpc_reasm_consume r need in
            let dispatched = on_data_loop fuel r₁ (dispatch msg_buf s₁) in
            let dropped = on_data_loop fuel r₁ s₁ in
            if ltb r.total_len need then some (r, s) else (if granted then dispatched else dropped)
      ]
