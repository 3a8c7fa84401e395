-- ===== src/Rpc/Invariant.antt =====
-- The invariant of the runtime: valid tables, and a live call behind every pending number.
use cc_rpc.Base.{
  ℕ, ◌≤◌, ◌≡◌, refl, List, Bool, Option, none, some, length, Bool-cases, Option-cases, inl, inr,
}
use cc_rpc.HashMap.{HashMap, hashmap_get}
use cc_rpc.HashMap.Keys.{string_key, int_key}
use cc_rpc.HashMap.Map.{IsMap}
use cc_rpc.Rpc.State.{Rpc, Transport, MethodEntry, PendingCall}
use cc_rpc.Rpc.Seq.{IsSeq}
use cc_rpc.Rpc.Send.{send_message}

-- The part of the state that the sends, the callbacks and the allocator leave alone.
pub record Core : Type 0 where
  pub methods : HashMap (List ℕ) MethodEntry
  pub pending : HashMap ℕ ℕ
  pub transports : HashMap (List ℕ) Transport
  pub next_seq : ℕ
  pub calls : ℕ → Option PendingCall
  pub next_call : ℕ
  pub is_locked : Bool

abbrev pub core : Rpc → Core
core s = record {
  methods = s.methods;
  pending = s.pending;
  transports = s.transports;
  next_seq = s.next_seq;
  calls = s.calls;
  next_call = s.next_call;
  is_locked = s.is_locked;
}

-- The caller's buffer is as long as the caller says.
abbrev pub HasRoom : Option (List ℕ) → ℕ → Type 0
HasRoom none size = Unit {0}
HasRoom (some buf) size = size ≤ length buf

-- The memory of a call that waits for the number `seq`.
pub record IsLive (c : Core) (seq addr : ℕ) : Type 0 where
  pub call : PendingCall
  pub allocated : c.calls addr ≡ some call
  pub numbered : call.seq ≡ seq
  pub roomy : HasRoom call.buf call.buf_size

pub record IsCore (c : Core) : Type 0 where
  pub methods : IsMap c.methods
  pub pending : IsMap c.pending
  pub transports : IsMap c.transports
  pub next_seq : IsSeq c.next_seq
  pub live : (seq addr : ℕ) → hashmap_get c.pending seq ≡ some addr → IsLive c seq addr
  pub fresh : (addr : ℕ) → c.next_call ≤ addr → c.calls addr ≡ none

abbrev pub IsRpc : Rpc → Type 0
IsRpc s = IsCore (core s)

pub send_message-core :
    (grant : ℕ → ℕ → Bool) (t : Transport) (msg : List ℕ) (s : Rpc)
    → core (send_message grant t msg s).1 ≡ core s
unfolding send_message
send_message-core grant t msg s = elim (Option-cases t.send) [
  | inl e ↦ rw (e, send_message) refl
  | inr (send, e) ↦ elim (Bool-cases (grant s.ticks (length msg))) [
    | inl g ↦ rw (e, send_message, g) refl
    | inr g ↦ rw (e, send_message, g) refl
  ]
]

pub unlocked-IsRpc : (s : Rpc) (b : Bool) → IsRpc s → IsRpc (record s { is_locked = b })
unlocked-IsRpc s b v = record {
  methods = v.methods;
  pending = v.pending;
  transports = v.transports;
  next_seq = v.next_seq;
  live = λ seq addr e.
      let l = v.live seq addr e in
      record { call = l.call; allocated = l.allocated; numbered = l.numbered; roomy = l.roomy };
  fresh = v.fresh;
}
