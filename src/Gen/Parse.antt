-- ===== src/Gen/Parse.antt =====
-- The parsers of rpc_gen.c on what the emit macros wrote, and on any bytes.
use cc_rpc.Base.{
  ℕ, ◌+◌, ◌-◌, ◌^◌, ◌≤◌, ◌<◌, ◌≡◌, refl, ap, arith, List, [], ◌∷◌, ◌++◌, length, drop, none, some,
  Bool, true, Outcome, done, refuse, fault, ◌>>=◌, length-append, ◌≢◌, append_assoc, drop-append,
  length-drop,
}
use cc_rpc.Tlv.{IsU32, c_string}
use cc_rpc.Tlv.Read.{
  IsWithin, tlv_read_bytes-IsWithin, tlv_read_string-IsWithin, tlv_read_u32-IsWithin,
  tlv_read_i32-IsWithin, tlv_read_bytes-field_bytes, tlv_read_string-field_bytes,
  tlv_read_u32-field_bytes, tlv_read_i32-field_bytes,
}
use cc_rpc.Gen.{
  FieldType, FieldValue, string, u32, i32, bytes, string_value, u32_value, i32_value, bytes_value,
  type_of, parse_field, parse_fields,
}
use cc_rpc.Gen.Emit.{text_of, wire, wires, AreTerminated}

abbrev pub types_of : List FieldValue → List FieldType
types_of [] = []
types_of (v ∷ vs) = type_of v ∷ types_of vs

-- What the receiver has for a value that was sent: its own copy of a string, terminated.
abbrev pub received : FieldValue → FieldValue
received (string_value none) = string_value none
received (string_value (some s)) = string_value (some (text_of s ++ (0 ∷ [])))
received (u32_value v) = u32_value v
received (i32_value v) = i32_value v
received (bytes_value c) = bytes_value c

abbrev pub all_received : List FieldValue → List FieldValue
all_received [] = []
all_received (v ∷ vs) = received v ∷ all_received vs

-- Strings are there and terminated, lengths fit the two length bytes, and numbers fit 32 bits.
abbrev pub IsSendable : FieldValue → Type 0
IsSendable (string_value none) = ⊥
IsSendable (string_value (some s)) = (c_string s ≡ done (text_of s)) × (length (text_of s) < 2 ^ 16)
IsSendable (u32_value v) = IsU32 v
IsSendable (i32_value v) = IsU32 v
IsSendable (bytes_value c) = length c < 2 ^ 16

abbrev pub AreSendable : List FieldValue → Type 0
AreSendable [] = Unit {0}
AreSendable (v ∷ vs) = IsSendable v × AreSendable vs

pub AreSendable-AreTerminated : (vs : List FieldValue) → AreSendable vs → AreTerminated vs
AreSendable-AreTerminated [] h = tt
AreSendable-AreTerminated (string_value none ∷ vs) (h, hs) = absurd h
AreSendable-AreTerminated (string_value (some s) ∷ vs) (h, hs) =
    ((text_of s, h.0), AreSendable-AreTerminated vs hs)
AreSendable-AreTerminated (u32_value v ∷ vs) (h, hs) = (tt, AreSendable-AreTerminated vs hs)
AreSendable-AreTerminated (i32_value v ∷ vs) (h, hs) = (tt, AreSendable-AreTerminated vs hs)
AreSendable-AreTerminated (bytes_value c ∷ vs) (h, hs) = (tt, AreSendable-AreTerminated vs hs)

parse_field-wire :
    (grant : ℕ → Bool) (granted : (n : ℕ) → grant n ≡ true) (v : FieldValue) (rest : List ℕ)
    (remain : ℕ)
    → IsSendable v
    → length (wire v) ≤ remain
    → parse_field grant (type_of v) (wire v ++ rest) remain ≡ done (received v, length (wire v))
unfolding parse_field
parse_field-wire grant granted (string_value none) rest remain h room = absurd h
parse_field-wire grant granted (string_value (some s)) rest remain (e, small) room =
    rw (tlv_read_string-field_bytes grant (text_of s) rest remain small (omega arith) (granted _))
      (ground arith)
parse_field-wire grant granted (u32_value v) rest remain h room =
    ap (λ r. r >>= λ q. done (u32_value q.0, q.1)) (tlv_read_u32-field_bytes v rest remain h room)
parse_field-wire grant granted (i32_value v) rest remain h room =
    ap (λ r. r >>= λ q. done (i32_value q.0, q.1)) (tlv_read_i32-field_bytes v rest remain h room)
parse_field-wire grant granted (bytes_value c) rest remain h room =
    rw (tlv_read_bytes-field_bytes grant c rest remain h (omega arith) (granted _)) (ground arith)

keep {ℓ κ} :
    {A : Type ℓ} {B : Type κ} (r : Outcome (A × ℕ)) (f : A → B) (n : ℕ)
    → IsWithin n r
    → IsWithin n (r >>= λ q. done (f q.0, q.1))
keep (done q) f n h = h
keep refuse f n h = tt
keep fault f n h = absurd h

>>=-ne-fault {ℓ κ} :
    {A : Type ℓ} {B : Type κ} (n : ℕ) (r : Outcome (A × ℕ)) (k : A × ℕ → Outcome B)
    → IsWithin n r
    → ((q : A × ℕ) → q.1 ≤ n → k q ≢ fault)
    → (r >>= k) ≢ fault
>>=-ne-fault n (done q) k h safe = safe q h.1
>>=-ne-fault n refuse k h safe = λ e. cc
>>=-ne-fault n fault k h safe = absurd h

unput :
    (v : FieldValue) (r : Outcome (List FieldValue))
    → (r >>= λ vs. done (v ∷ vs)) ≡ fault
    → r ≡ fault
unput v (done vs) e = cc
unput v refuse e = cc
unput v fault e = refl

module _ (grant : ℕ → ℕ → Bool) (granted : (i n : ℕ) → grant i n ≡ true) where
  -- If memory is granted and the fields can be sent (no null string, lengths below 2^16, numbers
  -- below 2^32), the parser for their types reads every field back from their wire form, in order,
  -- whatever bytes follow.
  pub parse_fields-wires :
      (i : ℕ) (vs : List FieldValue) (rest : List ℕ) (remain : ℕ)
      → AreSendable vs
      → length (wires vs) ≤ remain
      → parse_fields grant i (types_of vs) (wires vs ++ rest) remain ≡ done (all_received vs)
  unfolding parse_fields
  parse_fields-wires i [] rest remain h room = refl
  parse_fields-wires i (v ∷ vs) rest remain (h, hs) room =
      let size = length-append (wire v) (wires vs) in
      rw
        (
          append_assoc (wire v) (wires vs) rest,
          parse_field-wire (grant i) (granted i) v (wires vs ++ rest) remain h (omega arith),
          drop-append (wire v) (wires vs ++ rest),
          parse_fields-wires (i + 1) vs rest (remain - length (wire v)) hs (omega arith),
        )
        refl

  parse_field-IsWithin :
      (i : ℕ) (t : FieldType) (p : List ℕ) (remain : ℕ)
      → remain ≤ length p
      → IsWithin remain (parse_field (grant i) t p remain)
  unfolding parse_field
  parse_field-IsWithin i string p remain h =
      keep _ (λ s. string_value (some s)) remain
        (tlv_read_string-IsWithin (grant i) (granted i) p remain h)
  parse_field-IsWithin i u32 p remain h =
      keep _ u32_value remain (tlv_read_u32-IsWithin (grant i) (granted i) p remain h)
  parse_field-IsWithin i i32 p remain h =
      keep _ i32_value remain (tlv_read_i32-IsWithin (grant i) (granted i) p remain h)
  parse_field-IsWithin i bytes p remain h =
      keep _ bytes_value remain (tlv_read_bytes-IsWithin (grant i) (granted i) p remain h)

  -- If memory is granted, a parser of any list of field types on any bytes never reads outside the
  -- length it was given.
  pub parse_fields-ne-fault :
      (i : ℕ) (ts : List FieldType) (p : List ℕ) (remain : ℕ)
      → remain ≤ length p
      → parse_fields grant i ts p remain ≢ fault
  unfolding parse_fields
  parse_fields-ne-fault i [] p remain h = λ e. cc
  parse_fields-ne-fault i (t ∷ ts) p remain h =
      >>=-ne-fault remain (parse_field (grant i) t p remain)
        (λ r. parse_fields grant (i + 1) ts (drop r.1 p) (remain - r.1) >>= λ vs. done (r.0 ∷ vs))
        (parse_field-IsWithin i t p remain h)
        (λ r within e.
          parse_fields-ne-fault (i + 1) ts (drop r.1 p) (remain - r.1)
            (omega (arith, length-drop r.1 p)) (unput _ _ e))
