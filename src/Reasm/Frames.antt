-- ===== src/Reasm/Frames.antt =====
-- The messages in a stream of bytes: the specification of the loop of `rpc_on_data`.
use cc_rpc.Base.{
  ℕ, zero, suc, ◌+◌, ◌≤◌, ◌≡◌, refl, sym, ap, ◌∙◌, arith, List, [], ◌∷◌, ◌++◌, Bool, true, false,
  length, take, drop, concat, ltb, if◌then◌else◌, Bool-cases, inl, inr, length-append, length-drop,
  take-append_le, drop-append_le, append-nil, take-append, drop-append, All,
}
use cc_rpc.Wire.{Header, header_size, read_header, header_bytes}
use cc_rpc.Wire.Layout.{IsHeader, read_header-header_bytes, length-header_bytes}

-- The size of the first message, which the first twelve bytes say.
abbrev pub frame_size : List ℕ → ℕ
frame_size st = header_size + (read_header (take header_size st)).msg_len

-- Whether the first message has arrived whole.
abbrev pub has_frame : List ℕ → Bool
has_frame st =
    if ltb (length st) header_size
    then false
    else (if ltb (length st) (frame_size st) then false else true)

pub record Frames : Type 0 where
  pub messages : List (List ℕ)
  pub rest : List ℕ

abbrev pub no_frame : List ℕ → Frames
no_frame st = record { messages = []; rest = st }

abbrev pub add_frames : List (List ℕ) → Frames → Frames
add_frames ms f = record { messages = ms ++ f.messages; rest = f.rest }

abbrev pub add_frame : List ℕ → Frames → Frames
add_frame m f = record { messages = m ∷ f.messages; rest = f.rest }

-- The whole messages of a stream and the bytes that are left, for at most `fuel` messages.
unfoldable pub frames_fuel : ℕ → List ℕ → Frames
frames_fuel zero st = no_frame st
frames_fuel (suc fuel) st =
    let next = frames_fuel fuel (drop (frame_size st) st) in
    if has_frame st then add_frame (take (frame_size st) st) next else no_frame st

unfoldable pub frames : List ℕ → Frames
unfolding frames_fuel
frames st = frames_fuel (length st) st

pub has_frame_lem :
    (st : List ℕ) → has_frame st ≡ true → (header_size ≤ length st) × (frame_size st ≤ length st)
has_frame_lem st h = ground arith

has_frame_intro :
    (st : List ℕ) → header_size ≤ length st → frame_size st ≤ length st → has_frame st ≡ true
has_frame_intro st h k = ground arith

pub frames_fuel_enough :
    (f g : ℕ) (st : List ℕ) → length st ≤ f → length st ≤ g → frames_fuel f st ≡ frames_fuel g st
unfolding frames_fuel
frames_fuel_enough zero zero st hf hg = refl
frames_fuel_enough zero (suc g) st hf hg = ground arith
frames_fuel_enough (suc f) zero st hf hg = ground arith
frames_fuel_enough (suc f) (suc g) st hf hg = elim (Bool-cases (has_frame st)) [
  | inl e ↦
      let (_, fits) = has_frame_lem st e in
      rw
        (
          e,
          frames_fuel_enough f g (drop (frame_size st) st)
              (omega (arith, length-drop (frame_size st) st))
              (omega (arith, length-drop (frame_size st) st)),
        )
        refl
  | inr e ↦ rw e refl
]

-- The two equations of `frames`.
pub frames_none : (st : List ℕ) → has_frame st ≡ false → frames st ≡ no_frame st
unfolding frames
frames_none [] h = refl
frames_none (b ∷ st) h = rw h refl

pub frames_next :
    (st : List ℕ)
    → has_frame st ≡ true
    → frames st ≡ add_frame (take (frame_size st) st) (frames (drop (frame_size st) st))
unfolding frames
frames_next [] h = absurd (omega (arith, has_frame_lem [] h))
frames_next (b ∷ st) h =
    let after = drop (frame_size (b ∷ st)) (b ∷ st) in
    rw h (
      ap (add_frame (take (frame_size (b ∷ st)) (b ∷ st))) (
        frames_fuel_enough (length st) (length after) after
          (omega (arith, length-drop (frame_size (b ∷ st)) (b ∷ st))) (omega arith)))

-- More bytes behind a stream that has a whole message do not change that message.
frame_size-append : (a b : List ℕ) → header_size ≤ length a → frame_size (a ++ b) ≡ frame_size a
frame_size-append a b h =
    ap (λ t. header_size + (read_header t).msg_len) (take-append_le header_size a b h)

frames-append_fuel :
    (n : ℕ) (a b : List ℕ)
    → length a ≤ n
    → frames (a ++ b) ≡ add_frames (frames a).messages (frames ((frames a).rest ++ b))
frames-append_fuel zero [] b h = rw (frames_none [] refl) refl
frames-append_fuel zero (x ∷ a) b h = absurd (omega arith)
frames-append_fuel (suc n) a b h = elim (Bool-cases (has_frame a)) [
  | inr e ↦ rw (frames_none a e) refl
  | inl e ↦
      let (long, fits) = has_frame_lem a e in
      let size = frame_size-append a b long in
      let more : has_frame (a ++ b) ≡ true =
        has_frame_intro (a ++ b) (omega (arith, length-append a b))
          (rw size (omega (arith, length-append a b))) in
      let after = drop (frame_size a) a in
      frames_next (a ++ b) more
      ∙ rw
          (
            size,
            take-append_le (frame_size a) a b fits,
            drop-append_le (frame_size a) a b fits,
            frames_next a e,
          )
          (ap (add_frame (take (frame_size a) a))
            (frames-append_fuel n after b (omega (arith, length-drop (frame_size a) a))))
]

-- The messages of a stream that comes in two parts are those of the first part, and those of what
-- it leaves with the second part behind it.
pub frames-append :
    (a b : List ℕ)
    → frames (a ++ b) ≡ add_frames (frames a).messages (frames ((frames a).rest ++ b))
frames-append a b = frames-append_fuel (length a) a b (omega arith)

-- A whole message: its header says its length.
abbrev pub IsMessage : List ℕ → Type 0
IsMessage m = (header_size ≤ length m) × (frame_size m ≡ length m)

pub header_bytes-IsMessage :
    (h : Header) (payload : List ℕ)
    → IsHeader h
    → h.msg_len ≡ length payload
    → IsMessage (header_bytes h ++ payload)
header_bytes-IsMessage h payload v e =
    let size = length-header_bytes h in
    let front : take header_size (header_bytes h ++ payload) ≡ header_bytes h ++ [] =
      rw (← size, take-append (header_bytes h) payload) (sym (append-nil (header_bytes h))) in
    (
      omega (arith, length-append (header_bytes h) payload),
      rw (front, read_header-header_bytes h [] v)
          (omega (arith, length-append (header_bytes h) payload)),
    )

-- A stream of whole messages is cut into just those.
pub frames-concat :
    (ms : List (List ℕ))
    → All IsMessage ms
    → frames (concat ms) ≡ record { messages = ms; rest = [] }
frames-concat [] h = frames_none [] refl
frames-concat (m ∷ ms) ((long, size), hs) =
    let tail = concat ms in
    let size' : frame_size (m ++ tail) ≡ length m = frame_size-append m tail long ∙ size in
    frames_next (m ++ tail) (
      has_frame_intro (m ++ tail) (omega (arith, length-append m tail))
        (omega (arith, length-append m tail)))
    ∙ rw (size', take-append m tail, drop-append m tail, frames-concat ms hs) refl

-- No whole message is left behind.
pub frames_quiet : (st : List ℕ) → (frames st).messages ≡ [] → frames st ≡ no_frame st
frames_quiet st h = elim (Bool-cases (has_frame st)) [
  | inr e ↦ frames_none st e
  | inl e ↦ absurd (cons-ne-nil _ _ (sym (ap (λ f. f.messages) (frames_next st e)) ∙ h))
]
  where
    cons-ne-nil : (m : List ℕ) (ms : List (List ℕ)) → m ∷ ms ≡ [] → ⊥
    cons-ne-nil m ms e = cc

frames-rest_fuel :
    (n : ℕ) (st : List ℕ) → length st ≤ n → frames (frames st).rest ≡ no_frame (frames st).rest
frames-rest_fuel zero [] h = rw (frames_none [] refl) (frames_none [] refl)
frames-rest_fuel zero (x ∷ st) h = absurd (omega arith)
frames-rest_fuel (suc n) st h = elim (Bool-cases (has_frame st)) [
  | inr e ↦ rw (frames_none st e) (frames_none st e)
  | inl e ↦ rw (frames_next st e) (
      frames-rest_fuel n (drop (frame_size st) st)
        (omega (arith, length-drop (frame_size st) st, has_frame_lem st e)))
]

pub frames-rest : (st : List ℕ) → frames (frames st).rest ≡ no_frame (frames st).rest
frames-rest st = frames-rest_fuel (length st) st (omega arith)
