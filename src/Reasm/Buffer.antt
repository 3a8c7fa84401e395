-- ===== src/Reasm/Buffer.antt =====
-- The list of buffers is one stream of bytes: what each operation does to it.
use cc_rpc.Base.{
  ℕ, zero, suc, ◌-◌, ◌≤◌, ◌<◌, ◌≡◌, refl, sym, ap, ◌∙◌, arith, List, [], ◌∷◌, ◌++◌, true, false,
  none, some, length, take, drop, concat, ltb, ◌==◌, if◌then◌else◌, Bool-cases, inl, inr,
  length-append, length-take, length-drop, append-nil, append_assoc, concat-append,
}
use cc_rpc.Wire.{header_size}
use cc_rpc.Reasm.{
  Reasm, rpc_reasm_append, peek_loop, rpc_reasm_peek_header, consume_loop, rpc_reasm_consume,
}

-- The bytes that have arrived and are not consumed.
abbrev pub stream : Reasm → List ℕ
stream r = concat r.bufs

abbrev pub IsCounted : Reasm → Type 0
IsCounted r = r.total_len ≡ length (stream r)

nonzero : (n : ℕ) → (suc n == 0) ≡ false
nonzero n = ground arith

-- Data that gets memory goes to the end of the stream, and stays counted.
pub rpc_reasm_append_lem :
    (r : Reasm) (content : List ℕ)
    → IsCounted r
    → (stream (rpc_reasm_append true r content) ≡ stream r ++ content)
      × IsCounted (rpc_reasm_append true r content)
unfolding rpc_reasm_append
rpc_reasm_append_lem r [] h = (sym (append-nil (stream r)), h)
rpc_reasm_append_lem r (b ∷ bs) h =
    let whole = concat-append r.bufs ((b ∷ bs) ∷ []) in
    let joined : concat (r.bufs ++ ((b ∷ bs) ∷ [])) ≡ concat r.bufs ++ (b ∷ bs) =
      rw (append-nil (b ∷ bs)) at whole in
    rw (nonzero (length bs)) (joined, rw (joined, length-append) (rw h refl))

take-append_any :
    (n : ℕ) (xs ys : List ℕ) → take n (xs ++ ys) ≡ take n xs ++ take (n - length xs) ys
take-append_any zero xs ys = let e : 0 - length xs ≡ 0 = omega arith in rw e refl
take-append_any (suc n) [] ys = let e : suc n - 0 ≡ suc n = omega arith in rw e refl
take-append_any (suc n) (x ∷ xs) ys =
    let e : suc n - suc (length xs) ≡ n - length xs = omega arith in
    rw e (ap (λ t. x ∷ t) (take-append_any n xs ys))

drop-append_any :
    (n : ℕ) (xs ys : List ℕ) → drop n (xs ++ ys) ≡ drop n xs ++ drop (n - length xs) ys
drop-append_any zero xs ys = let e : 0 - length xs ≡ 0 = omega arith in rw e refl
drop-append_any (suc n) [] ys = let e : suc n - 0 ≡ suc n = omega arith in rw e refl
drop-append_any (suc n) (x ∷ xs) ys =
    let e : suc n - suc (length xs) ≡ n - length xs = omega arith in rw e (drop-append_any n xs ys)

drop-short : (n : ℕ) (xs : List ℕ) → length xs ≤ n → drop n xs ≡ []
drop-short zero [] h = refl
drop-short zero (x ∷ xs) h = absurd (omega arith)
drop-short (suc n) [] h = refl
drop-short (suc n) (x ∷ xs) h = drop-short n xs (omega arith)

take-short : (n : ℕ) (xs : List ℕ) → length xs ≤ n → take n xs ≡ xs
take-short zero [] h = refl
take-short zero (x ∷ xs) h = absurd (omega arith)
take-short (suc n) [] h = refl
take-short (suc n) (x ∷ xs) h = ap (λ t. x ∷ t) (take-short n xs (omega arith))

-- What the loops take of one buffer, `min(b->len, remain)` bytes.
abbrev piece_size : ℕ → List ℕ → ℕ
piece_size remain b = if ltb (length b) remain then length b else remain

take-piece_size : (n : ℕ) (b : List ℕ) → take (piece_size n b) b ≡ take n b
take-piece_size n b = elim (Bool-cases (ltb (length b) n)) [
  | inl e ↦ rw e (take-short (length b) b (omega arith) ∙ sym (take-short n b (ground arith)))
  | inr e ↦ rw e refl
]

-- The copied bytes after one buffer, and what is still wanted then.
module _ (len : ℕ) (b copied : List ℕ) (h : length copied ≤ len) where
  advance : List ℕ
  advance = copied ++ take (len - length copied) b

  advance_left : (length advance ≤ len) × (len - length advance ≡ len - length copied - length b)
  unfolding advance
  advance_left = let n = len - length copied in rw length-append (omega (arith, length-take n b))

  advance-take :
      (c : List ℕ)
      → advance ++ take (len - length advance) c ≡ copied ++ take (len - length copied) (b ++ c)
  unfolding advance
  advance-take c = rw (advance_left.1, take-append_any (len - length copied) b c, append_assoc) refl

peek_loop_lem :
    (bs : List (List ℕ)) (copied : List ℕ)
    → length copied ≤ header_size
    → peek_loop bs copied ≡ copied ++ take (header_size - length copied) (concat bs)
unfolding peek_loop advance
peek_loop_lem [] copied h =
    rw (take-short (header_size - length copied) [] (omega arith)) (sym (append-nil copied))
peek_loop_lem (b ∷ bs) copied h = elim (Bool-cases (ltb (length copied) header_size)) [
  | inl more ↦
      rw (more, take-piece_size (header_size - length copied) b)
        (peek_loop_lem bs (advance header_size b copied h) (advance_left header_size b copied h).0
          ∙ advance-take header_size b copied h (concat bs))
  | inr full ↦
      let e : header_size - length copied ≡ 0 = ground arith in
      rw (full, e) (sym (append-nil copied))
]

-- What is left of the stream.
advance-drop :
    (len : ℕ) (b copied c : List ℕ) (h : length copied ≤ len)
    → length b ≤ len - length copied
    → drop (len - length (advance len b copied h)) c ≡ drop (len - length copied) (b ++ c)
advance-drop len b copied c h fits =
    rw
      (
        (advance_left len b copied h).1,
        drop-append_any (len - length copied) b c,
        drop-short (len - length copied) b fits,
      )
      refl

consume_loop_lem :
    (len : ℕ) (bs : List (List ℕ)) (copied : List ℕ)
    → length copied ≤ len
    → ((consume_loop len bs copied).out ≡ copied ++ take (len - length copied) (concat bs))
      × (concat (consume_loop len bs copied).left ≡ drop (len - length copied) (concat bs))
unfolding consume_loop advance
consume_loop_lem len [] copied h =
    rw
      (
        take-short (len - length copied) [] (omega arith),
        drop-short (len - length copied) [] (omega arith),
      )
      (sym (append-nil copied), refl)
consume_loop_lem len (b ∷ bs) copied h =
    let n = len - length copied in
    elim (Bool-cases (ltb (length copied) len)) [
      | inr full ↦ let e : n ≡ 0 = ground arith in rw (full, e) (sym (append-nil copied), refl)
      | inl more ↦ elim (Bool-cases (piece_size n b == length b)) [
        | inl whole ↦
            let (out, left) =
              consume_loop_lem len bs (advance len b copied h) (advance_left len b copied h).0 in
            rw (more, whole, take-piece_size n b)
              (
                out ∙ advance-take len b copied h (concat bs),
                left ∙ advance-drop len b copied (concat bs) h (ground arith),
              )
        | inr part ↦
            let short : n < length b = ground arith in
            let size : piece_size n b ≡ n = ground arith in
            let none_left : n - length b ≡ 0 = omega arith in
            rw
              (
                more,
                part,
                size,
                take-append_any n b (concat bs),
                drop-append_any n b (concat bs),
                none_left,
              )
              (rw (append-nil (take n b)) refl, refl)
      ]
    ]

-- Peeking gives the first twelve bytes of the stream as soon as they have arrived.
pub rpc_reasm_peek_header_lem :
    (r : Reasm)
    → IsCounted r
    → rpc_reasm_peek_header r
      ≡ (if ltb (length (stream r)) header_size then none else some (take header_size (stream r)))
unfolding rpc_reasm_peek_header
rpc_reasm_peek_header_lem r h =
    let hdr : peek_loop r.bufs [] ≡ take header_size (stream r) =
      peek_loop_lem r.bufs [] (omega arith) in
    rw (h, hdr) (ground (arith, length-take header_size (stream r)))

-- Consuming splits the stream, across the buffers, and keeps the count.
pub rpc_reasm_consume_lem :
    (r : Reasm) (len : ℕ)
    → IsCounted r
    → ((rpc_reasm_consume r len).0 ≡ take len (stream r))
      × (stream (rpc_reasm_consume r len).1 ≡ drop len (stream r))
      × IsCounted (rpc_reasm_consume r len).1
unfolding rpc_reasm_consume
rpc_reasm_consume_lem r zero h = (refl, refl, h)
rpc_reasm_consume_lem r (suc len) h =
    let all : suc len - 0 ≡ suc len = omega arith in
    let (out, left) = consume_loop_lem (suc len) r.bufs [] (omega arith) in
    let out' : (consume_loop (suc len) r.bufs []).out ≡ take (suc len) (stream r) = rw all at out in
    let left' : concat (consume_loop (suc len) r.bufs []).left ≡ drop (suc len) (stream r) =
      rw all at left in
    rw (nonzero len) (
      out',
      left',
      rw (left', out', h)
          (omega (arith, length-take (suc len) (stream r), length-drop (suc len) (stream r))),
    )
