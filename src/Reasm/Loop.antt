-- ===== src/Reasm/Loop.antt =====
-- The loop of `rpc_on_data` delivers the messages of the stream, however it was cut into chunks.
use cc_rpc.Base.{
  if-ap, ℕ, zero, suc, ◌<◌, ◌≡◌, refl, sym, ap, ◌∙◌, arith, List, [], ◌∷◌, ◌++◌, Bool, true, Option,
  none, some, length, take, drop, concat, ltb, if◌then◌else◌, Bool-cases, inl, inr, length-take,
  length-drop, append-nil, append_assoc, All,
}
use cc_rpc.Wire.{header_size}
use cc_rpc.Reasm.{
  Reasm, empty_reasm, rpc_reasm_append, rpc_reasm_peek_header, rpc_reasm_consume, on_data_loop,
}
use cc_rpc.Reasm.Buffer.{
  stream, IsCounted, rpc_reasm_append_lem, rpc_reasm_peek_header_lem, rpc_reasm_consume_lem,
}
use cc_rpc.Reasm.Frames.{
  frames_quiet, frames-rest, Frames, frame_size, has_frame, has_frame_lem, frames, frames_none,
  frames_next, frames-append, IsMessage, frames-concat,
}

module _ {ℓ} {S : Type ℓ} (malloc : ℕ → S → Bool × S) (dispatch : List ℕ → S → S) where
  -- Each message is dispatched if memory for it is granted, and is lost if not.
  unfoldable pub deliver : List (List ℕ) → S → S
  deliver [] s = s
  deliver (m ∷ ms) s = deliver ms (
      if (malloc (length m) s).0
      then dispatch m (malloc (length m) s).1
      else (malloc (length m) s).1)

  pub deliver-append : (a b : List (List ℕ)) (s : S) → deliver (a ++ b) s ≡ deliver b (deliver a s)
  unfolding deliver
  deliver-append [] b s = refl
  deliver-append (m ∷ a) b s = deliver-append a b _

  -- What a run of the loop does: it ends, and the buffer keeps the bytes of no whole message.
  pub record Delivers (st : List ℕ) (s : S) (run : Option (Reasm × S)) : Type ℓ where
    pub reasm : Reasm
    pub runs : run ≡ some (reasm, deliver (frames st).messages s)
    pub rest : stream reasm ≡ (frames st).rest
    pub counted : IsCounted reasm

  -- The state after the message of size `n` at the front: it is dispatched or lost.
  abbrev after_message : ℕ → List ℕ → S → S
  after_message n m s = if (malloc n s).0 then dispatch m (malloc n s).1 else (malloc n s).1

  on_data_loop_step :
      (fuel : ℕ) (r : Reasm) (s : S)
      → IsCounted r
      → on_data_loop malloc dispatch (suc fuel) r s ≡ (
          if has_frame (stream r)
          then on_data_loop malloc dispatch fuel (rpc_reasm_consume r (frame_size (stream r))).1 (
              after_message
                (frame_size (stream r))
                (rpc_reasm_consume r (frame_size (stream r))).0
                s)
          else some (r, s))
  unfolding on_data_loop
  on_data_loop_step fuel r s h =
      let st = stream r in
      elim (Bool-cases (ltb (length st) header_size)) [
        | inl short ↦ rw (ap (λ n. ltb n header_size) h ∙ short, short) refl
        | inr long ↦
            let peeked : rpc_reasm_peek_header r ≡ some (take header_size st) =
              rpc_reasm_peek_header_lem r h ∙ rw long refl in
            elim (Bool-cases (ltb (length st) (frame_size st))) [
              | inl part ↦
                  rw
                    (
                      ap (λ n. ltb n header_size) h ∙ long,
                      peeked,
                      ap (λ n. ltb n (frame_size st)) h ∙ part,
                      long,
                      part,
                    )
                    refl
              | inr whole ↦
                  rw
                    (
                      ap (λ n. ltb n header_size) h ∙ long,
                      peeked,
                      ap (λ n. ltb n (frame_size st)) h ∙ whole,
                      long,
                      whole,
                    )
                    (if-ap
                      (on_data_loop malloc dispatch fuel (rpc_reasm_consume r (frame_size st)).1)
                      (malloc (frame_size st) s).0 _ _)
            ]
      ]

  deliver_next :
      (st left out : List ℕ) (s : S)
      → has_frame st ≡ true
      → left ≡ drop (frame_size st) st
      → out ≡ take (frame_size st) st
      → (deliver (frames left).messages (after_message (frame_size st) out s)
          ≡ deliver (frames st).messages s)
        × ((frames left).rest ≡ (frames st).rest)
  unfolding deliver
  deliver_next st left out s e hl ho =
      let (_, fits) = has_frame_lem st e in
      let whole : length (take (frame_size st) st) ≡ frame_size st =
        omega (arith, length-take (frame_size st) st) in
      let front = take (frame_size st) st in
      let after = (frames (drop (frame_size st) st)).messages in
      rw (frames_next st e, hl, ho)
        (ap (λ n. deliver after (after_message n front s)) (sym whole), refl)

  -- On a buffer with a right count, the loop of rpc_on_data ends if it has one round more than the
  -- buffer has bytes; it dispatches the messages that the specification cuts out of the buffer, and
  -- the buffer keeps the rest, with its count right.
  pub on_data_loop-Delivers :
      (fuel : ℕ) (r : Reasm) (s : S)
      → IsCounted r
      → length (stream r) < fuel
      → Delivers (stream r) s (on_data_loop malloc dispatch fuel r s)
  on_data_loop-Delivers zero r s h enough = absurd (omega arith)
  on_data_loop-Delivers (suc fuel) r s h enough =
      let st = stream r in
      elim (Bool-cases (has_frame st)) [
        | inr e ↦
            let f = frames_none st e in
            record {
              reasm = r;
              runs = on_data_loop_step fuel r s h ∙ rw (e, f) (unfold deliver in refl);
              rest = rw f refl;
              counted = h;
            }
        | inl e ↦
            let size = frame_size st in
            let (out, left, counted) = rpc_reasm_consume_lem r size h in
            let (delivered, rest) = deliver_next st _ _ s e left out in
            let ih =
              on_data_loop-Delivers fuel (rpc_reasm_consume r size).1
                (after_message size (rpc_reasm_consume r size).0 s) counted
                (rw left (omega (arith, length-drop size st, has_frame_lem st e))) in
            record {
              reasm = ih.reasm;
              runs =
                  on_data_loop_step fuel r s h
                  ∙ rw e (ih.runs ∙ ap (λ t. some (ih.reasm, t)) delivered);
              rest = ih.rest ∙ rest;
              counted = ih.counted;
            }
      ]

  -- The calls of `rpc_on_data` for one chunk after another, each with the data of one receive.
  -- Memory for the chunks is granted, and a round of the loop takes a byte at least.
  unfoldable pub feed : List (List ℕ) → Reasm → S → Option (Reasm × S)
  feed [] r s = some (r, s)
  feed (c ∷ cs) r s =
      let r₁ = rpc_reasm_append true r c in
      elim (on_data_loop malloc dispatch (suc r₁.total_len) r₁ s) [
        | none ↦ none
        | some (r₂, s₂) ↦ feed cs r₂ s₂
      ]

  -- A run on the bytes that one part of a stream leaves, with the next part behind them, is the
  -- continuation of a run on the whole.
  Delivers-append :
      (a b left : List ℕ) (s : S) (run : Option (Reasm × S))
      → left ≡ (frames a).rest
      → Delivers (left ++ b) (deliver (frames a).messages s) run
      → Delivers (a ++ b) s run
  Delivers-append a b left s run e d =
      let whole = frames-append a b in
      let tail = ap (λ l. frames (l ++ b)) e in
      record {
        reasm = d.reasm;
        runs =
            d.runs
            ∙ ap (λ t. some (d.reasm, t))
                (rw (tail, whole)
                  (sym (
                    deliver-append (frames a).messages (frames ((frames a).rest ++ b)).messages
                      s)));
        rest = d.rest ∙ rw (tail, whole) refl;
        counted = d.counted;
      }

  -- From a buffer with a right count that holds no whole message, appending the chunks of any list,
  -- of any bytes at all, and running the loop of rpc_on_data after each ends; it dispatches the
  -- messages that the specification cuts out of the whole stream, in order, and the buffer keeps the
  -- bytes that are left. The chunks get memory.
  pub feed-Delivers :
      (cs : List (List ℕ)) (r : Reasm) (s : S)
      → IsCounted r
      → (frames (stream r)).messages ≡ []
      → Delivers (stream r ++ concat cs) s (feed cs r s)
  unfolding feed
  feed-Delivers [] r s h quiet = rw (append-nil (stream r)) (record {
    reasm = r;
    runs = rw quiet (unfold deliver in refl);
    rest = rw (frames_quiet (stream r) quiet) refl;
    counted = h;
  })
  feed-Delivers (c ∷ cs) r s h quiet =
      let (joined, counted) = rpc_reasm_append_lem r c h in
      let r₁ = rpc_reasm_append true r c in
      let now = on_data_loop-Delivers (suc r₁.total_len) r₁ s counted (omega arith) in
      let settled : (frames (stream now.reasm)).messages ≡ [] =
        rw now.rest (ap (λ f. f.messages) (frames-rest (stream r₁))) in
      let later =
        feed-Delivers cs now.reasm (deliver (frames (stream r₁)).messages s) now.counted settled in
      rw (now.runs, feed, ← append_assoc (stream r) c (concat cs), ← joined)
        (Delivers-append (stream r₁) (concat cs) (stream now.reasm) s _ now.rest later)

  -- If whole messages are sent one after the other, then whatever chunks their bytes arrive in,
  -- appending each chunk and running the loop of rpc_on_data after it ends, each message is
  -- dispatched once (or dropped, where malloc refuses memory for it), in the order sent, and the
  -- reassembly buffer ends empty. The chunks themselves get memory.
  pub feed_messages :
      (ms cs : List (List ℕ)) (s : S)
      → All IsMessage ms
      → concat cs ≡ concat ms
      → (r : Reasm) × (feed cs empty_reasm s ≡ some (r, deliver ms s)) × (stream r ≡ [])
  feed_messages ms cs s whole same =
      let d = feed-Delivers cs empty_reasm s refl (ap (λ f. f.messages) (frames_none [] refl)) in
      let cut : frames (concat cs) ≡ record { messages = ms; rest = [] } =
        ap frames same ∙ frames-concat ms whole in
      (
        d.reasm,
        d.runs ∙ ap (λ (f : Frames). some (d.reasm, deliver f.messages s)) cut,
        d.rest ∙ ap (λ (f : Frames). f.rest) cut,
      )
