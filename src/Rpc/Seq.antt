-- ===== src/Rpc/Seq.antt =====
-- `rpc_next_seq`: the next sequence number that no pending call has.
use cc_rpc.Base.{
  ℕ, zero, suc, ◌+◌, ◌-◌, ◌%◌, ◌^◌, ◌≤◌, ◌<◌, ◌≡◌, refl, subst, arith, List, [], ◌∷◌, Bool, true,
  false, ◌||◌, Option, none, some, length, ◌==◌, ◌≢◌, if◌then◌else◌, Bool-cases, inl, inr,
}

-- `g_next_seq++` and the step over 0.
unfoldable pub advance : ℕ → ℕ
advance g = let next = (g + 1) % 2 ^ 32 in if next == 0 then 1 else next

-- The number found and `g_next_seq` after it. `none` means that the fuel ran out.
unfoldable pub next_seq_loop : ℕ → (ℕ → Bool) → ℕ → Option (ℕ × ℕ)
unfolding advance
next_seq_loop zero contains g = none
next_seq_loop (suc fuel) contains g =
    let again = next_seq_loop fuel contains (advance g) in
    if contains g then again else some (g, advance g)

abbrev pub IsSeq : ℕ → Type 0
IsSeq g = (0 < g) × (g < 2 ^ 32)

advance-IsSeq : (g : ℕ) → IsSeq g → IsSeq (advance g)
unfolding advance
advance-IsSeq g h = ground arith

abbrev pub member : ℕ → List ℕ → Bool
member k [] = false
member k (x ∷ xs) = (x == k) || member k xs

erase : ℕ → List ℕ → List ℕ
erase k [] = []
erase k (x ∷ xs) = if x == k then xs else (x ∷ erase k xs)

length-erase : (k : ℕ) (xs : List ℕ) → member k xs ≡ true → suc (length (erase k xs)) ≡ length xs
unfolding erase
length-erase k [] h = cc
length-erase k (x ∷ xs) h = ground (arith, length-erase k xs)

member-erase : (k j : ℕ) (xs : List ℕ) → k ≢ j → member j xs ≡ true → member j (erase k xs) ≡ true
unfolding erase
member-erase k j [] n h = cc
member-erase k j (x ∷ xs) n h = ground (arith, member-erase k j xs)

-- The i-th number from `g` on.
candidate : ℕ → ℕ → ℕ
candidate g i = (g - 1 + i) % (2 ^ 32 - 1) + 1

candidate-zero : (g : ℕ) → IsSeq g → candidate g 0 ≡ g
unfolding candidate
candidate-zero g h = omega arith

candidate-suc : (g i : ℕ) → candidate g (suc i) ≡ advance (candidate g i)
unfolding candidate advance
candidate-suc g i = ground arith

candidate_ne : (g i j : ℕ) → i < j → j < 2 ^ 32 - 1 → candidate g i ≢ candidate g j
unfolding candidate
candidate_ne g i j h k e = omega arith

-- The result of a search: a number in range that is free, and the next one to try.
pub record Found (contains : ℕ → Bool) (run : Option (ℕ × ℕ)) : Type 0 where
  pub seq : ℕ
  pub next : ℕ
  pub runs : run ≡ some (seq, next)
  pub seq_range : IsSeq seq
  pub next_range : IsSeq next
  pub free : contains seq ≡ false

candidate-IsSeq : (g i : ℕ) → IsSeq (candidate g i)
unfolding candidate
candidate-IsSeq g i = omega arith

next_seq_loop_from :
    (fuel g i : ℕ) (contains : ℕ → Bool) (keys : List ℕ)
    → IsSeq g
    → ((j : ℕ)
        → i ≤ j
        → j < 2 ^ 32 - 1
        → contains (candidate g j) ≡ true
        → member (candidate g j) keys ≡ true)
    → length keys < fuel
    → i + fuel ≤ 2 ^ 32 - 1
    → Found contains (next_seq_loop fuel contains (candidate g i))
unfolding next_seq_loop
next_seq_loop_from zero g i contains keys v all enough room = absurd (omega arith)
next_seq_loop_from (suc fuel) g i contains keys v all enough room =
    elim (Bool-cases (contains (candidate g i))) [
      | inr free ↦ record {
        seq = candidate g i;
        next = advance (candidate g i);
        runs = rw free refl;
        seq_range = candidate-IsSeq g i;
        next_range = advance-IsSeq (candidate g i) (candidate-IsSeq g i);
        free = free;
      }
      | inl busy ↦
          let here = all i (omega arith) (omega arith) busy in
          let rest =
            next_seq_loop_from fuel g (suc i) contains (erase (candidate g i) keys) v
              (λ j after in_range hit.
                member-erase (candidate g i) (candidate g j) keys
                  (candidate_ne g i j after in_range) (all j (omega arith) in_range hit))
              (omega (arith, length-erase (candidate g i) keys here)) (omega arith) in
          record {
            seq = rest.seq;
            next = rest.next;
            runs = rw (busy, ← candidate-suc g i) rest.runs;
            seq_range = rest.seq_range;
            next_range = rest.next_range;
            free = rest.free;
          }
    ]

-- Whenever fewer calls are pending than there are numbers, the search ends with a free number
-- that is not 0, after at most one try more than there are pending calls.
pub next_seq_loop-Found :
    (g : ℕ) (contains : ℕ → Bool) (keys : List ℕ)
    → IsSeq g
    → ((k : ℕ) → contains k ≡ true → member k keys ≡ true)
    → length keys < 2 ^ 32 - 1
    → Found contains (next_seq_loop (suc (length keys)) contains g)
next_seq_loop-Found g contains keys v all few =
    subst (λ k. Found contains (next_seq_loop (suc (length keys)) contains k)) (candidate-zero g v)
      (next_seq_loop_from (suc (length keys)) g 0 contains keys v
        (λ j _ _ hit. all (candidate g j) hit) (omega arith) (omega arith))
