-- ===== src/Tests/Streams.antt =====
-- Chunks of bytes through the receive loop, and messages as they lie on the wire.
use cc_rpc.Base.{ℕ, ◌≡◌, refl, arith, List, [], ◌∷◌, ◌++◌, Bool, true, some, concat}
use cc_rpc.Wire.{Header, header_bytes, read_header}
use cc_rpc.Wire.Layout.{IsHeader, read_header-header_bytes}
use cc_rpc.Reasm.{Reasm, empty_reasm, on_data_loop}
use cc_rpc.Reasm.Buffer.{stream}
use cc_rpc.Reasm.Frames.{IsMessage, frames_none}
use cc_rpc.Reasm.Loop.{deliver, feed, Delivers, feed_messages, feed-Delivers, on_data_loop-Delivers}

-- A state that lists the messages dispatched, and memory for each of them.
abbrev malloc_all : ℕ → List (List ℕ) → Bool × List (List ℕ)
malloc_all n seen = (true, seen)

abbrev record_message : List ℕ → List (List ℕ) → List (List ℕ)
record_message m seen = seen ++ (m ∷ [])

abbrev header : Header
header = record { status = 0; seq = 0x01020304; msg_len = 2; method_len = 0 }

header-IsHeader : IsHeader header
header-IsHeader = record {
  status = omega arith;
  seq = omega arith;
  msg_len = omega arith;
  method_len = omega arith;
}

abbrev message : List ℕ
message = 0 ∷ 0 ∷ 1 ∷ 2 ∷ 3 ∷ 4 ∷ 0 ∷ 0 ∷ 0 ∷ 2 ∷ 0 ∷ 0 ∷ 40 ∷ 41 ∷ []

abbrev head_part : List ℕ
head_part = 0 ∷ 0 ∷ 1 ∷ 2 ∷ 3 ∷ []

abbrev tail_part : List ℕ
tail_part = 4 ∷ 0 ∷ 0 ∷ 0 ∷ 2 ∷ 0 ∷ 0 ∷ 40 ∷ 41 ∷ []

message-IsMessage : IsMessage message
unfolding read_header
message-IsMessage = (omega arith, refl)

feed_messages_example :
    (r : Reasm) × (feed malloc_all record_message
        (head_part ∷ (tail_part ++ head_part) ∷ tail_part ∷ [])
        empty_reasm
        []
      ≡ some (r, deliver malloc_all record_message (message ∷ message ∷ []) []))
    × (stream r ≡ [])
feed_messages_example =
    feed_messages malloc_all record_message (message ∷ message ∷ [])
      (head_part ∷ (tail_part ++ head_part) ∷ tail_part ∷ []) []
      (message-IsMessage, (message-IsMessage, tt)) refl

feed-Delivers_example :
    Delivers malloc_all record_message
      (stream empty_reasm ++ concat (head_part ∷ tail_part ∷ []))
      []
      (feed malloc_all record_message (head_part ∷ tail_part ∷ []) empty_reasm [])
feed-Delivers_example =
    feed-Delivers malloc_all record_message (head_part ∷ tail_part ∷ []) empty_reasm [] refl
      (λ i. (frames_none [] refl i).messages)

abbrev two_parts : Reasm
two_parts = record { bufs = head_part ∷ tail_part ∷ []; total_len = 14 }

on_data_loop-Delivers_example :
    Delivers malloc_all record_message
      (stream two_parts)
      []
      (on_data_loop malloc_all record_message 15 two_parts [])
on_data_loop-Delivers_example =
    on_data_loop-Delivers malloc_all record_message 15 two_parts [] refl (omega arith)

read_header-header_bytes_example : read_header (header_bytes header ++ (9 ∷ [])) ≡ header
read_header-header_bytes_example = read_header-header_bytes header (9 ∷ []) header-IsHeader
