-- ===== src/Tests/Runtime.antt =====
-- Calls, requests and responses at a concrete node.
use cc_rpc.Base.{
  ◌≡◌, refl, arith, [], ◌∷◌, ◌++◌, true, false, none, some, done, refuse, fault, ◌>>=◌,
}
use cc_rpc.HashMap.{hashmap_get}
use cc_rpc.HashMap.Keys.{string_key, int_key}
use cc_rpc.Reasm.{empty_reasm}
use cc_rpc.Rpc.State.{Rpc}
use cc_rpc.Rpc.Send.{request_bytes, response_bytes}
use cc_rpc.Rpc.Request.{rpc_handle_request}
use cc_rpc.Rpc.Request.Laws.{answer_events, rpc_handle_request_answers}
use cc_rpc.Rpc.Response.{rpc_handle_response}
use cc_rpc.Rpc.Response.Answer.{answered, with_answer}
use cc_rpc.Rpc.Response.Laws.{Keeps, rpc_handle_response_answers}
use cc_rpc.Rpc.Receive.{rpc_dispatch_message, rpc_on_data, pushed, polled}
use cc_rpc.Rpc.Receive.Laws.{
  Receives, receiving, received, rpc_dispatch_message-Keeps, rpc_on_data-Receives,
  rpc_on_data_locked_out,
}
use cc_rpc.Rpc.Call.{rpc_next_seq, rpc_call_finish}
use cc_rpc.Rpc.Call.Numbers.{IsNext, rpc_next_seq-IsNext}
use cc_rpc.Rpc.Call.Finish.{Finished, rpc_call_finish-Finished, rpc_call_answered}
use cc_rpc.Tests.Node.{
  grant_all, granted, name, peer, call, node, node-IsRpc, node-AllFit, node_pending, fits, request,
}

rpc_call_answered_example : Finished true false 5 0 (answered call 0 (1 ∷ 2 ∷ 3 ∷ [])) node (
    rpc_handle_response (response_bytes 5 0 (1 ∷ 2 ∷ 3 ∷ [])) node >>= λ u.
    rpc_call_finish true false 5 0 u)
rpc_call_answered_example =
    rpc_call_answered true 5 0 0 (1 ∷ 2 ∷ 3 ∷ []) call node node-IsRpc refl fits node_pending refl

rpc_handle_request_answers_example :
    (after : Rpc) × (rpc_handle_request grant_all peer (request_bytes 3 name (4 ∷ [])) node
      ≡ done after)
    × (after.log ≡ node.log ++ answer_events peer 3 (4 ∷ []) (hashmap_get node.methods name))
rpc_handle_request_answers_example =
    rpc_handle_request_answers grant_all peer 3 name (4 ∷ []) node (λ _. true) granted refl request
      (λ m e. node-AllFit name m e (4 ∷ []))

rpc_handle_response_answers_example :
    rpc_handle_response (response_bytes 5 0 (1 ∷ 2 ∷ 3 ∷ [])) node
    ≡ elim (hashmap_get node.pending 5) [
      | none ↦ done node
      | some addr ↦ elim (node.calls addr) [
        | none ↦ fault
        | some pc ↦ done (with_answer addr pc 0 (1 ∷ 2 ∷ 3 ∷ []) node)
      ]
    ]
rpc_handle_response_answers_example =
    rpc_handle_response_answers 5 0 (1 ∷ 2 ∷ 3 ∷ []) node node-IsRpc fits

rpc_on_data-Receives_example :
    Receives grant_all peer
      (received grant_all (0 ∷ 1 ∷ []) empty_reasm node)
      (receiving node)
      (rpc_on_data grant_all peer (pushed (0 ∷ 1 ∷ [])) empty_reasm node)
    × Receives grant_all peer
        (received grant_all (0 ∷ 1 ∷ []) empty_reasm node)
        (receiving node)
        (rpc_on_data grant_all peer (polled (some (0 ∷ 1 ∷ []))) empty_reasm node)
rpc_on_data-Receives_example =
    rpc_on_data-Receives grant_all peer (0 ∷ 1 ∷ []) empty_reasm node refl node-IsRpc node-AllFit
      refl refl

rpc_on_data_locked_out_example :
    (after : Rpc) × (rpc_on_data grant_all peer (polled none) empty_reasm node
      ≡ some (empty_reasm, done after))
    × (rpc_on_data grant_all peer (pushed (1 ∷ [])) empty_reasm after ≡ some (empty_reasm, refuse))
rpc_on_data_locked_out_example =
    rpc_on_data_locked_out grant_all peer peer empty_reasm empty_reasm (pushed (1 ∷ [])) node refl
      refl refl

rpc_dispatch_message-Keeps_example :
    Keeps node (rpc_dispatch_message grant_all peer (request_bytes 3 name (4 ∷ [])) node)
rpc_dispatch_message-Keeps_example =
    rpc_dispatch_message-Keeps grant_all peer (request_bytes 3 name (4 ∷ [])) node node-IsRpc
      node-AllFit

rpc_next_seq-IsNext_example : IsNext node (rpc_next_seq node)
rpc_next_seq-IsNext_example = rpc_next_seq-IsNext node node-IsRpc (omega arith)

rpc_call_finish-Finished_example :
    Finished true true 5 0 call node (rpc_call_finish true true 5 0 node)
rpc_call_finish-Finished_example =
    rpc_call_finish-Finished true true 5 0 call node node-IsRpc refl node_pending refl refl
