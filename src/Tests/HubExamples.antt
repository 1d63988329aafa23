-- ===== src/Tests/HubExamples.antt =====
-- The hub's theorems at concrete inputs.
use aqualung.Common.{◌++◌, ◌+◌, arith, ◌≡◌, refl, none, some, [], ◌∷◌, pos, nat_eq}
use aqualung.Common.HashMap.{get, keys}
use aqualung.Common.HashSet.{contains}
use aqualung.Wire.{LeaderServer, LeaderClient}
use aqualung.Wire.Rpc.{session_id_in, is_interaction, method_of}
use aqualung.Hub.Loads.{next_id}
use aqualung.Hub.Link.{to_leader, to_phone, link_of, deadline_of}
use aqualung.Hub.State.{
  new_hub, role, role_in, mux_out, mux_link_in, phone_ready, is_ready, open_claim, phone_out,
  reverse_key_eq, Phone,
}
use aqualung.Hub.Slots.{current_deadline}
use aqualung.Hub.Ending.{run-home_eof}
use aqualung.Hub.Watching.{or_default}
use aqualung.Hub.Run.{received, home_frame, home_eof, handle, wake, run}
use aqualung.Hub.FromHome.Frames.{on_home_result, on_reverse_request, targets}
use aqualung.Hub.FromPhone.{forward_request, on_phone_request, on_phone_reply, unwatch_named}
use aqualung.Hub.Relay.{forwarded_text, forward_request-on_home_result, on_home_result-lost}
use aqualung.Hub.Gate.{on_phone_request-not_ready}
use aqualung.Hub.Asking.{Asked, on_reverse_request-Asked, on_phone_reply-on_phone_reply}
use aqualung.Hub.Expiry.{wake-current_deadline}
use aqualung.Hub.Quiet.{signalled}
use aqualung.Hub.Halting.{tally}
use aqualung.Hub.Halting.Runs.{brought, run-signalled}
use aqualung.Hub.Serving.{view}
use aqualung.Hub.Serving.Moves.{Move, handle-Move}
use aqualung.Hub.Invariant.{Inv}
use aqualung.Hub.Invariant.Runs.{run-Inv}
use aqualung.Hub.Invariant.Departed.{on_phone_eof-gone}
use aqualung.Hub.Serving.Generations.{Ordered, homes_in, run-Ordered}
use aqualung.Hub.Watching.{on_phone_eof}
use aqualung.Common.{◌≢◌, false, string_eq}
use aqualung.Tests.SampleJson.{string, number, set_field, to_string, value_eq}
use aqualung.Tests.Samples.{
  json, question, request, reply, morning, day, serving, replacing, waiting,
}

run-signalled_example : signalled 12 (run new_hub day).sent ≡ brought 12 day + tally 12 new_hub
run-signalled_example = run-signalled 12 day new_hub refl

handle-Move_example :
    Move
      (keys replacing.watchers)
      none
      (next_id 1)
      (home_frame 2 LeaderServer.leader_ready)
      (view replacing.home)
      (view (handle 9 (home_frame 2 LeaderServer.leader_ready) replacing).home)
handle-Move_example = handle-Move 9 (home_frame 2 LeaderServer.leader_ready) replacing

run-Inv_example : Inv (run new_hub morning)
run-Inv_example = run-Inv morning (omega arith) refl

forward_request-on_home_result_example :
    ((on_home_result 1
        (reply (number (pos 5)) "s")
        (forward_request 1 (string "a") (request (string "a") "session/prompt" "s") serving)).sent
      ≡ to_phone 21 (to_string (set_field (reply (number (pos 5)) "s") "id" (string "a")))
        ∷ to_leader 11
            (LeaderClient.acp (forwarded_text 5 (request (string "a") "session/prompt" "s")))
        ∷ [])
    × (on_home_result 1 (reply (number (pos 5)) "s") (
          on_home_result 1
            (reply (number (pos 5)) "s")
            (forward_request 1 (string "a") (request (string "a") "session/prompt" "s") serving))
        ≡ on_home_result 1
            (reply (number (pos 5)) "s")
            (forward_request 1 (string "a") (request (string "a") "session/prompt" "s") serving))
unfolding role role_in mux_out mux_link_in get phone_out next_id
forward_request-on_home_result_example =
    forward_request-on_home_result 1 1 11 _ (string "a") (request (string "a") "session/prompt" "s")
      (reply (number (pos 5)) "s") serving refl refl refl refl

on_phone_request-not_ready_example :
    on_phone_request 3 "session/close" (string "a") question serving
    ≡ forward_request 3 (string "a") question (unwatch_named 3 question serving)
unfolding phone_ready is_ready get
on_phone_request-not_ready_example =
    on_phone_request-not_ready 3 "session/close" (string "a") question serving refl refl

on_reverse_request-Asked_example :
    Asked 2 (next_id 4) 23 question serving (on_reverse_request question serving)
    × (get (next_id 4) (on_reverse_request question serving).claims
        ≡ some (open_claim (number (pos 9))))
unfolding session_id_in targets is_interaction method_of get contains or_default phone_out
on_reverse_request-Asked_example =
    on_reverse_request-Asked question (number (pos 9)) "session/request_permission" "s" 2
      (Phone.ready 23) serving refl refl refl refl refl

on_phone_reply-on_phone_reply_example :
    (on_phone_reply 2
      (string "aq:2")
      (reply (string "aq:2") "no")
      (on_phone_reply 1 (string "aq:1") (reply (string "aq:1") "yes") serving)).sent
    ≡ to_leader 11 (
        LeaderClient.acp
          (to_string (set_field (reply (string "aq:1") "yes") "id" (number (pos 9)))))
      ∷ []
unfolding get mux_out mux_link_in
on_phone_reply-on_phone_reply_example =
    on_phone_reply-on_phone_reply 1 2 4 11 (string "aq:1") (string "aq:2")
      (reply (string "aq:1") "yes") (reply (string "aq:2") "no") (number (pos 9)) serving refl refl
      refl refl

wake-current_deadline_example :
    ((view (wake 130000 (current_deadline replacing) replacing).home).served
      ≡ (view replacing.home).served)
    × ((view (wake 130000 (current_deadline replacing) replacing).home).coming ≡ none)
    × (current_deadline (wake 130000 (current_deadline replacing) replacing) ≡ none)
    × ((wake 130000 (current_deadline replacing) replacing).phones ≡ replacing.phones)
unfolding current_deadline deadline_of
wake-current_deadline_example = wake-current_deadline 130000 120000 replacing refl (omega arith)

run-Ordered_example :
    Ordered (run new_hub morning).next_gen (view (run new_hub morning).home)
    × ((run new_hub morning).next_gen ≡ homes_in morning)
run-Ordered_example = run-Ordered morning (omega arith) (omega arith) refl

on_phone_eof-gone_example :
    (get 1 (on_phone_eof 1 (run new_hub morning)).phones ≡ none)
    × (contains 1 (or_default (get "s" (on_phone_eof 1 (run new_hub morning)).watchers)) ≡ false)
    × (get "s" (on_phone_eof 1 (run new_hub morning)).driver ≢ some 1)
    × (get (1, string "aq:1") (on_phone_eof 1 (run new_hub morning)).reverse ≡ none)
on_phone_eof-gone_example =
    on_phone_eof-gone 1 "s" (string "aq:1") (run new_hub morning)
      (run-Inv morning (omega arith) refl)

on_home_result-lost_example :
    ((on_home_result 2 (reply (number (pos 7)) "") waiting).sent ≡ waiting.sent)
    × (on_home_result 1
          (reply (number (pos 7)) "s")
          (on_home_result 2 (reply (number (pos 7)) "") waiting)
        ≡ on_home_result 2 (reply (number (pos 7)) "") waiting)
unfolding role role_in link_of get
on_home_result-lost_example =
    on_home_result-lost 2 1 7 1 (string "a") (reply (number (pos 7)) "")
      (reply (number (pos 7)) "s") waiting refl refl refl refl

run-home_eof_example :
    role (run new_hub (morning ++ (99, received (home_eof 1)) ∷ [])) 2
    ≡ role (run new_hub morning) 2
run-home_eof_example = run-home_eof morning 99 1 2 (omega arith) (omega arith) refl
