-- ===== src/Tests/Samples.antt =====
-- A day at the hub: one home connection, two phones.
use aqualung.Common.{
  ℕ, String, true, Option, none, some, List, [], ◌∷◌, ◌==◌, string_eq, if◌then◌else◌, pos,
}
use aqualung.Json.{Json}
use aqualung.Wire.{LeaderServer}
use aqualung.Hub.Link.{Link, sole, dual, wait_ready}
use aqualung.Hub.State.{Hub, connected, Phone, open_claim, forwarded}
use aqualung.Hub.Run.{
  accepted, home_frame, home_eof, phone_hello, phone_text, shutdown_hub, Event, received, woken,
}
use aqualung.Tests.SampleJson.{Value, string, number, object, sample}

abbrev pub request : Value → String → String → Value
request id method session = object (
    ("id", id)
    ∷ ("method", string method)
    ∷ ("params", object (("sessionId", string session) ∷ []))
    ∷ [])

abbrev pub reply : Value → String → Value
reply id session =
    object (("id", id) ∷ ("result", object (("sessionId", string session) ∷ [])) ∷ [])

abbrev pub question : Value
question = request (number (pos 9)) "session/request_permission" "s"

abbrev pub update : Value
update =
    object (
      ("method", string "session/update")
      ∷ ("params", object (("sessionId", string "s") ∷ []))
      ∷ [])

-- The texts of the day.
abbrev pub table : String → Option (Value × String)
table text =
    if text == "initialized"
    then some (reply (number (pos 1)) "", "")
    else if text == "initialize"
    then some (object (("id", string "a") ∷ ("method", string "initialize") ∷ []), "")
    else if text == "new"
    then some (object (("id", number (pos 5)) ∷ ("method", string "session/new") ∷ []), "")
    else if text == "opened"
    then some (reply (number (pos 2)) "s", "")
    else if text == "question"
    then some (question, "")
    else if text == "load"
    then some (request (string "b") "session/load" "s", "")
    else if text == "update"
    then some (update, "")
    else none

instance abbrev pub json : Json
json = sample table

abbrev pub morning : List (ℕ × Event)
morning =
    (0, received (accepted 11 12 13))
    ∷ (5, received (home_frame 1 (LeaderServer.registered true 1)))
    ∷ (6, received (home_frame 1 (LeaderServer.acp "initialized")))
    ∷ (7, received (phone_hello 21 22))
    ∷ (8, received (phone_text 1 "initialize"))
    ∷ (9, received (phone_text 1 "new"))
    ∷ (10, received (home_frame 1 (LeaderServer.acp "opened")))
    ∷ (11, received (home_frame 1 (LeaderServer.acp "question")))
    ∷ (12, woken)
    ∷ []

abbrev pub day : List (ℕ × Event)
day =
    (0, received (accepted 11 12 13))
    ∷ (5, received (home_frame 1 (LeaderServer.registered true 1)))
    ∷ (6, received (home_frame 1 (LeaderServer.acp "initialized")))
    ∷ (7, received (accepted 31 32 33))
    ∷ (8, received (home_eof 1))
    ∷ (9, received shutdown_hub)
    ∷ []

abbrev pub first_link : Link
first_link = record { home_gen = 1; out = 11; halt = some 12 }

abbrev pub second_link : Link
second_link = record { home_gen = 2; out = 31; halt = some 32 }

-- A hub that serves a home connection and two phones, which were both asked the same question.
abbrev pub serving : Hub
serving = record {
  home = sole (record { link = first_link });
  phones = (1, Phone.ready 21) ∷ (2, Phone.ready 23) ∷ (3, connected 25) ∷ [];
  watchers = ("s", 1 ∷ 2 ∷ []) ∷ [];
  driver = ("s", 1) ∷ [];
  outstanding = [];
  reverse = ((1, string "aq:1"), 4) ∷ ((2, string "aq:2"), 4) ∷ [];
  claims = (4, open_claim (number (pos 9))) ∷ [];
  next_phone = 3;
  next_req = 4;
  next_gen = 1;
  reverse_seq = 2;
  refused_version = none;
  sent = [];
}

-- The same hub while a second home connection waits for its leader.
abbrev pub replacing : Hub
replacing = record serving {
  home = dual (record {
    incumbent = record { link = first_link };
    incoming = wait_ready second_link 120000;
  });
}

-- The same hub while a phone waits for an answer.
abbrev pub waiting : Hub
waiting = record replacing { outstanding = (7, forwarded 1 (string "a")) ∷ [] }
