-- ===== src/Tests/NetExamples.antt =====
-- The connections of topside at concrete inputs.
use aqualung.Common.{
  ℕ, String, ◌≡◌, ◌↔◌, ◌⊎◌, inl, inr, refl, true, false, Option, none, some, List, [], ◌∷◌, ◌++◌,
  ok, err, string_eq, arith,
}
use aqualung.Wire.{LeaderClient}
use aqualung.Wire.Frame.{to_be_bytes, write_frame}
use aqualung.Hub.Run.{ToHub, accepted, home_eof, phone_hello}
use aqualung.Common.Trim.{trim}
use aqualung.Common.Utf8.{as_bytes}
use aqualung.Topside.Net.Bearer.{callback, header_of, to_ascii_lowercase}
use aqualung.Topside.Net.Admission.{has_space, Bearing, callback_iff}
use aqualung.Topside.Net.Home.{
  poll_frame, Conn, Event, arrived, polled, command, peer_closes, put_frame, told, wrote, home_loop,
  home_connection,
}
use aqualung.Topside.Net.Delivery.{
  reads, polls, closing, delivered, home_loop-delivered, home_loop-loses_part,
}
use aqualung.Topside.Net.Telling.{Behind, messages, home_connection-Frames}
use aqualung.Topside.Net.Phone as Phone
use aqualung.Topside.Net.Texting as Texting
use aqualung.Tests.SamplePki.{http, codec}

abbrev token : List ℕ
token = 104 ∷ 105 ∷ []

callback_iff_example :
    ((callback token "bearer  hi " ≡ ok tt) ↔ Bearing "bearer  hi " token)
    × ((callback token "bearer  hi " ≡ ok tt) ⊎ (callback token "bearer  hi " ≡ err 401))
unfolding header_of
callback_iff_example = callback_iff token "bearer  hi " (omega arith, (omega arith, tt))

-- The header of the example is accepted, and one without the scheme is not.
accepted_header : callback token "bearer  hi " ≡ ok tt
unfolding trim header_of has_space to_ascii_lowercase as_bytes
accepted_header = (callback_iff token "bearer  hi " (omega arith, (omega arith, tt))).0.1 (record {
  scheme = "bearer";
  rest = " hi";
  parts = refl;
  one_word = refl;
  bearer = refl;
  shown = refl;
})

abbrev phone_conn : Phone.Conn
phone_conn = record { writable = true; hub_open = true }

phone_connection-admits_example :
    ((¬ Bearing "hi" token)
      × (Phone.phone_connection 1 2 token (some "hi") true (some (3, phone_conn)) [] ≡ []))
    ⊎ (Bearing "hi" token
        × (more : List ToHub) × (Texting.messages
              (Phone.phone_connection 1 2 token (some "hi") true (some (3, phone_conn)) [])
            ≡ phone_hello 1 2 ∷ more)
        × Texting.Behind (some (3, phone_conn)) more)
unfolding header_of
phone_connection-admits_example =
    Texting.phone_connection-admits 1 2 token "hi" (some (3, phone_conn)) []
      (omega arith, (omega arith, tt))

abbrev talk : List (Phone.Message ⊎ String)
talk =
    inl (Phone.text_message "a")
    ∷ inr "b"
    ∷ inl (Phone.ping_message (1 ∷ []))
    ∷ inl Phone.close
    ∷ []

phone_loop-streams_example :
    (Texting.messages (
        Phone.phone_loop 3 (some Texting.working) (Texting.coming talk ++ Phone.incoming none ∷ []))
      ≡ Texting.for_hub 3 talk)
    × (Texting.replies (
          Phone.phone_loop 3
            (some Texting.working)
            (Texting.coming talk ++ Phone.incoming none ∷ []))
        ≡ Texting.for_phone talk)
phone_loop-streams_example = Texting.phone_loop-streams 3 talk []

abbrev quiet : Conn
quiet = record { held = []; socket = []; peer_closed = false; writable = true; hub_open = true }

abbrev some_events : List Event
some_events = arrived (0 ∷ 0 ∷ 0 ∷ 1 ∷ 9 ∷ []) ∷ polled ∷ peer_closes ∷ polled ∷ polled ∷ []

home_connection-Frames_example :
    (messages (home_connection 1 2 3 true true (some (4, quiet)) some_events) ≡ [])
    ⊎ ((more : List ToHub) × (messages
            (home_connection 1 2 3 true true (some (4, quiet)) some_events)
          ≡ accepted 1 2 3 ∷ more)
        × (true ≡ true)
        × Behind (some (4, quiet)) more)
home_connection-Frames_example =
    home_connection-Frames 1 2 3 true true (some (4, quiet)) some_events

abbrev hung_up : Conn
hung_up = record quiet { peer_closed = true }

-- A frame of two bytes, in two pieces.
abbrev pieces : List (Option (List ℕ))
pieces = some (0 ∷ 0 ∷ 0 ∷ []) ∷ none ∷ some (2 ∷ 8 ∷ 9 ∷ []) ∷ none ∷ []

home_loop-delivered_example :
    home_loop 4 (some quiet) (reads pieces ++ (polls 1 ++ closing []))
    ≡ delivered 4 ((8 ∷ 9 ∷ []) ∷ []) ++ told (home_eof 4) ∷ []
unfolding to_be_bytes
home_loop-delivered_example =
    home_loop-delivered 4 quiet pieces ((8 ∷ 9 ∷ []) ∷ []) 1 [] (record { hub = refl; peer = refl })
      (omega arith, tt) refl (omega arith)

home_loop-loses_part_example :
    home_loop 4
      (some quiet)
      (arrived (0 ∷ 0 ∷ []) ∷ polled ∷ command (some LeaderClient.ping) ∷ some_events)
    ≡ wrote (0 ∷ 0 ∷ 0 ∷ 1 ∷ 7 ∷ []) ∷ home_loop 4 (some quiet) some_events
unfolding poll_frame put_frame write_frame to_be_bytes
home_loop-loses_part_example =
    home_loop-loses_part 4 quiet (0 ∷ 0 ∷ []) (7 ∷ []) (0 ∷ 0 ∷ 0 ∷ 1 ∷ 7 ∷ []) LeaderClient.ping
      some_events (record { hub = refl; peer = refl }) refl refl refl refl refl
