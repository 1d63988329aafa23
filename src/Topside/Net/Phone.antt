-- ===== src/Topside/Net/Phone.antt =====
-- `phone_connection` of crates/topside/src/net.rs: what the task of a phone tells the hub and sends to
-- the phone, over what happens around it.
use aqualung.Common.{
  ℕ, String, Bool, true, false, Option, none, some, List, [], ◌∷◌, ◌++◌, if◌then◌else◌, Result, ok,
  err,
}
use aqualung.Hub.Run.{ToHub, phone_hello, phone_text, phone_eof}
use aqualung.Topside.Net.Bearer.{Http, callback}

-- `Message` of tungstenite. A payload is a list of bytes, or of no interest here.
pub data Message : Type 0 where
  text_message : String → Message
  binary : List ℕ → Message
  ping_message : List ℕ → Message
  pong_message : List ℕ → Message
  close : Message
  frame_message : Message

-- What the task does outside itself.
pub data Output : Type 0 where
  told : ToHub → Output
  sent_message : Message → Output

-- The sink takes messages, and the hub receives them.
pub record Conn : Type 0 where
  pub writable : Bool
  pub hub_open : Bool

-- `none` where `stream.next()` ends, and an error without its kind.
abbrev pub Incoming : Type 0
Incoming = Option (Result Message (Unit {0}))

pub data Event : Type 0 where
  sink_fails : Event
  hub_ends : Event
  incoming : Incoming → Event
  outgoing : Option String → Event

unfoldable pub tell : Bool → ToHub → List Output
tell false msg = []
tell true msg = told msg ∷ []

-- `sink.send(..)` without the test of its result.
unfoldable pub put : Bool → Message → List Output
put false msg = []
put true msg = sent_message msg ∷ []

-- The end of the stream, however it came.
unfoldable pub ending : ℕ → Conn → List Output × Option Conn
unfolding tell
ending phone c = (tell c.hub_open (phone_eof phone), none)

unfoldable pub on_incoming : ℕ → Conn → Incoming → List Output × Option Conn
unfolding ending put
on_incoming phone c (some (ok (text_message text))) =
    if c.hub_open then (told (phone_text phone text) ∷ [], some c) else ([], none)
on_incoming phone c (some (ok (ping_message payload))) =
    (put c.writable (pong_message payload), some c)
on_incoming phone c (some (ok (pong_message payload))) = ([], some c)
on_incoming phone c (some (ok frame_message)) = ([], some c)
on_incoming phone c (some (ok (binary payload))) = ([], some c)
on_incoming phone c (some (ok close)) = ending phone c
on_incoming phone c (some (err e)) = ending phone c
on_incoming phone c none = ending phone c

unfoldable pub step : ℕ → Conn → Event → List Output × Option Conn
unfolding on_incoming ending
step phone c sink_fails = ([], some (record c { writable = false }))
step phone c hub_ends = ([], some (record c { hub_open = false }))
step phone c (incoming msg) = on_incoming phone c msg
step phone c (outgoing none) = ([], none)
step phone c (outgoing (some text)) =
    if c.writable then (sent_message (text_message text) ∷ [], some c) else ending phone c

unfoldable pub phone_loop : ℕ → Option Conn → List Event → List Output
unfolding step
phone_loop phone none events = []
phone_loop phone (some c) [] = []
phone_loop phone (some c) (event ∷ events) =
    let (out, next) = step phone c event in out ++ phone_loop phone next events

-- The task behind the handshake, with the two channels that it gives the hub: whether the hub was
-- there, and the number of the phone that the hub answered with.
unfoldable pub after_handshake : ℕ → ℕ → Bool → Option (ℕ × Conn) → List Event → List Output
unfolding phone_loop
after_handshake out bind false bound events = []
after_handshake out bind true none events = told (phone_hello out bind) ∷ []
after_handshake out bind true (some (phone, c)) events =
    told (phone_hello out bind) ∷ phone_loop phone (some c) events

module _ ⦃H : Http⦄ where
  -- `accept_hdr_async`: it reads a request, or none, and asks the callback; it fails where the
  -- callback does.
  unfoldable pub phone_connection :
      ℕ → ℕ → List ℕ → Option H.Request → Bool → Option (ℕ × Conn) → List Event → List Output
  unfolding callback after_handshake
  phone_connection out bind token none hub_open bound events = []
  phone_connection out bind token (some req) hub_open bound events = elim (callback token req) [
    | err status ↦ []
    | ok _ ↦ after_handshake out bind hub_open bound events
  ]
