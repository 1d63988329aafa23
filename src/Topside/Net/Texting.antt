-- ===== src/Topside/Net/Texting.antt =====
-- What a phone's connection of crates/topside/src/net.rs tells the hub, and who gets that far.
use aqualung.Common.{
  ℕ, String, ◌⊎◌, ◌≡◌, refl, ap, Bool, true, false, Option, none, some, List, [], ◌∷◌, ◌++◌, ok,
  err, arith, if_cases, inl, inr,
}
use aqualung.Auth.{AreBytes}
use aqualung.Hub.Run.{ToHub, phone_hello, phone_text, phone_eof}
use aqualung.Topside.Net.Bearer.{Http, header_of}
use aqualung.Topside.Net.Admission.{Bearing, callback_iff}
use aqualung.Topside.Net.Phone.{
  Message, text_message, binary, ping_message, pong_message, close, frame_message, Output, told,
  sent_message, Conn, Incoming, Event, sink_fails, hub_ends, incoming, outgoing, tell, put, ending,
  on_incoming, step, phone_loop, after_handshake, phone_connection,
}

unfoldable pub messages : List Output → List ToHub
messages [] = []
messages (told msg ∷ outs) = msg ∷ messages outs
messages (sent_message msg ∷ outs) = messages outs

-- The phone's stream and the hub's texts for the phone, as they come to the loop.
abbrev pub coming : List (Message ⊎ String) → List Event
coming [] = []
coming (inl msg ∷ more) = incoming (some (ok msg)) ∷ coming more
coming (inr text ∷ more) = outgoing (some text) ∷ coming more

-- What of it is for the hub: the phone's texts, up to its close or its end.
abbrev pub for_hub : ℕ → List (Message ⊎ String) → List ToHub
for_hub phone [] = phone_eof phone ∷ []
for_hub phone (inl (text_message text) ∷ more) = phone_text phone text ∷ for_hub phone more
for_hub phone (inl close ∷ more) = phone_eof phone ∷ []
for_hub phone (_ ∷ more) = for_hub phone more

-- What of it is for the phone: the hub's texts and the answers to its pings, up to then.
abbrev pub for_phone : List (Message ⊎ String) → List Message
for_phone [] = []
for_phone (inl (ping_message payload) ∷ more) = pong_message payload ∷ for_phone more
for_phone (inl close ∷ more) = []
for_phone (inl _ ∷ more) = for_phone more
for_phone (inr text ∷ more) = text_message text ∷ for_phone more

unfoldable pub replies : List Output → List Message
replies [] = []
replies (told msg ∷ outs) = replies outs
replies (sent_message msg ∷ outs) = msg ∷ replies outs

-- The sink and the hub take everything.
abbrev pub working : Conn
working = record { writable = true; hub_open = true }

-- While the sink and the hub take everything: each text of the phone reaches the hub once, as it
-- is and in its order, and the end behind them; each text of the hub, and the answer to each
-- ping, reaches the phone in order; nothing else is told or sent, and nothing behind the end of
-- the stream.
pub phone_loop-streams :
    (phone : ℕ) (events : List (Message ⊎ String)) (later : List Event)
    → (messages (phone_loop phone (some working) (coming events ++ incoming none ∷ later))
        ≡ for_hub phone events)
      × (replies (phone_loop phone (some working) (coming events ++ incoming none ∷ later))
          ≡ for_phone events)
unfolding phone_loop step on_incoming ending put tell messages replies
phone_loop-streams phone [] later = (refl, refl)
phone_loop-streams phone (inl (text_message text) ∷ more) later =
    let (a, b) = phone_loop-streams phone more later in
    (ap (λ rest. phone_text phone text ∷ rest) a, b)
phone_loop-streams phone (inl (binary payload) ∷ more) later = phone_loop-streams phone more later
phone_loop-streams phone (inl (ping_message payload) ∷ more) later =
    let (a, b) = phone_loop-streams phone more later in
    (a, ap (λ rest. pong_message payload ∷ rest) b)
phone_loop-streams phone (inl (pong_message payload) ∷ more) later =
    phone_loop-streams phone more later
phone_loop-streams phone (inl close ∷ more) later = (refl, refl)
phone_loop-streams phone (inl frame_message ∷ more) later = phone_loop-streams phone more later
phone_loop-streams phone (inr text ∷ more) later =
    let (a, b) = phone_loop-streams phone more later in (a, ap (λ rest. text_message text ∷ rest) b)

-- Texts of one phone, and at most one end behind them.
abbrev pub Texts : ℕ → List ToHub → Type 0
Texts phone [] = Unit {0}
Texts phone (phone_text p text ∷ more) = (p ≡ phone) × Texts phone more
Texts phone (phone_eof p ∷ []) = p ≡ phone
Texts phone _ = ⊥

abbrev pub Behind : Option (ℕ × Conn) → List ToHub → Type 0
Behind none more = more ≡ []
Behind (some (phone, c)) more = Texts phone more

-- What one step may do.
data Turn (phone : ℕ) : List Output × Option Conn → Type 0 where
  silent : (next : Option Conn) → Turn phone ([], next)
  telling :
      (text : String) (next : Option Conn) → Turn phone (told (phone_text phone text) ∷ [], next)
  sending : (msg : Message) (next : Option Conn) → Turn phone (sent_message msg ∷ [], next)
  last : Turn phone (told (phone_eof phone) ∷ [], none)

tell-Turn : (phone : ℕ) (hub_open : Bool) → Turn phone (tell hub_open (phone_eof phone), none)
unfolding tell
tell-Turn phone true = last
tell-Turn phone false = silent none

ending-Turn : (phone : ℕ) (c : Conn) → Turn phone (ending phone c)
unfolding ending
ending-Turn phone c = tell-Turn phone c.hub_open

put-Turn :
    (phone : ℕ) (writable : Bool) (msg : Message) (c : Conn) → Turn phone (put writable msg, some c)
unfolding put
put-Turn phone true msg c = sending msg (some c)
put-Turn phone false msg c = silent (some c)

on_incoming-Turn : (phone : ℕ) (c : Conn) (msg : Incoming) → Turn phone (on_incoming phone c msg)
unfolding on_incoming
on_incoming-Turn phone c (some (ok (text_message text))) =
    if_cases (Turn phone) c.hub_open (telling text (some c)) (silent none)
on_incoming-Turn phone c (some (ok (ping_message payload))) =
    put-Turn phone c.writable (pong_message payload) c
on_incoming-Turn phone c (some (ok (pong_message payload))) = silent (some c)
on_incoming-Turn phone c (some (ok frame_message)) = silent (some c)
on_incoming-Turn phone c (some (ok (binary payload))) = silent (some c)
on_incoming-Turn phone c (some (ok close)) = ending-Turn phone c
on_incoming-Turn phone c (some (err e)) = ending-Turn phone c
on_incoming-Turn phone c none = ending-Turn phone c

step-Turn : (phone : ℕ) (c : Conn) (event : Event) → Turn phone (step phone c event)
unfolding step
step-Turn phone c sink_fails = silent _
step-Turn phone c hub_ends = silent _
step-Turn phone c (incoming msg) = on_incoming-Turn phone c msg
step-Turn phone c (outgoing none) = silent none
step-Turn phone c (outgoing (some text)) =
    if_cases (Turn phone) c.writable (sending (text_message text) (some c)) (ending-Turn phone c)

Turn-Texts :
    (phone : ℕ) (turn : List Output × Option Conn) (more : List Output)
    → Turn phone turn
    → (turn.1 ≡ none → more ≡ [])
    → Texts phone (messages more)
    → Texts phone (messages (turn.0 ++ more))
unfolding messages
Turn-Texts phone _ more (silent next) quiet f = f
Turn-Texts phone _ more (telling text next) quiet f = (refl, f)
Turn-Texts phone _ more (sending msg next) quiet f = f
Turn-Texts phone _ more last quiet f = rw (quiet refl) refl

phone_loop-Texts :
    (phone : ℕ) (c : Option Conn) (events : List Event)
    → Texts phone (messages (phone_loop phone c events))
unfolding phone_loop messages
phone_loop-Texts phone none events = tt
phone_loop-Texts phone (some c) [] = tt
phone_loop-Texts phone (some c) (event ∷ events) =
    Turn-Texts phone (step phone c event) (phone_loop phone (step phone c event).1 events)
      (step-Turn phone c event) (λ e. rw e refl)
      (phone_loop-Texts phone (step phone c event).1 events)

after_handshake-Texts :
    (out bind : ℕ) (bound : Option (ℕ × Conn)) (events : List Event)
    → (more : List ToHub) × (messages (after_handshake out bind true bound events)
        ≡ phone_hello out bind ∷ more)
      × Behind bound more
unfolding after_handshake messages
after_handshake-Texts out bind none events = ([], refl, refl)
after_handshake-Texts out bind (some (phone, c)) events =
    (messages (phone_loop phone (some c) events), refl, phone_loop-Texts phone (some c) events)

module _ ⦃H : Http⦄ where
  -- Where the hub is there and the token is one of bytes: the task of a phone whose request does not
  -- show the token tells the hub nothing, and sends the phone nothing behind the answer to its request.
  -- The task of one whose request shows it tells the hub of the phone first, then of texts under the
  -- number that the hub gave it, and of its end at most once and behind everything else.
  pub phone_connection-admits :
      (out bind : ℕ) (token : List ℕ) (req : H.Request) (bound : Option (ℕ × Conn))
      (events : List Event)
      → AreBytes token
      → ((¬ Bearing (header_of req) token)
          × (phone_connection out bind token (some req) true bound events ≡ []))
        ⊎ (Bearing (header_of req) token
            × (more : List ToHub) × (messages
                  (phone_connection out bind token (some req) true bound events)
                ≡ phone_hello out bind ∷ more)
            × Behind bound more)
  unfolding phone_connection messages
  phone_connection-admits out bind token req bound events bytes =
      let (exactly, answer) = callback_iff token req bytes in
      elim answer [
        | inl ok_ ↦
            let (more, hello, behind) = after_handshake-Texts out bind bound events in
            inr (exactly.0 ok_, more, rw (phone_connection, ok_) hello, behind)
        | inr refused ↦
            inl (
              λ shown. ground (arith, exactly.1 shown, refused),
              rw (phone_connection, refused) refl,
            )
      ]
