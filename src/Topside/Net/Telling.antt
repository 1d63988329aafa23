-- ===== src/Topside/Net/Telling.antt =====
-- What a home connection of crates/topside/src/net.rs tells the hub, and in which order.
use aqualung.Common.{
  ℕ, ◌⊎◌, ◌≡◌, refl, ap, Bool, true, false, Option, none, some, List, [], ◌∷◌, ◌++◌, ok, err,
  option_cases, if_cases, inl, inr,
}
use aqualung.Wire.{LeaderClient, register_client, LeaderServer}
use aqualung.Hub.Run.{ToHub, accepted, home_frame, home_eof}
use aqualung.Topside.Net.Home.{
  Codec, Poll, pending, done, poll_frame, Output, told, wrote, Conn, Event, arrived, peer_closes,
  write_fails, hub_ends, polled, command, ping_tick, halt_received, tell, put_frame, decode,
  on_frame, on_message, step, home_loop, registration, register_home, home_connection,
}

-- The messages to the hub among what a task does.
unfoldable pub messages : List Output → List ToHub
messages [] = []
messages (told msg ∷ outs) = msg ∷ messages outs
messages (wrote bytes ∷ outs) = messages outs

-- Frames of one connection, and at most one end behind them.
abbrev pub Frames : ℕ → List ToHub → Type 0
Frames home_gen [] = Unit {0}
Frames home_gen (home_frame g msg ∷ more) = (g ≡ home_gen) × Frames home_gen more
Frames home_gen (home_eof g ∷ []) = g ≡ home_gen
Frames home_gen _ = ⊥

messages-append : (xs ys : List Output) → messages (xs ++ ys) ≡ messages xs ++ messages ys
unfolding messages
messages-append [] ys = refl
messages-append (told msg ∷ xs) ys = ap (λ more. msg ∷ more) (messages-append xs ys)
messages-append (wrote bytes ∷ xs) ys = messages-append xs ys

-- What one step may do: it tells a frame, or nothing, and goes on, or it ends and tells the end at most.
pub data Turn (home_gen : ℕ) : List Output × Option Conn → Type 0 where
  silent : (next : Option Conn) → Turn home_gen ([], next)
  frame :
      (msg : LeaderServer) (next : Option Conn)
      → Turn home_gen (told (home_frame home_gen msg) ∷ [], next)
  writing : (bytes : List ℕ) (next : Option Conn) → Turn home_gen (wrote bytes ∷ [], next)
  ending : Turn home_gen (told (home_eof home_gen) ∷ [], none)

-- What may follow once the hub has bound the connection, or has not.
abbrev pub Behind : Option (ℕ × Conn) → List ToHub → Type 0
Behind none more = more ≡ []
Behind (some (home_gen, c)) more = Frames home_gen more

module _ ⦃S : Codec⦄ where
  tell_end : (home_gen : ℕ) (open_ : Bool) → Turn home_gen (tell open_ (home_eof home_gen), none)
  unfolding tell
  tell_end home_gen false = silent none
  tell_end home_gen true = ending

  on_frame-Turn : (home_gen : ℕ) (c : Conn) (p : Poll) → Turn home_gen (on_frame home_gen c p)
  unfolding on_frame
  on_frame-Turn home_gen c pending =
      if_cases (Turn home_gen) c.peer_closed (tell_end home_gen c.hub_open) (silent _)
  on_frame-Turn home_gen c (done (ok (bytes, rest))) =
      if_cases (Turn home_gen) c.hub_open (frame (decode bytes) _) (silent none)
  on_frame-Turn home_gen c (done (err e)) = tell_end home_gen c.hub_open

  on_message-Turn :
      (home_gen : ℕ) (c : Conn) (msg : LeaderClient) → Turn home_gen (on_message home_gen c msg)
  unfolding on_message
  on_message-Turn home_gen c msg = option_cases (Turn home_gen) (S.to_vec msg) (silent _) λ json.
      option_cases (Turn home_gen) (put_frame c.writable json) (tell_end home_gen c.hub_open)
        λ bytes. writing bytes _

  pub step-Turn : (home_gen : ℕ) (c : Conn) (event : Event) → Turn home_gen (step home_gen c event)
  unfolding step
  step-Turn home_gen c (arrived bytes) = silent _
  step-Turn home_gen c peer_closes = silent _
  step-Turn home_gen c write_fails = silent _
  step-Turn home_gen c hub_ends = silent _
  step-Turn home_gen c polled = on_frame-Turn home_gen c (poll_frame (c.held ++ c.socket))
  step-Turn home_gen c (command none) = silent _
  step-Turn home_gen c (command (some msg)) = on_message-Turn home_gen c msg
  step-Turn home_gen c ping_tick = on_message-Turn home_gen c LeaderClient.ping
  step-Turn home_gen c halt_received = silent _

  Turn-Frames :
      (home_gen : ℕ) (turn : List Output × Option Conn) (more : List Output)
      → Turn home_gen turn
      → (turn.1 ≡ none → more ≡ [])
      → Frames home_gen (messages more)
      → Frames home_gen (messages (turn.0 ++ more))
  unfolding messages
  Turn-Frames home_gen _ more (silent next) quiet f = f
  Turn-Frames home_gen _ more (frame msg next) quiet f = (refl, f)
  Turn-Frames home_gen _ more (writing bytes next) quiet f = f
  Turn-Frames home_gen _ more ending quiet f = rw (quiet refl) refl

  home_loop-Frames :
      (home_gen : ℕ) (c : Option Conn) (events : List Event)
      → Frames home_gen (messages (home_loop home_gen c events))
  unfolding home_loop messages
  home_loop-Frames home_gen none events = tt
  home_loop-Frames home_gen (some c) [] = tt
  home_loop-Frames home_gen (some c) (event ∷ events) =
      Turn-Frames home_gen (step home_gen c event)
        (home_loop home_gen (step home_gen c event).1 events) (step-Turn home_gen c event)
        (λ e. rw e refl) (home_loop-Frames home_gen (step home_gen c event).1 events)

  pub registration-Turn : (home_gen : ℕ) (c : Conn) → Turn home_gen (registration home_gen c)
  unfolding registration
  registration-Turn home_gen c =
      option_cases (Turn home_gen) (S.to_vec register_client) (silent _) λ json.
        option_cases (Turn home_gen) (put_frame c.writable json) (tell_end home_gen c.hub_open)
          λ bytes. writing bytes _

  register_home-Frames :
      (home_gen : ℕ) (c : Conn) (events : List Event)
      → Frames home_gen (messages (register_home home_gen c events))
  unfolding register_home messages
  register_home-Frames home_gen c events =
      Turn-Frames home_gen (registration home_gen c)
        (home_loop home_gen (registration home_gen c).1 events) (registration-Turn home_gen c)
        (λ e. rw e refl) (home_loop-Frames home_gen (registration home_gen c).1 events)

  -- A connection tells the hub of itself first, and only after the handshake of TLS; then of frames
  -- of its own generation, and of its end at most once, behind everything else.
  pub home_connection-Frames :
      (out halt bind : ℕ) (handshake hub_open : Bool) (bound : Option (ℕ × Conn))
      (events : List Event)
      → (messages (home_connection out halt bind handshake hub_open bound events) ≡ [])
        ⊎ ((more : List ToHub) × (messages
                (home_connection out halt bind handshake hub_open bound events)
              ≡ accepted out halt bind ∷ more)
            × (handshake ≡ true)
            × Behind bound more)
  unfolding home_connection messages
  home_connection-Frames out halt bind false hub_open bound events = inl refl
  home_connection-Frames out halt bind true false bound events = inl refl
  home_connection-Frames out halt bind true true none events = inr ([], refl, refl, refl)
  home_connection-Frames out halt bind true true (some (home_gen, c)) events = inr (
    messages (register_home home_gen c events),
    refl,
    refl,
    register_home-Frames home_gen c events,
  )

  -- A turn that ends the loop tells of the end.
  abbrev Closing : ℕ → List Output × Option Conn → Type 0
  Closing home_gen turn = turn.1 ≡ none → turn.0 ≡ told (home_eof home_gen) ∷ []

  on_frame-Closing :
      (home_gen : ℕ) (c : Conn) (p : Poll)
      → c.hub_open ≡ true
      → Closing home_gen (on_frame home_gen c p)
  unfolding on_frame tell
  on_frame-Closing home_gen c pending there =
      if_cases (Closing home_gen) c.peer_closed (λ e. rw there refl) (λ e. cc)
  on_frame-Closing home_gen c (done (ok (bytes, rest))) there = rw there (λ e. cc)
  on_frame-Closing home_gen c (done (err e)) there = λ q. rw there refl

  on_message-Closing :
      (home_gen : ℕ) (c : Conn) (msg : LeaderClient)
      → c.hub_open ≡ true
      → Closing home_gen (on_message home_gen c msg)
  unfolding on_message tell
  on_message-Closing home_gen c msg there =
      option_cases (Closing home_gen) (S.to_vec msg) (λ e. cc)
        λ json.
          option_cases (Closing home_gen) (put_frame c.writable json) (λ e. rw there refl)
            λ bytes e. cc

  -- While the hub runs, the loop ends without telling it of the end only where the hub has halted the
  -- connection or has dropped its channel.
  pub step-ending :
      (home_gen : ℕ) (c : Conn) (event : Event)
      → c.hub_open ≡ true
      → (step home_gen c event).1 ≡ none
      → ((step home_gen c event).0 ≡ told (home_eof home_gen) ∷ [])
        ⊎ (event ≡ halt_received)
        ⊎ (event ≡ command none)
  unfolding step
  step-ending home_gen c (arrived bytes) there h = cc
  step-ending home_gen c peer_closes there h = cc
  step-ending home_gen c write_fails there h = cc
  step-ending home_gen c hub_ends there h = cc
  step-ending home_gen c polled there h =
      inl (on_frame-Closing home_gen c (poll_frame (c.held ++ c.socket)) there h)
  step-ending home_gen c (command none) there h = inr (inr refl)
  step-ending home_gen c (command (some msg)) there h =
      inl (on_message-Closing home_gen c msg there h)
  step-ending home_gen c ping_tick there h =
      inl (on_message-Closing home_gen c LeaderClient.ping there h)
  step-ending home_gen c halt_received there h = inr (inl refl)
