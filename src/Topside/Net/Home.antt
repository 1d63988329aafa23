-- ===== src/Topside/Net/Home.antt =====
-- `home_connection` of crates/topside/src/net.rs, byte by byte: what the task of a home connection
-- tells the hub and writes to the leader, over what happens around it.
use aqualung.Common.{
  ℕ, Bool, true, false, Option, none, some, List, [], ◌∷◌, ◌++◌, ltb, if◌then◌else◌, Result, ok,
  err,
}
use aqualung.Wire.{LeaderClient, ping, register_client, LeaderServer, unknown}
use aqualung.Wire.Frame.{WireError, too_large, max_frame, read_exact, from_be_bytes, write_frame}
use aqualung.Hub.Run.{ToHub, accepted, home_frame, home_eof}

-- serde's code for the messages: `from_slice::<LeaderServer>` and `to_vec` of a `LeaderClient`.
pub record Codec : Type 0 where
  pub from_slice : List ℕ → Option LeaderServer
  pub to_vec : LeaderClient → Option (List ℕ)

-- The future of `read_frame`, polled on the bytes that there are: it waits for more, or it is done
-- and leaves what it did not take.
pub data Poll : Type 0 where
  pending : Poll
  done : Result (List ℕ × List ℕ) WireError → Poll

unfoldable pub poll_body : ℕ → List ℕ → Poll
unfolding read_exact
poll_body len behind =
    if ltb max_frame len
    then done (err (too_large len))
    else elim (read_exact len behind) [ none ↦ pending | some frame ↦ done (ok frame) ]

unfoldable pub poll_frame : List ℕ → Poll
unfolding read_exact from_be_bytes poll_body
poll_frame input = elim (read_exact 4 input) [
  | none ↦ pending
  | some (len_buf, behind) ↦ poll_body (from_be_bytes len_buf) behind
]

-- What a task of a connection does outside itself.
pub data Output : Type 0 where
  told : ToHub → Output
  wrote : List ℕ → Output

-- The stream and the hub, as the loop of the task finds them. `held` are the bytes that the future
-- of `read_frame` has taken, `socket` those that have arrived behind them.
pub record Conn : Type 0 where
  pub held : List ℕ
  pub socket : List ℕ
  pub peer_closed : Bool
  pub writable : Bool
  pub hub_open : Bool

-- What happens to the task: bytes arrive, the leader closes its side, the stream takes no more
-- bytes, the hub ends; and what `select!` takes: it polls the frame, receives a command or the end
-- of its channel, the time of a ping comes, the hub halts the connection.
pub data Event : Type 0 where
  arrived : List ℕ → Event
  peer_closes : Event
  write_fails : Event
  hub_ends : Event
  polled : Event
  command : Option LeaderClient → Event
  ping_tick : Event
  halt_received : Event

-- `to_hub.send(msg)`, as far as it is sent.
unfoldable pub tell : Bool → ToHub → List Output
tell false msg = []
tell true msg = told msg ∷ []

-- `read_frame` was dropped with what it held.
unfoldable pub dropping_read : Conn → Conn
dropping_read c = record c { held = [] }

-- `wire::write_frame` on the stream.
unfoldable pub put_frame : Bool → List ℕ → Option (List ℕ)
unfolding write_frame
put_frame writable json = elim (write_frame json) [
  | err e ↦ none
  | ok bytes ↦ if writable then some bytes else none
]

module _ ⦃S : Codec⦄ where
  unfoldable pub decode : List ℕ → LeaderServer
  decode bytes = elim (S.from_slice bytes) [ none ↦ unknown | some msg ↦ msg ]

  -- The loop goes on in a state, or it has ended.
  unfoldable pub on_frame : ℕ → Conn → Poll → List Output × Option Conn
  unfolding decode tell
  on_frame home_gen c pending =
      if c.peer_closed
      then (tell c.hub_open (home_eof home_gen), none)
      else ([], some (record c { held = c.held ++ c.socket; socket = [] }))
  on_frame home_gen c (done (ok (bytes, rest))) =
      if c.hub_open
      then (
        told (home_frame home_gen (decode bytes)) ∷ [],
        some (record c { held = []; socket = rest }),
      )
      else ([], none)
  on_frame home_gen c (done (err e)) = (tell c.hub_open (home_eof home_gen), none)

  -- A message for the leader, from the hub or from the clock.
  unfoldable pub on_message : ℕ → Conn → LeaderClient → List Output × Option Conn
  unfolding put_frame tell dropping_read
  on_message home_gen c msg = elim (S.to_vec msg) [
    | none ↦ ([], some (dropping_read c))
    | some json ↦ elim (put_frame c.writable json) [
      | none ↦ (tell c.hub_open (home_eof home_gen), none)
      | some bytes ↦ (wrote bytes ∷ [], some (dropping_read c))
    ]
  ]

  unfoldable pub step : ℕ → Conn → Event → List Output × Option Conn
  unfolding poll_frame on_frame on_message
  step home_gen c (arrived bytes) = ([], some (record c { socket = c.socket ++ bytes }))
  step home_gen c peer_closes = ([], some (record c { peer_closed = true }))
  step home_gen c write_fails = ([], some (record c { writable = false }))
  step home_gen c hub_ends = ([], some (record c { hub_open = false }))
  step home_gen c polled = on_frame home_gen c (poll_frame (c.held ++ c.socket))
  step home_gen c (command none) = ([], none)
  step home_gen c (command (some msg)) = on_message home_gen c msg
  step home_gen c ping_tick = on_message home_gen c ping
  step home_gen c halt_received = ([], none)

  unfoldable pub home_loop : ℕ → Option Conn → List Event → List Output
  unfolding step
  home_loop home_gen none events = []
  home_loop home_gen (some c) [] = []
  home_loop home_gen (some c) (event ∷ events) =
      let (out, next) = step home_gen c event in out ++ home_loop home_gen next events

  -- The registration: the loop begins behind it, or the task is over.
  unfoldable pub registration : ℕ → Conn → List Output × Option Conn
  unfolding put_frame tell
  registration home_gen c = elim (S.to_vec register_client) [
    | none ↦ ([], none)
    | some json ↦ elim (put_frame c.writable json) [
      | none ↦ (tell c.hub_open (home_eof home_gen), none)
      | some bytes ↦ (wrote bytes ∷ [], some c)
    ]
  ]

  unfoldable pub register_home : ℕ → Conn → List Event → List Output
  unfolding home_loop registration
  register_home home_gen c events =
      let (out, next) = registration home_gen c in out ++ home_loop home_gen next events

  -- The task, with the three channels that it gives the hub: whether the handshake of TLS ended
  -- well and the hub was there, the generation that the hub answered with, and the stream then.
  unfoldable pub home_connection :
      ℕ → ℕ → ℕ → Bool → Bool → Option (ℕ × Conn) → List Event → List Output
  unfolding register_home
  home_connection out halt bind false hub_open bound events = []
  home_connection out halt bind true false bound events = []
  home_connection out halt bind true true none events = told (accepted out halt bind) ∷ []
  home_connection out halt bind true true (some (home_gen, c)) events =
      told (accepted out halt bind) ∷ register_home home_gen c events
