-- ===== src/Topside/Net/Delivery.antt =====
-- Every frame that the leader sends reaches the hub, whatever the pieces that it arrives in, as long
-- as the loop of `home_connection` only reads.
use mathlib.Core.List.{append_assoc, append-nil}
use aqualung.Common.{
  ℕ, zero, suc, ◌≤◌, ◌≡◌, refl, ap, ◌∙◌, sym, inl, inr, true, false, Option, none, some, List, [],
  ◌∷◌, ◌++◌, ok, arith,
}
use aqualung.Wire.Frame.{max_frame, length}
use aqualung.Wire.{LeaderClient}
use aqualung.Hub.Run.{home_frame, home_eof}
use aqualung.Topside.Net.Home.{
  Codec, pending, done, poll_frame, Output, told, Conn, Event, arrived, peer_closes, polled, tell,
  command, put_frame, wrote, on_message, dropping_read, decode, on_frame, step, home_loop,
}
use aqualung.Topside.Net.Reading.{frame, poll_frame-frame, poll_frame_part}

-- The loop only reads: bytes arrive, or it polls the frame.
abbrev pub reads : List (Option (List ℕ)) → List Event
reads [] = []
reads (some bytes ∷ events) = arrived bytes ∷ reads events
reads (none ∷ events) = polled ∷ reads events

abbrev pub arriving : List (Option (List ℕ)) → List ℕ
arriving [] = []
arriving (some bytes ∷ events) = bytes ++ arriving events
arriving (none ∷ events) = arriving events

abbrev pub polls : ℕ → List Event
polls zero = []
polls (suc n) = polled ∷ polls n

-- The leader closes its side, and the loop polls the frame.
abbrev pub closing : List Event → List Event
closing later = peer_closes ∷ polled ∷ later

abbrev pub stream : List (List ℕ) → List ℕ
stream [] = []
stream (json ∷ jsons) = frame json ++ stream jsons

abbrev pub Fit : List (List ℕ) → Type 0
Fit [] = Unit {0}
Fit (json ∷ jsons) = (length json ≤ max_frame) × Fit jsons

abbrev pub count : List (List ℕ) → ℕ
count [] = 0
count (_ ∷ jsons) = suc (count jsons)

abbrev pub unread : Conn → List ℕ
unread c = c.held ++ c.socket

pub record Open (c : Conn) : Type 0 where
  pub hub : c.hub_open ≡ true
  pub peer : c.peer_closed ≡ false

nil_part : (xs ys : List ℕ) → xs ++ ys ≡ [] → xs ≡ []
nil_part [] ys h = refl
nil_part (x ∷ xs) ys h = cc

module _ ⦃S : Codec⦄ where
  -- What the hub is told of payloads that were read.
  abbrev pub delivered : ℕ → List (List ℕ) → List Output
  delivered home_gen [] = []
  delivered home_gen (json ∷ jsons) =
      told (home_frame home_gen (decode json)) ∷ delivered home_gen jsons

  loop-step :
      (home_gen : ℕ) (c c' : Conn) (event : Event) (events : List Event) (out : List Output)
      → step home_gen c event ≡ (out, some c')
      → home_loop home_gen (some c) (event ∷ events) ≡ out ++ home_loop home_gen (some c') events
  unfolding home_loop
  loop-step home_gen c c' event events out h = rw h refl

  polled-pending :
      (home_gen : ℕ) (c : Conn)
      → Open c
      → poll_frame (unread c) ≡ pending
      → step home_gen c polled ≡ ([], some (record c { held = c.held ++ c.socket; socket = [] }))
  unfolding step on_frame
  polled-pending home_gen c o p = rw (p, o.peer) refl

  polled-done :
      (home_gen : ℕ) (c : Conn) (json tail : List ℕ)
      → Open c
      → poll_frame (unread c) ≡ done (ok (json, tail))
      → step home_gen c polled ≡ (
        told (home_frame home_gen (decode json)) ∷ [],
        some (record c { held = []; socket = tail }),
      )
  unfolding step on_frame
  polled-done home_gen c json tail o p = rw (p, o.hub) refl

  step-arrived :
      (home_gen : ℕ) (c : Conn) (bytes : List ℕ)
      → step home_gen c (arrived bytes) ≡ ([], some (record c { socket = c.socket ++ bytes }))
  unfolding step
  step-arrived home_gen c bytes = refl

  -- The loop goes on with what it holds and has, and tells nothing.
  loop-waiting :
      (home_gen : ℕ) (c : Conn) (events : List Event)
      → Open c
      → poll_frame (unread c) ≡ pending
      → home_loop home_gen (some c) (polled ∷ events)
        ≡ home_loop home_gen (some (record c { held = unread c; socket = [] })) events
  loop-waiting home_gen c events o p =
      loop-step home_gen c (record c { held = unread c; socket = [] }) polled events []
        (polled-pending home_gen c o p)

  loop-taking :
      (home_gen : ℕ) (c : Conn) (json tail : List ℕ) (events : List Event)
      → Open c
      → poll_frame (unread c) ≡ done (ok (json, tail))
      → home_loop home_gen (some c) (polled ∷ events)
        ≡ told (home_frame home_gen (decode json))
          ∷ home_loop home_gen (some (record c { held = []; socket = tail })) events
  loop-taking home_gen c json tail events o p =
      loop-step home_gen c (record c { held = []; socket = tail }) polled events _
        (polled-done home_gen c json tail o p)

  loop-closing :
      (home_gen : ℕ) (c : Conn) (later : List Event)
      → Open c
      → unread c ≡ []
      → home_loop home_gen (some c) (peer_closes ∷ polled ∷ later) ≡ told (home_eof home_gen) ∷ []
  unfolding home_loop step on_frame tell
  loop-closing home_gen c later o all = rw (all, o.hub) refl

  -- When all has arrived, a poll for each frame is enough.
  loop_polls :
      (home_gen n : ℕ) (c : Conn) (jsons : List (List ℕ)) (later : List Event)
      → Open c
      → Fit jsons
      → unread c ≡ stream jsons
      → count jsons ≤ n
      → home_loop home_gen (some c) (polls n ++ closing later)
        ≡ delivered home_gen jsons ++ told (home_eof home_gen) ∷ []
  unfolding home_loop
  loop_polls home_gen zero c [] later o fit all enough = loop-closing home_gen c later o all
  loop_polls home_gen zero c (json ∷ jsons) later o fit all enough = ground arith
  loop_polls home_gen (suc n) c [] later o fit all enough =
      loop-waiting home_gen c (polls n ++ closing later) o (ap poll_frame all)
      ∙ loop_polls home_gen n (record c { held = unread c; socket = [] }) [] later
          (record { hub = o.hub; peer = o.peer }) fit (append-nil (unread c) ∙ all) (omega arith)
  loop_polls home_gen (suc n) c (json ∷ jsons) later o fit all enough =
      loop-taking home_gen c json (stream jsons) (polls n ++ closing later) o
        (ap poll_frame all ∙ poll_frame-frame json (stream jsons) fit.0)
      ∙ ap (λ more. told (home_frame home_gen (decode json)) ∷ more)
          (loop_polls home_gen n (record c { held = []; socket = stream jsons }) jsons later
            (record { hub = o.hub; peer = o.peer }) fit.1 refl (omega (arith, enough)))

  -- While the hub is there: whatever the pieces in which the frames of payloads of at most 64 MB
  -- arrive, and whenever the loop looks between them, if it only reads, and looks once more for
  -- each frame when all has arrived, then the hub is told of each payload, decoded, in the order
  -- sent, and, when the leader has closed its side behind them, of the end, and of nothing else.
  pub home_loop-delivered :
      (home_gen : ℕ) (c : Conn) (events : List (Option (List ℕ))) (jsons : List (List ℕ)) (n : ℕ)
      (later : List Event)
      → Open c
      → Fit jsons
      → unread c ++ arriving events ≡ stream jsons
      → count jsons ≤ n
      → home_loop home_gen (some c) (reads events ++ (polls n ++ closing later))
        ≡ delivered home_gen jsons ++ told (home_eof home_gen) ∷ []
  unfolding poll_frame
  home_loop-delivered home_gen c [] jsons n later o fit all enough =
      loop_polls home_gen n c jsons later o fit (sym (append-nil (unread c)) ∙ all) enough
  home_loop-delivered home_gen c (some bytes ∷ events) jsons n later o fit all enough =
      loop-step home_gen c (record c { socket = c.socket ++ bytes }) (arrived bytes)
        (reads events ++ (polls n ++ closing later)) [] (step-arrived home_gen c bytes)
      ∙ home_loop-delivered home_gen (record c { socket = c.socket ++ bytes }) events jsons n later
          (record { hub = o.hub; peer = o.peer }) fit
          (ap (λ xs. xs ++ arriving events) (sym (append_assoc c.held c.socket bytes))
            ∙ append_assoc (unread c) bytes (arriving events)
            ∙ all)
          enough
  home_loop-delivered home_gen c (none ∷ events) [] n later o fit all enough =
      loop-waiting home_gen c (reads events ++ (polls n ++ closing later)) o
        (ap poll_frame (nil_part (unread c) (arriving events) all))
      ∙ home_loop-delivered home_gen (record c { held = unread c; socket = [] }) events [] n later
          (record { hub = o.hub; peer = o.peer }) fit
          (ap (λ xs. xs ++ arriving events) (append-nil (unread c)) ∙ all) enough
  home_loop-delivered home_gen c (none ∷ events) (json ∷ jsons) n later o fit all enough =
      elim (poll_frame_part (unread c) (arriving events) json (stream jsons) all fit.0) [
        | inl p ↦
            loop-waiting home_gen c (reads events ++ (polls n ++ closing later)) o (p)
            ∙ home_loop-delivered home_gen (record c { held = unread c; socket = [] }) events
                (json ∷ jsons) n later (record { hub = o.hub; peer = o.peer }) fit
                (ap (λ xs. xs ++ arriving events) (append-nil (unread c)) ∙ all) enough
        | inr (tail, p, e) ↦
            loop-taking home_gen c json tail (reads events ++ (polls n ++ closing later)) o p
            ∙ ap (λ more. told (home_frame home_gen (decode json)) ∷ more)
                (home_loop-delivered home_gen (record c { held = []; socket = tail }) events jsons n
                  later (record { hub = o.hub; peer = o.peer }) fit.1 e (omega (arith, enough)))
      ]

  command-writes :
      (home_gen : ℕ) (c : Conn) (json bytes : List ℕ) (msg : LeaderClient)
      → S.to_vec msg ≡ some json
      → put_frame c.writable json ≡ some bytes
      → step home_gen c (command (some msg)) ≡ (wrote bytes ∷ [], some (record c { held = [] }))
  unfolding step on_message dropping_read
  command-writes home_gen c json bytes msg j w = rw (on_message, j, w) refl

  -- Bytes that the loop took before it sends a message are lost: where all that has arrived is a
  -- part of a frame, the loop has taken it, and a message of the hub is then written, the loop
  -- goes on as if the part had not arrived, and reads what follows as the beginning of a frame.
  pub home_loop-loses_part :
      (home_gen : ℕ) (c : Conn) (part json bytes : List ℕ) (msg : LeaderClient)
      (events : List Event)
      → Open c
      → c.held ≡ []
      → c.socket ≡ []
      → poll_frame part ≡ pending
      → S.to_vec msg ≡ some json
      → put_frame c.writable json ≡ some bytes
      → home_loop home_gen (some c) (arrived part ∷ polled ∷ command (some msg) ∷ events)
        ≡ wrote bytes ∷ home_loop home_gen (some c) events
  home_loop-loses_part home_gen c part json bytes msg events o h s p j w =
      let arrives : Conn = record c { socket = c.socket ++ part } in
      let waits : Conn = record arrives { held = unread arrives; socket = [] } in
      let same : record c { held = []; socket = [] } ≡ c =
        λ i. record c { held = sym h i; socket = sym s i } in
      loop-step home_gen c arrives (arrived part) (polled ∷ command (some msg) ∷ events) []
        (step-arrived home_gen c part)
      ∙ loop-waiting home_gen arrives (command (some msg) ∷ events)
          (record { hub = o.hub; peer = o.peer }) (rw (h, s) p)
      ∙ loop-step home_gen waits (record c { held = []; socket = [] }) (command (some msg)) events
          (wrote bytes ∷ []) (command-writes home_gen waits json bytes msg j w)
      ∙ ap (λ (d : Conn). wrote bytes ∷ home_loop home_gen (some d) events) same
