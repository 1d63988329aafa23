-- ===== src/Hub/Quiet.antt =====
-- The handlers that leave the home connections alone, with the tally of the halt channels.
use aqualung.Common.{
  ℕ, ◌+◌, ◌≡◌, refl, none, some, List, [], ◌∷◌, ◌==◌, nat_eq, if◌then◌else◌, arith, String, Bool,
}
use aqualung.Json.{Json}
use aqualung.Common.HashMap.{HashMap}
use aqualung.Wire.Rpc.{host_away_note}
use aqualung.Hub.Link.{
  Effect, to_leader, to_phone, halted, leader_closed, phone_closed, home_bound, phone_bound, Link,
  link_of, Home, away, bringing_up, sole, dual,
}
use aqualung.Hub.State.{
  Hub, Phone, connected, tell_ready, send_phone, broadcast_away, alloc_req, alloc_reverse_id,
}
use aqualung.Hub.Watching.{watch, unwatch, drop_phone, on_phone_eof}
use aqualung.Hub.FromHome.{send_follower_initialize, send_loads}
use aqualung.Hub.FromHome.Frames.{
  watch_reply, send_phones, on_home_notification, ask_phones, ask, on_reverse_request,
}
use aqualung.Hub.FromPhone.{
  on_phone_hello, answer_initialize, forward_request, forward_notification, answer_claim,
  on_phone_reply, watch_named, unwatch_named, refuse, on_phone_request, on_phone_request_cases,
  on_rpc, on_phone_text,
}

-- How often the link's channel is the given one.
abbrev pub holds : ℕ → Link → ℕ
holds c link = elim link.halt [ none ↦ 0 | some halt ↦ if halt == c then 1 else 0 ]

abbrev pub held : ℕ → Home → ℕ
held c away = 0
held c (bringing_up incoming) = holds c (link_of incoming)
held c (sole live) = holds c live.link
held c (dual rep) = holds c rep.incumbent.link + holds c (link_of rep.incoming)

abbrev pub signals : ℕ → Effect → ℕ
signals c (to_leader _ _) = 0
signals c (to_phone _ _) = 0
signals c (halted halt) = if halt == c then 1 else 0
signals c (leader_closed _) = 0
signals c (phone_closed _) = 0
signals c (home_bound _ _) = 0
signals c (phone_bound _ _) = 0

abbrev pub signalled : ℕ → List Effect → ℕ
signalled c [] = 0
signalled c (effect ∷ sent) = signals c effect + signalled c sent

-- The home connections are the same, and no halt channel was signalled.
pub record Quiet ⦃J : Json⦄ (c : ℕ) (h h' : Hub) : Type 0 where
  pub home : h'.home ≡ h.home
  pub signals : signalled c h'.sent ≡ signalled c h.sent

module _ ⦃J : Json⦄ {c : ℕ} where
  pub Quiet-refl : (h : Hub) → Quiet c h h
  Quiet-refl h = record { home = refl; signals = refl }

  pub Quiet-trans : {h h' h'' : Hub} → Quiet c h h' → Quiet c h' h'' → Quiet c h h''
  Quiet-trans a b = ground arith

module _ ⦃J : Json⦄ (c : ℕ) where
  tell_ready-signalled :
      (note : String) (phones : HashMap ℕ Phone) (sent : List Effect)
      → signalled c (tell_ready note phones sent) ≡ signalled c sent
  unfolding tell_ready
  tell_ready-signalled note [] sent = refl
  tell_ready-signalled note ((_, connected _) ∷ phones) sent = tell_ready-signalled note phones sent
  tell_ready-signalled note ((_, Phone.ready out) ∷ phones) sent =
      omega (arith, tell_ready-signalled note phones (to_phone out note ∷ sent))

  pub broadcast_away-Quiet : (gone : Bool) (h : Hub) → Quiet c h (broadcast_away gone h)
  unfolding broadcast_away
  broadcast_away-Quiet gone h = record {
    home = refl;
    signals = tell_ready-signalled (host_away_note gone) h.phones h.sent;
  }

  pub send_phone-Quiet : (phone : ℕ) (text : String) (h : Hub) → Quiet c h (send_phone phone text h)
  unfolding send_phone
  send_phone-Quiet phone text h = ground arith

  pub send_follower_initialize-Quiet :
      (link : Link) (h : Hub) → Quiet c h (send_follower_initialize link h)
  unfolding send_follower_initialize alloc_req
  send_follower_initialize-Quiet link h = ground arith

  pub send_loads-Quiet :
      (link : Link) (ids : List (ℕ × String)) (h : Hub) → Quiet c h (send_loads link ids h)
  unfolding send_loads
  send_loads-Quiet link [] h = Quiet-refl h
  send_loads-Quiet link ((id, session) ∷ rest) h =
      Quiet-trans (ground arith) (send_loads-Quiet link rest _)

  pub send_phones-Quiet :
      (phones : List ℕ) (text : String) (h : Hub) → Quiet c h (send_phones phones text h)
  unfolding send_phones
  send_phones-Quiet [] text h = Quiet-refl h
  send_phones-Quiet (phone ∷ rest) text h =
      Quiet-trans (send_phone-Quiet phone text h) (send_phones-Quiet rest text _)

  pub watch-Quiet : (phone : ℕ) (session : String) (h : Hub) → Quiet c h (watch phone session h).1
  unfolding watch
  watch-Quiet phone session h = ground arith

  pub unwatch-Quiet : (phone : ℕ) (session : String) (h : Hub) → Quiet c h (unwatch phone session h)
  unfolding unwatch
  unwatch-Quiet phone session h = ground arith

  pub watch_reply-Quiet :
      (phone : ℕ) (obj : J.Value) (h : Hub) → Quiet c h (watch_reply phone obj h)
  unfolding watch_reply
  watch_reply-Quiet phone obj h = grind (arith, watch-Quiet)

  pub on_home_notification-Quiet :
      (obj : J.Value) (h : Hub) → Quiet c h (on_home_notification obj h)
  unfolding on_home_notification
  on_home_notification-Quiet obj h = grind (arith, send_phones-Quiet)

  pub ask_phones-Quiet :
      (phones : List ℕ) (key : ℕ) (obj : J.Value) (h : Hub)
      → Quiet c h (ask_phones phones key obj h)
  unfolding ask_phones alloc_reverse_id
  ask_phones-Quiet [] key obj h = Quiet-refl h
  ask_phones-Quiet (phone ∷ rest) key obj h =
      Quiet-trans
        (Quiet-trans (record { home = refl; signals = refl }) (send_phone-Quiet phone _ _))
        (ask_phones-Quiet rest key obj _)

  pub ask-Quiet : (phones : List ℕ) (id obj : J.Value) (h : Hub) → Quiet c h (ask phones id obj h)
  unfolding ask alloc_req
  ask-Quiet [] id obj h = Quiet-refl h
  ask-Quiet (phone ∷ rest) id obj h =
      Quiet-trans (record { home = refl; signals = refl }) (ask_phones-Quiet (phone ∷ rest) _ obj _)

  pub on_reverse_request-Quiet : (obj : J.Value) (h : Hub) → Quiet c h (on_reverse_request obj h)
  unfolding on_reverse_request
  on_reverse_request-Quiet obj h = grind (arith, ask-Quiet)

  pub on_phone_hello-Quiet : (out bind : ℕ) (h : Hub) → Quiet c h (on_phone_hello out bind h)
  unfolding on_phone_hello
  on_phone_hello-Quiet out bind h = ground arith

  pub answer_initialize-Quiet :
      (phone : ℕ) (id : J.Value) (h : Hub) → Quiet c h (answer_initialize phone id h)
  unfolding answer_initialize
  answer_initialize-Quiet phone id h = ground arith

  pub forward_request-Quiet :
      (phone : ℕ) (origin obj : J.Value) (h : Hub) → Quiet c h (forward_request phone origin obj h)
  unfolding forward_request alloc_req
  forward_request-Quiet phone origin obj h = grind (arith, send_phone-Quiet)

  pub forward_notification-Quiet :
      (obj : J.Value) (h : Hub) → Quiet c h (forward_notification obj h)
  unfolding forward_notification
  forward_notification-Quiet obj h = ground arith

  pub on_phone_reply-Quiet :
      (phone : ℕ) (origin obj : J.Value) (h : Hub) → Quiet c h (on_phone_reply phone origin obj h)
  unfolding on_phone_reply answer_claim
  on_phone_reply-Quiet phone origin obj h = grind (arith, forward_notification-Quiet)

  watch_named-Quiet : (phone : ℕ) (obj : J.Value) (h : Hub) → Quiet c h (watch_named phone obj h)
  unfolding watch_named
  watch_named-Quiet phone obj h = grind (arith, watch-Quiet)

  unwatch_named-Quiet :
      (phone : ℕ) (obj : J.Value) (h : Hub) → Quiet c h (unwatch_named phone obj h)
  unfolding unwatch_named
  unwatch_named-Quiet phone obj h = grind (arith, unwatch-Quiet)

  refuse-Quiet : (phone : ℕ) (id : J.Value) (h : Hub) → Quiet c h (refuse phone id h)
  unfolding refuse
  refuse-Quiet phone id h = send_phone-Quiet phone _ h

  pub on_phone_request-Quiet :
      (phone : ℕ) (method : String) (id obj : J.Value) (h : Hub)
      → Quiet c h (on_phone_request phone method id obj h)
  on_phone_request-Quiet phone method id obj h =
      on_phone_request_cases (Quiet c h) phone method id obj h (answer_initialize-Quiet phone id h)
        (send_phone-Quiet phone _ h)
        (Quiet-trans (watch_named-Quiet phone obj h) (forward_request-Quiet phone id obj _))
        (Quiet-trans (unwatch_named-Quiet phone obj h) (forward_request-Quiet phone id obj _))
        (refuse-Quiet phone id h) (forward_request-Quiet phone id obj h)

  pub on_rpc-Quiet : (phone : ℕ) (obj : J.Value) (h : Hub) → Quiet c h (on_rpc phone obj h)
  unfolding on_rpc
  on_rpc-Quiet phone obj h =
      grind (arith, on_phone_request-Quiet, forward_notification-Quiet, on_phone_reply-Quiet)

  pub on_phone_text-Quiet :
      (phone : ℕ) (text : String) (h : Hub) → Quiet c h (on_phone_text phone text h)
  unfolding on_phone_text
  on_phone_text-Quiet phone text h = grind (arith, on_rpc-Quiet, send_phone-Quiet)

  pub on_phone_eof-Quiet : (phone : ℕ) (h : Hub) → Quiet c h (on_phone_eof phone h)
  unfolding on_phone_eof drop_phone
  on_phone_eof-Quiet phone h = ground arith
