-- ===== src/Hub/Callers.antt =====
-- What the hub of crates/topside/src/hub.rs holds of a phone's connection and has sent to it: the
-- handlers that leave the connections of the phones as they are.
pub mod Homes
pub mod Handling
use aqualung.Common.{
  ℕ, ◌≡◌, refl, ◌∙◌, Bool, true, Option, none, some, List, [], ◌∷◌, ◌==◌, nat_eq, ==_iff,
  if◌then◌else◌, arith, String, option_split, if_cases,
}
use aqualung.Json.{Json}
use aqualung.Common.HashMap.{HashMap, get, insert, remove, get-insert, get-remove}
use aqualung.Wire.Rpc.{host_away_note}
use aqualung.Hub.Link.{
  Effect, to_leader, to_phone, halted, leader_closed, phone_closed, home_bound, phone_bound,
  is_away,
}
use aqualung.Hub.State.{
  Hub, Phone, connected, ready, phone_out, tell_ready, send_phone, broadcast_away, alloc_req,
}
use aqualung.Hub.Watching.{watch, unwatch}
use aqualung.Hub.FromPhone.{
  answer_initialize, forward_request, forward_notification, answer_claim, on_phone_reply,
  watch_named, unwatch_named, refuse, on_phone_request, on_phone_request_cases, on_rpc,
  on_phone_text,
}

-- The channel of the phone that has the number.
unfoldable pub channel : ℕ → HashMap ℕ Phone → Option ℕ
channel p phones = elim (get p phones) [ none ↦ none | some slot ↦ some (phone_out slot) ]

pub channel-insert :
    (q p : ℕ) (slot : Phone) (phones : HashMap ℕ Phone)
    → channel p (insert q slot phones)
      ≡ (if q == p then some (phone_out slot) else channel p phones)
unfolding channel
channel-insert q p slot phones = ground (arith, get-insert q p slot phones)

pub channel-remove :
    (q p : ℕ) (phones : HashMap ℕ Phone)
    → channel p (remove q phones) ≡ (if q == p then none else channel p phones)
unfolding channel
channel-remove q p phones = ground (arith, get-remove q p phones)

pub channel-get :
    (p : ℕ) (slot : Phone) (phones : HashMap ℕ Phone)
    → get p phones ≡ some slot
    → channel p phones ≡ some (phone_out slot)
unfolding channel
channel-get p slot phones e = rw (e, channel) refl

-- The number that the hub gave last to the connection.
abbrev pub given : ℕ → List Effect → Option ℕ
given i [] = none
given i (to_leader _ _ ∷ sent) = given i sent
given i (to_phone _ _ ∷ sent) = given i sent
given i (halted _ ∷ sent) = given i sent
given i (leader_closed _ ∷ sent) = given i sent
given i (phone_closed _ ∷ sent) = given i sent
given i (home_bound _ _ ∷ sent) = given i sent
given i (phone_bound bind p ∷ sent) = if bind == i then some p else given i sent

-- The hub has closed the connection's channel.
abbrev pub closed_at : ℕ → List Effect → Bool
closed_at i [] = Bool.false
closed_at i (to_leader _ _ ∷ sent) = closed_at i sent
closed_at i (to_phone _ _ ∷ sent) = closed_at i sent
closed_at i (halted _ ∷ sent) = closed_at i sent
closed_at i (leader_closed _ ∷ sent) = closed_at i sent
closed_at i (phone_closed out ∷ sent) = if out == i then true else closed_at i sent
closed_at i (home_bound _ _ ∷ sent) = closed_at i sent
closed_at i (phone_bound _ _ ∷ sent) = closed_at i sent

-- The phone's channel, what the connection was given, and whether its channel is closed.
pub record Steady ⦃J : Json⦄ (i p : ℕ) (h h' : Hub) : Type 0 where
  pub channel : channel p h'.phones ≡ channel p h.phones
  pub given : given i h'.sent ≡ given i h.sent
  pub closed : closed_at i h'.sent ≡ closed_at i h.sent

module _ ⦃J : Json⦄ {i p : ℕ} where
  pub Steady-refl : (h : Hub) → Steady i p h h
  Steady-refl h = record { channel = refl; given = refl; closed = refl }

  pub Steady-trans : {h h' h'' : Hub} → Steady i p h h' → Steady i p h' h'' → Steady i p h h''
  Steady-trans a b = record {
    channel = b.channel ∙ a.channel;
    given = b.given ∙ a.given;
    closed = b.closed ∙ a.closed;
  }

module _ ⦃J : Json⦄ (i p : ℕ) where
  tell_ready-given :
      (note : String) (phones : HashMap ℕ Phone) (sent : List Effect)
      → (given i (tell_ready note phones sent) ≡ given i sent)
        × (closed_at i (tell_ready note phones sent) ≡ closed_at i sent)
  unfolding tell_ready
  tell_ready-given note [] sent = (refl, refl)
  tell_ready-given note ((_, connected _) ∷ phones) sent = tell_ready-given note phones sent
  tell_ready-given note ((_, ready out) ∷ phones) sent =
      tell_ready-given note phones (to_phone out note ∷ sent)

  pub broadcast_away-Steady : (gone : Bool) (h : Hub) → Steady i p h (broadcast_away gone h)
  unfolding broadcast_away
  broadcast_away-Steady gone h =
      let (g, c) = tell_ready-given (host_away_note gone) h.phones h.sent in
      record { channel = refl; given = g; closed = c }

  pub send_phone-Steady :
      (phone : ℕ) (text : String) (h : Hub) → Steady i p h (send_phone phone text h)
  unfolding send_phone
  send_phone-Steady phone text h = ground arith

  pub watch-Steady :
      (phone : ℕ) (session : String) (h : Hub) → Steady i p h (watch phone session h).1
  unfolding watch
  watch-Steady phone session h = ground arith

  unwatch-Steady : (phone : ℕ) (session : String) (h : Hub) → Steady i p h (unwatch phone session h)
  unfolding unwatch
  unwatch-Steady phone session h = ground arith

  answer_initialize-Steady :
      (phone : ℕ) (id : J.Value) (h : Hub) → Steady i p h (answer_initialize phone id h)
  unfolding answer_initialize phone_out
  answer_initialize-Steady phone id h =
      option_split (Steady i p h) (get phone h.phones) (λ e. Steady-refl h)
        λ slot e.
          let back = channel-get phone slot h.phones e in
          let put = channel-insert phone p (ready (phone_out slot)) (remove phone h.phones) in
          let took = channel-remove phone p h.phones in
          if_cases (Steady i p h) (is_away h.home) (ground (arith, back, put, took, ==_iff phone p))
            (ground (arith, back, put, took, ==_iff phone p))

  pub forward_request-Steady :
      (phone : ℕ) (origin obj : J.Value) (h : Hub)
      → Steady i p h (forward_request phone origin obj h)
  unfolding forward_request alloc_req
  forward_request-Steady phone origin obj h = grind (arith, send_phone-Steady)

  forward_notification-Steady :
      (obj : J.Value) (h : Hub) → Steady i p h (forward_notification obj h)
  unfolding forward_notification
  forward_notification-Steady obj h = ground arith

  on_phone_reply-Steady :
      (phone : ℕ) (origin obj : J.Value) (h : Hub)
      → Steady i p h (on_phone_reply phone origin obj h)
  unfolding on_phone_reply answer_claim
  on_phone_reply-Steady phone origin obj h = grind (arith, forward_notification-Steady)

  watch_named-Steady :
      (phone : ℕ) (obj : J.Value) (h : Hub) → Steady i p h (watch_named phone obj h)
  unfolding watch_named
  watch_named-Steady phone obj h = grind (arith, watch-Steady)

  unwatch_named-Steady :
      (phone : ℕ) (obj : J.Value) (h : Hub) → Steady i p h (unwatch_named phone obj h)
  unfolding unwatch_named
  unwatch_named-Steady phone obj h = grind (arith, unwatch-Steady)

  refuse-Steady : (phone : ℕ) (id : J.Value) (h : Hub) → Steady i p h (refuse phone id h)
  unfolding refuse
  refuse-Steady phone id h = send_phone-Steady phone _ h

  on_phone_request-Steady :
      (phone : ℕ) (method : String) (id obj : J.Value) (h : Hub)
      → Steady i p h (on_phone_request phone method id obj h)
  on_phone_request-Steady phone method id obj h =
      on_phone_request_cases (Steady i p h) phone method id obj h
        (answer_initialize-Steady phone id h) (send_phone-Steady phone _ h)
        (Steady-trans (watch_named-Steady phone obj h) (forward_request-Steady phone id obj _))
        (Steady-trans (unwatch_named-Steady phone obj h) (forward_request-Steady phone id obj _))
        (refuse-Steady phone id h) (forward_request-Steady phone id obj h)

  on_rpc-Steady : (phone : ℕ) (obj : J.Value) (h : Hub) → Steady i p h (on_rpc phone obj h)
  unfolding on_rpc
  on_rpc-Steady phone obj h =
      grind (arith, on_phone_request-Steady, forward_notification-Steady, on_phone_reply-Steady)

  pub on_phone_text-Steady :
      (phone : ℕ) (text : String) (h : Hub) → Steady i p h (on_phone_text phone text h)
  unfolding on_phone_text
  on_phone_text-Steady phone text h = grind (arith, on_rpc-Steady, send_phone-Steady)
