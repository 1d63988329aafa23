-- ===== src/Hub/Callers/Handling.antt =====
-- What each message does to the connections of the phones.
use aqualung.Common.{
  ℕ, ◌≡◌, refl, true, Option, none, some, ◌==◌, nat_eq, string_eq, if◌then◌else◌, arith, if_cases,
  leb, ◌⊎◌,
}
use aqualung.Json.{Json}
use aqualung.Hub.Loads.{next_id}
use aqualung.Hub.State.{Hub, connected, phone_out}
use aqualung.Hub.Slots.{on_accepted}
use aqualung.Hub.Watching.{drop_phone, on_phone_eof}
use aqualung.Hub.FromPhone.{on_phone_hello}
use aqualung.Hub.Run.{
  ToHub, accepted, home_frame, home_eof, phone_hello, phone_text, phone_eof, shutdown_hub, handle,
  wake,
}
use aqualung.Hub.Callers.{
  channel, channel-insert, channel-remove, given, closed_at, Steady, Steady-refl, Steady-trans,
  on_phone_text-Steady,
}
use aqualung.Hub.Callers.Homes.{
  place_incoming-Steady, on_deadline-Steady, on_home_eof-Steady, on_home_frame-Steady,
}

-- Messages that neither bring a phone nor take one away.
abbrev pub Plain : ToHub → Type 0
Plain (accepted _ _ _) = Unit {0}
Plain (home_frame _ _) = Unit {0}
Plain (home_eof _) = Unit {0}
Plain (phone_hello _ _) = ⊥
Plain (phone_text _ _) = Unit {0}
Plain (phone_eof _) = ⊥
Plain shutdown_hub = ⊥

module _ ⦃J : Json⦄ (i p : ℕ) where
  on_accepted-Steady :
      (now out halt bind : ℕ) (h : Hub) → Steady i p h (on_accepted now out halt bind h)
  unfolding on_accepted
  on_accepted-Steady now out halt bind h =
      Steady-trans (record { channel = refl; given = refl; closed = refl })
        (place_incoming-Steady i p h.home _ _)

  pub handle-Steady : (now : ℕ) (m : ToHub) (h : Hub) → Plain m → Steady i p h (handle now m h)
  unfolding handle
  handle-Steady now (accepted out halt bind) h plain = on_accepted-Steady now out halt bind h
  handle-Steady now (home_frame gen msg) h plain = on_home_frame-Steady i p now gen msg h
  handle-Steady now (home_eof gen) h plain = on_home_eof-Steady i p gen h
  handle-Steady now (phone_hello out bind) h plain = elim plain [ ]
  handle-Steady now (phone_text phone text) h plain = on_phone_text-Steady i p phone text h
  handle-Steady now (phone_eof phone) h plain = elim plain [ ]
  handle-Steady now shutdown_hub h plain = elim plain [ ]

  pub wake-Steady : (now : ℕ) (deadline : Option ℕ) (h : Hub) → Steady i p h (wake now deadline h)
  unfolding wake
  wake-Steady now none h = Steady-refl h
  wake-Steady now (some deadline) h =
      if_cases (Steady i p h) (leb deadline now) (on_deadline-Steady i p h) (Steady-refl h)

  -- A phone that says hello is given the next number.
  pub on_phone_hello-channel :
      (out bind : ℕ) (h : Hub)
      → (channel p (on_phone_hello out bind h).phones
          ≡ (if next_id h.next_phone == p then some out else channel p h.phones))
        × (given i (on_phone_hello out bind h).sent
            ≡ (if bind == i then some (next_id h.next_phone) else given i h.sent))
        × (closed_at i (on_phone_hello out bind h).sent ≡ closed_at i h.sent)
  unfolding on_phone_hello phone_out
  on_phone_hello-channel out bind h =
      (channel-insert (next_id h.next_phone) p (connected out) h.phones, refl, refl)

  -- A phone that has gone has no channel, and its channel is closed.
  pub on_phone_eof-channel :
      (phone : ℕ) (h : Hub)
      → (channel p (on_phone_eof phone h).phones
          ≡ (if phone == p then none else channel p h.phones))
        × (given i (on_phone_eof phone h).sent ≡ given i h.sent)
        × (closed_at i (on_phone_eof phone h).sent ≡ true
            → (closed_at i h.sent ≡ true) ⊎ (channel phone h.phones ≡ some i))
  unfolding on_phone_eof drop_phone channel
  on_phone_eof-channel phone h = (channel-remove phone p h.phones, ground arith, ground arith)
