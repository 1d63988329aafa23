-- ===== src/Hub/Run.antt =====
-- `handle`, `shutdown` and the loop `run` of crates/topside/src/hub.rs.
use aqualung.Common.{ℕ, String, Option, none, some, List, [], ◌∷◌, leb, if◌then◌else◌}
use aqualung.Common.HashMap.{HashMap}
use aqualung.Json.{Json}
use aqualung.Wire.{LeaderServer}
use aqualung.Hub.Link.{
  Effect, phone_closed, drop_link, link_of, abort, Home, away, bringing_up, sole, dual,
}
use aqualung.Hub.State.{Hub, Phone, phone_out, dropping}
use aqualung.Hub.Slots.{on_accepted, on_home_eof, on_deadline, current_deadline}
use aqualung.Hub.Watching.{on_phone_eof}
use aqualung.Hub.FromHome.Frames.{on_home_frame}
use aqualung.Hub.FromPhone.{on_phone_hello, on_phone_text}

-- The channels of a message are the numbers in it.
pub data ToHub : Type 0 where
  accepted : ℕ → ℕ → ℕ → ToHub
  home_frame : ℕ → LeaderServer → ToHub
  home_eof : ℕ → ToHub
  phone_hello : ℕ → ℕ → ToHub
  phone_text : ℕ → String → ToHub
  phone_eof : ℕ → ToHub
  shutdown_hub : ToHub

-- `self.phones.clear()` drops each phone, and with it the sender of its channel.
unfoldable pub close_phones : HashMap ℕ Phone → List Effect → List Effect
unfolding phone_out
close_phones [] sent = sent
close_phones ((_, slot) ∷ phones) sent = close_phones phones (phone_closed (phone_out slot) ∷ sent)

-- What the loop waits for: a message, the end of the channel, or the time of the deadline.
pub data Event : Type 0 where
  received : ToHub → Event
  closed : Event
  woken : Event

module _ ⦃J : Json⦄ where
  unfoldable pub drop_home : Home → Hub → Hub
  unfolding abort
  drop_home away h = h
  drop_home (bringing_up incoming) h = dropping (link_of incoming) h
  drop_home (sole live) h = dropping live.link h
  drop_home (dual rep) h =
      let (incumbent, sent) = abort rep h.sent in record h { sent = drop_link incumbent.link sent }

  unfoldable pub shutdown : Hub → Hub
  unfolding drop_home
  shutdown h =
      let gone = record (drop_home h.home h) { home = away } in
      record gone { phones = []; sent = close_phones gone.phones gone.sent }

  unfoldable pub handle : ℕ → ToHub → Hub → Hub
  handle now (accepted out halt bind) h = on_accepted now out halt bind h
  handle now (home_frame home_gen msg) h = on_home_frame now home_gen msg h
  handle now (home_eof home_gen) h = on_home_eof home_gen h
  handle now (phone_hello out bind) h = on_phone_hello out bind h
  handle now (phone_text phone text) h = on_phone_text phone text h
  handle now (phone_eof phone) h = on_phone_eof phone h
  handle now shutdown_hub h = shutdown h

  -- `sleep_until` ends at the deadline; without one it never ends.
  unfoldable pub wake : ℕ → Option ℕ → Hub → Hub
  wake now none h = h
  wake now (some deadline) h = if leb deadline now then on_deadline h else h

  -- The loop, over what happens and when. It ends at `Shutdown`, or when the channel ends.
  unfoldable pub run : Hub → List (ℕ × Event) → Hub
  run h [] = h
  run h ((now, received shutdown_hub) ∷ events) = shutdown h
  run h ((now, closed) ∷ events) = shutdown h
  run h ((now, received msg) ∷ events) = run (handle now msg h) events
  run h ((now, woken) ∷ events) = run (wake now (current_deadline h) h) events
