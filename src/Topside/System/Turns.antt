-- ===== src/Topside/System/Turns.antt =====
-- What one turn of a connection's task tells the hub, in crates/topside/src/net.rs.
use aqualung.Common.{
  ℕ, ◌≡◌, refl, true, Option, none, some, List, [], ◌∷◌, ◌⊎◌, inr, ok, err, arith,
}
use aqualung.Common.Lists.{total}
use aqualung.Hub.Run.{
  ToHub, accepted, home_frame, home_eof, phone_hello, phone_text, phone_eof, shutdown_hub,
}
use aqualung.Topside.Net.Home
use aqualung.Topside.Net.Telling
use aqualung.Topside.Net.Telling.{Turn, silent, frame, writing, ending}
use aqualung.Topside.Net.Phone
use aqualung.Topside.Net.Phone.{
  text_message, binary, ping_message, pong_message, close, frame_message, sink_fails, hub_ends,
  incoming, outgoing,
}
use aqualung.Topside.Net.Texting

-- A message of a connection that the hub knows, which is what a task tells in its turns.
abbrev pub Known : ToHub → Type 0
Known (accepted _ _ _) = ⊥
Known (home_frame _ _) = Unit {0}
Known (home_eof _) = Unit {0}
Known (phone_hello _ _) = ⊥
Known (phone_text _ _) = Unit {0}
Known (phone_eof _) = Unit {0}
Known shutdown_hub = ⊥

abbrev pub AllKnown : List ToHub → Type 0
AllKnown [] = Unit {0}
AllKnown (msg ∷ more) = Known msg × AllKnown more

pub total-Known :
    (w : ToHub → ℕ) (msgs : List ToHub)
    → ((msg : ToHub) → Known msg → w msg ≡ 0)
    → AllKnown msgs
    → total w msgs ≡ 0
total-Known w [] z k = refl
total-Known w (msg ∷ more) z k = omega (arith, z msg k.0, total-Known w more z k.1)

pub Turn-AllKnown :
    (home_gen : ℕ) (turn : List Home.Output × Option Home.Conn)
    → Turn home_gen turn
    → AllKnown (Telling.messages turn.0)
unfolding Telling.messages
Turn-AllKnown home_gen _ (silent next) = tt
Turn-AllKnown home_gen _ (frame msg next) = (tt, tt)
Turn-AllKnown home_gen _ (writing bytes next) = tt
Turn-AllKnown home_gen _ ending = (tt, tt)

pub phone_step-AllKnown :
    (phone : ℕ) (c : Phone.Conn) (event : Phone.Event)
    → AllKnown (Texting.messages (Phone.step phone c event).0)
unfolding Phone.step Phone.on_incoming Phone.ending Phone.tell Phone.put Texting.messages
phone_step-AllKnown phone c sink_fails = tt
phone_step-AllKnown phone c hub_ends = tt
phone_step-AllKnown phone c (incoming (some (ok (text_message text)))) = ground arith
phone_step-AllKnown phone c (incoming (some (ok (ping_message payload)))) = ground arith
phone_step-AllKnown phone c (incoming (some (ok (pong_message payload)))) = tt
phone_step-AllKnown phone c (incoming (some (ok frame_message))) = tt
phone_step-AllKnown phone c (incoming (some (ok (binary payload)))) = tt
phone_step-AllKnown phone c (incoming (some (ok close))) = ground arith
phone_step-AllKnown phone c (incoming (some (err e))) = ground arith
phone_step-AllKnown phone c (incoming none) = ground arith
phone_step-AllKnown phone c (outgoing none) = tt
phone_step-AllKnown phone c (outgoing (some text)) = ground arith

-- While the hub runs, a phone's loop ends with the word of its end, or because the hub has dropped
-- the phone's channel.
pub phone_step-ending :
    (phone : ℕ) (c : Phone.Conn) (event : Phone.Event)
    → c.hub_open ≡ true
    → (Phone.step phone c event).1 ≡ none
    → (Texting.messages (Phone.step phone c event).0 ≡ phone_eof phone ∷ [])
      ⊎ (event ≡ outgoing none)
unfolding Phone.step Phone.on_incoming Phone.ending Phone.tell Phone.put Texting.messages
phone_step-ending phone c sink_fails there h = cc
phone_step-ending phone c hub_ends there h = cc
phone_step-ending phone c (incoming (some (ok (text_message text)))) there h = ground arith
phone_step-ending phone c (incoming (some (ok (ping_message payload)))) there h = cc
phone_step-ending phone c (incoming (some (ok (pong_message payload)))) there h = cc
phone_step-ending phone c (incoming (some (ok frame_message))) there h = cc
phone_step-ending phone c (incoming (some (ok (binary payload)))) there h = cc
phone_step-ending phone c (incoming (some (ok close))) there h = ground arith
phone_step-ending phone c (incoming (some (err e))) there h = ground arith
phone_step-ending phone c (incoming none) there h = ground arith
phone_step-ending phone c (outgoing none) there h = inr refl
phone_step-ending phone c (outgoing (some text)) there h = ground arith
