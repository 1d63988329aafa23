-- ===== src/Hub/Invariant.antt =====
-- What holds of the hub's tables between two messages.
pub mod Agreement
pub mod Watching
pub mod Leaving
pub mod Keeping
pub mod Handling
pub mod Departed
pub mod Runs
use aqualung.Common.{
  ℕ, ◌+◌, ◌<◌, ◌≡◌, refl, Bool, true, false, Option, none, some, List, [], ◌∷◌, ◌==◌, nat_eq,
  string_eq, String, if◌then◌else◌, arith, is_some,
}
use aqualung.Common.HashMap.{HashMap, get, keys, DistinctKeys}
use aqualung.Common.HashSet.{contains}
use aqualung.Json.{Json}
use aqualung.Hub.State.{Hub, Phone, reverse_key_eq}
use aqualung.Hub.Invariant.Agreement.{Agree}

module _ ⦃J : Json⦄ where
  -- Of each session: it has a driver exactly if it is watched; the driver is one of the watchers,
  -- every watcher is a phone that is connected and has initialized, and none stands twice. A phone's id is at most the
  -- last that was given out. An id under which a phone was asked belongs to a connected phone, and
  -- its claim is there.
  pub record Inv (h : Hub) : Type 0 where
    pub watched : (s : String) → Agree h.phones (get s h.watchers) (get s h.driver)
    pub distinct : DistinctKeys h.watchers
    pub fresh : (p : ℕ) → h.next_phone < p → get p h.phones ≡ none
    pub asked :
        (k : ℕ × J.Value) (c : ℕ)
        → get k h.reverse ≡ some c
        → (is_some (get k.0 h.phones) ≡ true) × (is_some (get c h.claims) ≡ true)
