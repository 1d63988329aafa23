-- ===== src/Hub/Link.antt =====
-- The connections of crates/topside/src/hub.rs: `Link`, `Incoming`, `Replace`, `Home`, and what the
-- hub does to the world outside it.
use aqualung.Common.{
  ℕ, String, Bool, true, false, Option, none, some, List, [], ◌∷◌, ◌++◌, Result, ok, err, ◌==◌,
  nat_eq, if◌then◌else◌,
}
use aqualung.Wire.{LeaderClient}
use aqualung.Hub.Loads.{PendingLoads}

-- What the hub sends on its channels, which are numbered. A channel is closed when its sender is
-- dropped.
pub data Effect : Type 0 where
  to_leader : ℕ → LeaderClient → Effect
  to_phone : ℕ → String → Effect
  halted : ℕ → Effect
  leader_closed : ℕ → Effect
  phone_closed : ℕ → Effect
  home_bound : ℕ → ℕ → Effect
  phone_bound : ℕ → ℕ → Effect

-- What the hub has sent to a leader and to a phone, the oldest first.
abbrev pub for_leader : ℕ → List Effect → List LeaderClient
for_leader i [] = []
for_leader i (to_leader out msg ∷ sent) =
    if out == i then for_leader i sent ++ msg ∷ [] else for_leader i sent
for_leader i (_ ∷ sent) = for_leader i sent

abbrev pub for_phone : ℕ → List Effect → List String
for_phone i [] = []
for_phone i (to_phone out text ∷ sent) =
    if out == i then for_phone i sent ++ text ∷ [] else for_phone i sent
for_phone i (_ ∷ sent) = for_phone i sent

pub record Link : Type 0 where
  pub home_gen : ℕ
  pub out : ℕ
  pub halt : Option ℕ

-- `Drop for Link`, and then the drop of its fields. The newest effect stands first.
unfoldable pub drop_link : Link → List Effect → List Effect
drop_link link sent = elim link.halt [
  | none ↦ leader_closed link.out ∷ sent
  | some halt ↦ leader_closed link.out ∷ halted halt ∷ sent
]

pub record Live : Type 0 where
  pub link : Link

pub data Incoming : Type 0 where
  wait_registered : Link → ℕ → Incoming
  wait_ready : Link → ℕ → Incoming
  wait_initialize : Link → Incoming
  wait_loads : Link → PendingLoads → Incoming
  ready : Link → Incoming

-- `Incoming::link` and `Incoming::take_link`
unfoldable pub link_of : Incoming → Link
link_of (wait_registered link _) = link
link_of (wait_ready link _) = link
link_of (wait_initialize link) = link
link_of (wait_loads link _) = link
link_of (ready link) = link

unfoldable pub deadline_of : Incoming → Option ℕ
deadline_of (wait_registered _ deadline) = some deadline
deadline_of (wait_ready _ deadline) = some deadline
deadline_of (wait_initialize _) = none
deadline_of (wait_loads _ _) = none
deadline_of (ready _) = none

unfoldable pub into_live : Incoming → Result Live Incoming
into_live (ready link) = ok (record { link = link })
into_live (wait_registered link deadline) = err (wait_registered link deadline)
into_live (wait_ready link deadline) = err (wait_ready link deadline)
into_live (wait_initialize link) = err (wait_initialize link)
into_live (wait_loads link pending) = err (wait_loads link pending)

pub record Replace : Type 0 where
  pub incumbent : Live
  pub incoming : Incoming

pub record Armed : Type 0 where
  pub incumbent : Live
  pub successor : Live

unfoldable pub abort : Replace → List Effect → Live × List Effect
unfolding drop_link link_of
abort rep sent = (rep.incumbent, drop_link (link_of rep.incoming) sent)

unfoldable pub arm : Replace → Result Armed Replace
unfolding into_live
arm rep = elim (into_live rep.incoming) [
  | ok successor ↦ ok (record { incumbent = rep.incumbent; successor = successor })
  | err incoming ↦ err (record { incumbent = rep.incumbent; incoming = incoming })
]

unfoldable pub cutover : Armed → List Effect → Live × List Effect
unfolding drop_link
cutover armed sent = (armed.successor, drop_link armed.incumbent.link sent)

pub data Home : Type 0 where
  away : Home
  bringing_up : Incoming → Home
  sole : Live → Home
  dual : Replace → Home

-- `Home::away`
unfoldable pub is_away : Home → Bool
is_away away = true
is_away (bringing_up _) = true
is_away (sole _) = false
is_away (dual _) = false

pub data Role : Type 0 where
  mux candidate unknown : Role
