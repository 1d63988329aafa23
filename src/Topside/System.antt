-- ===== src/Topside/System.antt =====
-- crates/topside as a whole: `serve` of crates/topside/src/net.rs with the hub's task and the tasks
-- of all connections, interleaved in any order.
pub mod Turns
pub mod Counted
pub mod Calls
pub mod Sound
pub mod Reached
pub mod Admitted
pub mod Updates
use aqualung.Common.{
  ℕ, ◌+◌, ◌<◌, ◌≡◌, ◌≢◌, Bool, true, false, ◌&&◌, Option, none, some, List, [], ◌∷◌, ◌++◌, ◌==◌,
  nat_eq, if◌then◌else◌, ok, String,
}
use aqualung.Common.Lists.{get_elem?}
use aqualung.Json.{Json}
use aqualung.Pki.{Pki}
use aqualung.Wire.{LeaderClient}
use aqualung.Hub.Link.{Effect, leader_closed, home_bound, for_leader, for_phone}
use aqualung.Hub.State.{Hub, new_hub}
use aqualung.Hub.Slots.{current_deadline}
use aqualung.Hub.Run.{ToHub, accepted, phone_hello, shutdown_hub, handle, wake, shutdown}
use aqualung.Hub.Quiet.{signalled}
use aqualung.Hub.Callers.{given, closed_at}
use aqualung.Topside.Config.{ClientCertVerifier}
use aqualung.Topside.Net.Bearer.{Http, callback}
use aqualung.Topside.Net.Home
use aqualung.Topside.Net.Home.{Codec}
use aqualung.Topside.Net.Phone
use aqualung.Topside.Net.Telling
use aqualung.Topside.Net.Texting

-- The generation that the hub gave to a home connection, and whether its channel is closed.
abbrev pub bound_to : ℕ → List Effect → Option ℕ
bound_to i [] = none
bound_to i (home_bound bind home_gen ∷ sent) = if bind == i then some home_gen else bound_to i sent
bound_to i (_ ∷ sent) = bound_to i sent

abbrev pub leader_closed_at : ℕ → List Effect → Bool
leader_closed_at i [] = false
leader_closed_at i (leader_closed out ∷ sent) = if out == i then true else leader_closed_at i sent
leader_closed_at i (_ ∷ sent) = leader_closed_at i sent

-- Where the task of a home connection stands, with the certificate that it showed, if any. A loop has its
-- generation, and the number of messages that it has received from the hub.
pub data HomeTask (Cert : Type 0) : Type 0 where
  no_home : HomeTask Cert
  home_waits : Cert → HomeTask Cert
  home_loops : Cert → ℕ → ℕ → Home.Conn → HomeTask Cert
  home_ended : Cert → HomeTask Cert

-- Where the task of a phone stands, with the request that the phone sent, and the number that the
-- hub gave it.
pub data PhoneTask (Request : Type 0) : Type 0 where
  no_phone : PhoneTask Request
  phone_waits : Request → PhoneTask Request
  phone_loops : Request → ℕ → ℕ → Phone.Conn → PhoneTask Request
  phone_ended : Request → ℕ → PhoneTask Request

unfoldable pub after_home : {Cert : Type 0} → Cert → ℕ → ℕ → Option Home.Conn → HomeTask Cert
after_home cert home_gen taken none = home_ended cert
after_home cert home_gen taken (some c) = home_loops cert home_gen taken c

unfoldable pub after_phone :
    {Request : Type 0} → Request → ℕ → ℕ → Option Phone.Conn → PhoneTask Request
after_phone req phone taken none = phone_ended req phone
after_phone req phone taken (some c) = phone_loops req phone taken c

-- The messages received behind an event.
unfoldable pub home_taken : ℕ → Home.Event → ℕ
home_taken taken (Home.command (some msg)) = taken + 1
home_taken taken _ = taken

unfoldable pub phone_taken : ℕ → Phone.Event → ℕ
phone_taken taken (Phone.outgoing (some text)) = taken + 1
phone_taken taken _ = taken

-- `f` with another value at one place.
unfoldable pub update : {A : Type 0} → (ℕ → A) → ℕ → A → ℕ → A
update f i a j = if i == j then a else f j

module _ ⦃J : Json⦄ ⦃P : Pki⦄ ⦃H : Http⦄ where
  -- The hub, the messages on their way to it, and the tasks. A connection has one number for the
  -- channels that it gives the hub.
  pub record System : Type 0 where
    pub hub : Hub
    pub running : Bool
    pub stopping : Bool
    pub queue : List ToHub
    pub homes : ℕ
    pub home_tasks : ℕ → HomeTask (Option P.Cert)
    pub callers : ℕ
    pub phone_tasks : ℕ → PhoneTask H.Request

  -- `serve` before the first connection.
  unfoldable pub idle : System
  unfolding new_hub
  idle = record {
    hub = new_hub;
    running = true;
    stopping = false;
    queue = [];
    homes = 0;
    home_tasks = λ i. no_home;
    callers = 0;
    phone_tasks = λ i. no_phone;
  }

  -- What `select!` can take in a loop: a message only in its turn, the end of the channel only when
  -- the hub has dropped it and all messages are received, the halt only if it was sent.
  abbrev pub HomeMeets : System → ℕ → ℕ → Home.Event → Type 0
  HomeMeets s i taken (Home.command (some msg)) =
      get_elem? (for_leader i s.hub.sent) taken ≡ some msg
  HomeMeets s i taken (Home.command none) =
      (get_elem? (for_leader i s.hub.sent) taken ≡ none) × (leader_closed_at i s.hub.sent ≡ true)
  HomeMeets s i taken Home.halt_received = 0 < signalled i s.hub.sent
  HomeMeets s i taken Home.hub_ends = s.running ≡ false
  HomeMeets s i taken _ = Unit {0}

  abbrev pub PhoneMeets : System → ℕ → ℕ → Phone.Event → Type 0
  PhoneMeets s i taken (Phone.outgoing (some text)) =
      get_elem? (for_phone i s.hub.sent) taken ≡ some text
  PhoneMeets s i taken (Phone.outgoing none) =
      (get_elem? (for_phone i s.hub.sent) taken ≡ none) × (closed_at i s.hub.sent ≡ true)
  PhoneMeets s i taken Phone.hub_ends = s.running ≡ false
  PhoneMeets s i taken _ = Unit {0}

  -- A loop's view of the hub is that of the system.
  abbrev pub home_view : System → Home.Conn → Home.Conn
  home_view s c = record c { hub_open = s.running }

  abbrev pub phone_view : System → Phone.Conn → Phone.Conn
  phone_view s c = record c { hub_open = s.running }

  -- A task takes a turn, and what it tells the hub goes behind what is on its way.
  abbrev pub home_goes :
      System → ℕ → Option P.Cert → ℕ → ℕ → List Home.Output × Option Home.Conn → System
  home_goes s i cert home_gen taken (outs, next) = record s {
    queue = s.queue ++ Telling.messages outs;
    home_tasks = update s.home_tasks i (after_home cert home_gen taken next);
  }

  abbrev pub phone_goes :
      System → ℕ → H.Request → ℕ → ℕ → List Phone.Output × Option Phone.Conn → System
  phone_goes s i req phone taken (outs, next) = record s {
    queue = s.queue ++ Texting.messages outs;
    phone_tasks = update s.phone_tasks i (after_phone req phone taken next);
  }

  -- The handshake of rustls: without `offer_client_auth` no certificate is asked for, a client that is
  -- asked may show none unless `client_auth_mandatory`, and one that is shown is verified.
  abbrev pub LetsIn : ClientCertVerifier → Option P.Cert → List P.Cert → ℕ → Type 0
  LetsIn verifier none chain now =
      (verifier.offer_client_auth && verifier.client_auth_mandatory) ≡ false
  LetsIn verifier (some cert) chain now =
      (verifier.offer_client_auth ≡ true) × (verifier.verify_client_cert cert chain now ≡ ok tt)

  -- One step, of a verifier and a token. The handshake of TLS asks the verifier, that of the
  -- WebSocket the callback; a connection that either refuses tells the hub nothing.
  pub data Step ⦃S : Codec⦄ (verifier : ClientCertVerifier) (token : List ℕ) (s : System)
      : System → Type 0 where
    home_arrives :
        (cert : Option P.Cert) (chain : List P.Cert) (now : ℕ)
        → s.running ≡ true
        → LetsIn verifier cert chain now
        → Step verifier token s (record s {
          queue = s.queue ++ accepted s.homes s.homes s.homes ∷ [];
          homes = s.homes + 1;
          home_tasks = update s.home_tasks s.homes (home_waits cert);
        })
    phone_arrives :
        (req : H.Request)
        → s.running ≡ true
        → callback token req ≡ ok tt
        → Step verifier token s (record s {
          queue = s.queue ++ phone_hello s.callers s.callers ∷ [];
          callers = s.callers + 1;
          phone_tasks = update s.phone_tasks s.callers (phone_waits req);
        })
    hub_takes :
        (now : ℕ) (msg : ToHub) (rest : List ToHub)
        → s.running ≡ true
        → s.queue ≡ msg ∷ rest
        → msg ≢ shutdown_hub
        → Step verifier token s (record s { hub = handle now msg s.hub; queue = rest })
    hub_wakes :
        (now : ℕ)
        → s.running ≡ true
        → Step verifier token s (record s { hub = wake now (current_deadline s.hub) s.hub })
    serve_stops :
        s.stopping ≡ false
        → s.running ≡ true
        → Step verifier token s (record s { stopping = true; queue = s.queue ++ shutdown_hub ∷ [] })
    hub_ends :
        (rest : List ToHub)
        → s.running ≡ true
        → s.queue ≡ shutdown_hub ∷ rest
        → Step verifier token s (record s { hub = shutdown s.hub; queue = []; running = false })
    home_binds :
        (i home_gen : ℕ) (cert : Option P.Cert) (c : Home.Conn)
        → s.home_tasks i ≡ home_waits cert
        → bound_to i s.hub.sent ≡ some home_gen
        → Step verifier token s
            (home_goes s i cert home_gen 0 (Home.registration home_gen (home_view s c)))
    home_turns :
        (i home_gen taken : ℕ) (cert : Option P.Cert) (c : Home.Conn) (event : Home.Event)
        → s.home_tasks i ≡ home_loops cert home_gen taken c
        → HomeMeets s i taken event
        → Step verifier token s (
            home_goes s i cert home_gen
              (home_taken taken event)
              (Home.step home_gen (home_view s c) event))
    phone_binds :
        (i phone : ℕ) (req : H.Request) (c : Phone.Conn)
        → s.phone_tasks i ≡ phone_waits req
        → given i s.hub.sent ≡ some phone
        → Step verifier token s (phone_goes s i req phone 0 ([], some c))
    phone_turns :
        (i phone taken : ℕ) (req : H.Request) (c : Phone.Conn) (event : Phone.Event)
        → s.phone_tasks i ≡ phone_loops req phone taken c
        → PhoneMeets s i taken event
        → Step verifier token s (
            phone_goes s i req phone
              (phone_taken taken event)
              (Phone.step phone (phone_view s c) event))

  pub data Reach ⦃S : Codec⦄ (verifier : ClientCertVerifier) (token : List ℕ)
      : System → Type 0 where
    at_start : Reach verifier token idle
    later :
        {s t : System} → Reach verifier token s → Step verifier token s t → Reach verifier token t
