-- ===== src/Topside/Server.antt =====
-- crates/topside/src/lib.rs and crates/topside/src/shutdown.rs, with `serve` and the two accept loops
-- of crates/topside/src/net.rs.
use aqualung.Common.{
  ℕ, Bool, true, false, Option, none, some, List, [], ◌∷◌, ◌++◌, Result, ok, err, if◌then◌else◌,
}
use aqualung.Common.Results.{◌>>=◌, ◌>>◌, map_err}
use aqualung.Json.{Json}
use aqualung.Pki.{Pki}
use aqualung.Hub.State.{Hub, new_hub}
use aqualung.Hub.Run.{shutdown_hub, Event, received, run}
use aqualung.Topside.Config.{SocketAddr, ServerTls, Config}

-- The sockets of the system. `bind` is told how many have been bound before, since the answer may
-- depend on that.
pub record Sockets ⦃P : Pki⦄ : Type 1 where
  pub Listener : Type 0
  pub bind : ℕ → SocketAddr → Result Listener P.IoError
  pub local_addr : Listener → Result SocketAddr P.IoError

-- `Shutdown::on_signals`: the registrations of the two signals.
unfoldable pub on_signals :
    ⦃P : Pki⦄
    → Result (Unit {0}) P.IoError
    → Result (Unit {0}) P.IoError
    → Result (Unit {0}) P.IoError
on_signals interrupt terminate = do interrupt; terminate

-- `Shutdown::wait`, over the values that `changed` brings until the sender is dropped: whether it
-- returns.
unfoldable pub wait : Bool → List (Option Bool) → Bool
wait true changes = true
wait false [] = false
wait false (none ∷ changes) = true
wait false (some set ∷ changes) = wait set changes

-- What an accept loop takes: the shutdown, a connection, or an error of `accept`.
pub data Accept (Tcp : Type 0) : Type 0 where
  stops : Accept Tcp
  connects : Tcp → Accept Tcp
  fails : Accept Tcp

-- `snorkel_accept` and `phone_accept`: the streams for which they start a task.
unfoldable pub accept_loop : {Tcp : Type 0} → List (Accept Tcp) → List Tcp
accept_loop [] = []
accept_loop (stops ∷ more) = []
accept_loop (connects tcp ∷ more) = tcp ∷ accept_loop more
accept_loop (fails ∷ more) = accept_loop more

module _ ⦃P : Pki⦄ where
  pub data BindError : Type 0 where
    snorkel : P.IoError → BindError
    phone : P.IoError → BindError

  pub data RunError : Type 0 where
    bind_error : BindError → RunError
    hub : RunError

  -- `net::serve`: the hub's loop receives what the connections have sent when the shutdown comes, then
  -- `Shutdown`, then what they still send. `panics` is whether the hub's task ends by a panic, which
  -- leaves no hub; a good result comes with the hub as its loop has left it.
  unfoldable pub serve :
      ⦃J : Json⦄ → Bool → ℕ → List (ℕ × Event) → List (ℕ × Event) → Result Hub RunError
  unfolding run new_hub
  serve panics now before behind =
      if panics then err hub else ok (run new_hub (before ++ (now, received shutdown_hub) ∷ behind))

module _ ⦃P : Pki⦄ ⦃T : ServerTls⦄ ⦃N : Sockets⦄ where
  pub record Server : Type 0 where
    pub snorkel : SocketAddr
    pub phone : SocketAddr
    pub snorkel_listener : N.Listener
    pub phone_listener : N.Listener
    pub tls : T.ServerConfig
    pub token : List ℕ

  -- `Server::bind`
  unfoldable pub bind : Config → Result Server BindError
  bind config = do
    snorkel_listener ← map_err BindError.snorkel (N.bind 0 config.snorkel)
    phone_listener ← map_err BindError.phone (N.bind 1 config.phone)
    snorkel_addr ← map_err BindError.snorkel (N.local_addr snorkel_listener)
    phone_addr ← map_err BindError.phone (N.local_addr phone_listener)
    ok (record {
      snorkel = snorkel_addr;
      phone = phone_addr;
      snorkel_listener = snorkel_listener;
      phone_listener = phone_listener;
      tls = config.tls;
      token = config.token;
    })

  -- `run` of lib.rs, where `served` is what `Server::serve` returns.
  unfoldable pub run_server :
      Config → (Server → Result (Unit {0}) RunError) → Result (Unit {0}) RunError
  unfolding bind
  run_server config served = do server ← map_err bind_error (bind config); served server
