-- ===== src/Topside/Main.antt =====
-- crates/topside/src/main.rs: the status with which the program exits.
use aqualung.Common.{ℕ, Result, ok, err}
use aqualung.Pki.{Pki}
use aqualung.Topside.Config.{Cli, ServerTls, Fault, config_error, out_of_bounds, Config, load}
use aqualung.Topside.Server.{Sockets, RunError, Server, bind}

-- The status of a program that panics.
abbrev pub panicked : ℕ
panicked = 101

-- `ExitCode::FAILURE`
abbrev pub failure : ℕ
failure = 1

module _ ⦃P : Pki⦄ ⦃T : ServerTls⦄ ⦃N : Sockets⦄ where
  unfoldable pub exit_of : Result (Unit {0}) RunError → ℕ
  exit_of (ok _) = 0
  exit_of (err error) = failure

  -- `main` with the configuration, where `signals` is what `Shutdown::on_signals` returns and
  -- `served` what `Server::serve` does.
  unfoldable pub main_with :
      Config → Result (Unit {0}) P.IoError → (Server → Result (Unit {0}) RunError) → ℕ
  unfolding exit_of bind
  main_with config (err error) served = failure
  main_with config (ok _) served = elim (bind config) [
    | err error ↦ failure
    | ok server ↦ exit_of (served server)
  ]

  -- `main` behind `Config::load`.
  unfoldable pub main_of :
      Result Config Fault → Result (Unit {0}) P.IoError → (Server → Result (Unit {0}) RunError) → ℕ
  unfolding main_with
  main_of (err (config_error error)) signals served = 2
  main_of (err out_of_bounds) signals served = panicked
  main_of (ok config) signals served = main_with config signals served

  unfoldable pub main :
      Cli → Result (Unit {0}) P.IoError → (Server → Result (Unit {0}) RunError) → ℕ
  unfolding load main_of
  main cli signals served = main_of (load cli) signals served
