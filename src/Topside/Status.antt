-- ===== src/Topside/Status.antt =====
-- How topside ends: the status of the program.
use aqualung.Common.{ℕ, ◌≤◌, ◌≡◌, ◌≢◌, refl, ◌↔◌, ◌∙◌, ap, Result, ok, err, arith}
use aqualung.Pki.{Pki}
use aqualung.Topside.Pem.{ConfigError}
use aqualung.Topside.Config.{Cli, ServerTls, Fault, config_error, out_of_bounds, Config, load}
use aqualung.Topside.Pinning.{load_faults}
use aqualung.Topside.Server.{Sockets, BindError, RunError, Server, bind}
use aqualung.Topside.Main.{panicked, exit_of, main_with, main_of, main}

beyond : (n : ℕ) → n ≤ 1 → n ≢ 2
beyond n small = omega (arith, small)

module _ ⦃P : Pki⦄ ⦃T : ServerTls⦄ ⦃N : Sockets⦄ where
  -- The server was configured, bound and served.
  pub record Served (read : Result Config Fault) (signals : Result (Unit {0}) P.IoError)
      (served : Server → Result (Unit {0}) RunError) : Type 0 where
    pub config : Config
    pub server : Server
    pub loaded : read ≡ ok config
    pub handlers : signals ≡ ok tt
    pub bound : bind config ≡ ok server
    pub ended : served server ≡ ok tt

  main_with-zero :
      (config : Config) (signals : Result (Unit {0}) P.IoError)
      (served : Server → Result (Unit {0}) RunError)
      → main_with config signals served ≡ 0
      → Served (ok config) signals served
  unfolding main_with exit_of
  main_with-zero config (err error) served h = ground arith
  main_with-zero config (ok _) served h = go (bind config) refl
    where
      go : (b : Result Server BindError) → bind config ≡ b → Served (ok config) (ok tt) served
      go (err error) e = ground arith
      go (ok server) e = record {
        config = config;
        server = server;
        loaded = refl;
        handlers = refl;
        bound = e;
        ended = ground arith;
      }

  main_with-Served :
      (config : Config) (signals : Result (Unit {0}) P.IoError)
      (served : Server → Result (Unit {0}) RunError)
      → Served (ok config) signals served
      → main_with config signals served ≡ 0
  unfolding main_with exit_of
  main_with-Served config signals served s =
      let same : config ≡ s.config = cc (s.loaded) in
      let bound : bind config ≡ ok s.server = ap bind same ∙ s.bound in
      rw (s.handlers, main_with, bound, s.ended) refl

  main_with-le :
      (config : Config) (signals : Result (Unit {0}) P.IoError)
      (served : Server → Result (Unit {0}) RunError)
      → main_with config signals served ≤ 1
  unfolding main_with exit_of
  main_with-le config (err error) served = omega arith
  main_with-le config (ok _) served = ground arith

  main_of_status :
      (read : Result Config Fault) (signals : Result (Unit {0}) P.IoError)
      (served : Server → Result (Unit {0}) RunError)
      → read ≢ err out_of_bounds
      → ((main_of read signals served ≡ 2)
          ↔ ((error : ConfigError) × (read ≡ err (config_error error))))
        × ((main_of read signals served ≡ 0) ↔ Served read signals served)
        × (main_of read signals served ≢ panicked)
  unfolding main_of
  main_of_status (err (config_error error)) signals served within = (
    (λ h. (error, refl), λ h. refl),
    (λ h. ground arith, λ s. ground (arith, s.loaded)),
    λ h. ground arith,
  )
  main_of_status (err out_of_bounds) signals served within = elim (within refl) [ ]
  main_of_status (ok config) signals served within =
      let small = main_with-le config signals served in
      (
        (
          λ h. elim (beyond (main_with config signals served) small h) [ ],
          λ h. ground (arith, h.1),
        ),
        (main_with-zero config signals served, main_with-Served config signals served),
        λ h. omega (arith, small, h),
      )

  -- The program exits with 2 exactly if it is configured badly, with 0 exactly if it was configured,
  -- bound and served, and it does not panic while it loads its configuration.
  pub main_status :
      (cli : Cli) (signals : Result (Unit {0}) P.IoError)
      (served : Server → Result (Unit {0}) RunError)
      → ((main cli signals served ≡ 2)
          ↔ ((error : ConfigError) × (load cli ≡ err (config_error error))))
        × ((main cli signals served ≡ 0) ↔ Served (load cli) signals served)
        × (main cli signals served ≢ panicked)
  unfolding main
  main_status cli signals served = main_of_status (load cli) signals served (load_faults cli).0
