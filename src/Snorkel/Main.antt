-- ===== src/Snorkel/Main.antt =====
-- crates/snorkel/src/main.rs: the status with which the program exits.
use aqualung.Common.{ℕ, String, Bool, ◌≡◌, ap, ◌↔◌, refl, Result, ok, err, arith}
use aqualung.Pki.{Pki}
use aqualung.Snorkel.Pem.{ConfigError}
use aqualung.Snorkel.Config.{Names, ClientTls, Config, load}
use aqualung.Snorkel.Link.{Report}

pub record Cli : Type 0 where
  pub socket : String
  pub server : String
  pub cert : String
  pub key : String
  pub ca : String
  pub once : Bool

module _ ⦃P : Pki⦄ ⦃N : Names⦄ ⦃T : ClientTls⦄ where
  -- `snorkel::run`, which returns a report, or the text of a `FatalError`.
  abbrev pub Run : Type 0
  Run = Config → Result Report String

  unfoldable pub exit_of : Result Report String → ℕ
  exit_of (ok report) = 0
  exit_of (err error) = 1

  -- `main` behind `Config::load`, where `signals` is what `Shutdown::on_signals` returns.
  unfoldable pub main_of : Result Config ConfigError → Result (Unit {0}) P.IoError → Run → ℕ
  unfolding exit_of
  main_of (err error) signals run = 2
  main_of (ok config) (err error) run = 1
  main_of (ok config) (ok _) run = exit_of (run config)

  unfoldable pub main : Cli → Result (Unit {0}) P.IoError → Run → ℕ
  unfolding load main_of
  main cli signals run =
      main_of (load cli.socket cli.server cli.cert cli.key cli.ca cli.once) signals run

  -- The configuration was loaded, and the link ran to its end.
  pub record Served (read : Result Config ConfigError) (signals : Result (Unit {0}) P.IoError)
      (run : Run) : Type 0 where
    pub config : Config
    pub report : Report
    pub loaded : read ≡ ok config
    pub handlers : signals ≡ ok tt
    pub ended : run config ≡ ok report

  main_of_status :
      (read : Result Config ConfigError) (signals : Result (Unit {0}) P.IoError) (run : Run)
      → ((main_of read signals run ≡ 2) ↔ ((error : ConfigError) × (read ≡ err error)))
        × ((main_of read signals run ≡ 0) ↔ Served read signals run)
  unfolding main_of exit_of
  main_of_status (err error) signals run =
      ((λ h. (error, refl), λ h. refl), (λ h. ground arith, λ s. ground (arith, s.loaded)))
  main_of_status (ok config) (err error) run = (
    (λ h. ground arith, λ h. ground (arith, h.1)),
    (λ h. ground arith, λ s. ground (arith, s.handlers)),
  )
  main_of_status (ok config) (ok _) run = go (run config) refl
    where
      go :
          (r : Result Report String)
          → run config ≡ r
          → ((main_of (ok config) (ok tt) run ≡ 2)
              ↔ ((error : ConfigError) × (ok config ≡ err error)))
            × ((main_of (ok config) (ok tt) run ≡ 0) ↔ Served (ok config) (ok tt) run)
      go (ok report) e = (
        (λ h. ground (arith, e), λ h. ground (arith, h.1)),
        (
          λ h. record {
            config = config;
            report = report;
            loaded = refl;
            handlers = refl;
            ended = e;
          },
          λ s. rw e refl,
        ),
      )
      go (err error) e = (
        (λ h. ground (arith, e), λ h. ground (arith, h.1)),
        (
          λ h. ground (arith, e),
          λ s.
              (let same : config ≡ s.config = cc (s.loaded) in
                ground (arith, e, ap run same, s.ended)),
        ),
      )

  -- The program exits with 2 exactly if its configuration cannot be loaded, and with 0 exactly if the
  -- configuration was loaded, the signals have handlers, and the link ran to its end without an error.
  pub snorkel_status :
      (cli : Cli) (signals : Result (Unit {0}) P.IoError) (run : Run)
      → let read = load cli.socket cli.server cli.cert cli.key cli.ca cli.once in
        ((main cli signals run ≡ 2) ↔ ((error : ConfigError) × (read ≡ err error)))
        × ((main cli signals run ≡ 0) ↔ Served read signals run)
  unfolding main
  snorkel_status cli signals run =
      main_of_status (load cli.socket cli.server cli.cert cli.key cli.ca cli.once) signals run
