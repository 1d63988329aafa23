-- ===== src/Tests/SnorkelExamples.antt =====
-- The sessions and the configuration of snorkel at concrete inputs.
use aqualung.Common.{
  ℕ, ◌*◌, ◌/◌, String, ◌≡◌, ◌↔◌, ◌⊎◌, refl, true, false, Option, none, some, List, [], ◌∷◌,
  string_eq, ok, err, arith,
}
use aqualung.Common.Decimal.{decimal, decimal_from, digit}
use aqualung.Common.Trim.{trim}
use aqualung.Snorkel.Session.{Outcome, local, remote}
use aqualung.Snorkel.Link.{Jitter, down, stopped, no_report, step}
use aqualung.Snorkel.Copy.{
  split, fresh_half, reads, writes, on_read, on_reading, on_writing, half_step, copy_half,
  ending_of, select, copying, error_of, halves, outcome_of, run_session,
}
use aqualung.Snorkel.Reporting.{Reported, run_session-Reported}
use aqualung.Snorkel.Copying.{rounds, finished, copy_half-ends}
use aqualung.Snorkel.Pem.{ConfigError}
use aqualung.Snorkel.Config.{
  Endpoint, parse_digits, in_u16, at_least_one_digit, parse_u16, rsplit_once, strip, non_zero,
  parse_port, named, host_port, parse_trimmed, parse, Config, load,
}
use aqualung.Snorkel.Endpoints.{IsPort, written, parse-IsPortIn, parse-host_port}
use aqualung.Snorkel.Shutdown.{replaced, wait}
use aqualung.Snorkel.Run.{Scene, stops, meets_down, session_of, meet, run_link, run}
use aqualung.Snorkel.Totals.{Tally}
use aqualung.Snorkel.Totals.Runs.{run-Tally}
use aqualung.Snorkel.Main.{Cli, Run, main, Served, snorkel_status}
use aqualung.Tests.SamplePki.{pki, names, client_tls, network}

abbrev spoken : Outcome
spoken = record { ended_by = local; error = none; to_remote = 2; to_local = 0; lasted = 5 }

run_session-Reported_example :
    Reported
      (1 ∷ 2 ∷ [])
      (9 ∷ [])
      (halves
        (1 ∷ 2 ∷ [])
        (9 ∷ [])
        ((local, reads 5) ∷ (remote, reads 0) ∷ (local, writes) ∷ (local, reads 0) ∷ []))
      spoken
unfolding run_session outcome_of halves copying select half_step on_reading on_writing on_read split
    ending_of error_of fresh_half
run_session-Reported_example =
    run_session-Reported (1 ∷ 2 ∷ []) (9 ∷ []) 5
      ((local, reads 5) ∷ (remote, reads 0) ∷ (local, writes) ∷ (local, reads 0) ∷ []) spoken refl

copy_half-ends_example :
    copy_half (fresh_half (4 ∷ 5 ∷ []), none) (rounds (0 ∷ 7 ∷ 0 ∷ []))
    ≡ (finished (4 ∷ 5 ∷ []), some (ok tt))
copy_half-ends_example = copy_half-ends (4 ∷ 5 ∷ []) (0 ∷ 7 ∷ 0 ∷ []) (omega arith)

abbrev home_22 : Endpoint
home_22 = record { host = "home"; port = 22; server_name = "home" }

parse-IsPortIn_example : ◌≡◌ {A = Option (String × ℕ)} none (some ("home", 22)) ⊎ IsPort 22
unfolding parse parse_trimmed host_port named rsplit_once strip parse_port parse_u16
    at_least_one_digit in_u16 parse_digits non_zero
parse-IsPortIn_example = parse-IsPortIn "home:22" home_22 refl

parse-host_port_example : parse (written "home" 22) ≡ ok home_22
unfolding decimal decimal_from digit trim strip
parse-host_port_example =
    parse-host_port "home" 22 "home" (omega arith, omega arith) (λ h. cc) refl refl refl refl refl

abbrev config : Config
config = record { socket = "leader.sock"; endpoint = home_22; tls = 5; once = false }

-- A link that finds no socket, then one, serves a session, and is shut down in a second one.
abbrev moment : Scene
moment = record {
  value = false;
  changes = [];
  now = 7;
  draw = 1;
  exists = true;
  network = network;
  from_local = 1 ∷ 2 ∷ [];
  from_remote = 9 ∷ [];
  lasted = 5;
  answers = (local, reads 5) ∷ (remote, reads 0) ∷ (local, writes) ∷ (local, reads 0) ∷ [];
}

abbrev moments : List Scene
moments =
    record moment { exists = false }
    ∷ moment
    ∷ moment
    ∷ moment
    ∷ record moment { changes = replaced true ∷ [] }
    ∷ []

abbrev steady : Jitter
steady = record {
  F64 = ℕ;
  tenths = λ n. n;
  random_range = λ low high draw. high;
  mul_f64 = λ d factor. d * factor / 10;
}

moments-run :
    run steady config 0 moments
    ≡ (stopped, record { sessions = 2; bytes_to_server = 2; bytes_to_socket = 0 })
unfolding run run_link meet stops wait step meets_down session_of run_session outcome_of halves
    copying select half_step on_reading on_writing on_read split ending_of error_of fresh_half
moments-run = refl

run-Tally_example :
    Tally moments (down 0 (record { attempts = 0 })) no_report (run steady config 0 moments).1
run-Tally_example = run-Tally steady config 0 moments

abbrev cli : Cli
cli = record {
  socket = "leader.sock";
  server = "home:22";
  cert = "snorkel.pem";
  key = "snorkel.key";
  ca = "ca.pem";
  once = true;
}

abbrev ran : Run
ran loaded = ok no_report

snorkel_status_example :
    ((main cli (ok tt) ran ≡ 2) ↔ (
      (error : ConfigError) × (load "leader.sock" "home:22" "snorkel.pem" "snorkel.key" "ca.pem"
          true
        ≡ err error)))
    × ((main cli (ok tt) ran ≡ 0)
        ↔ Served
            (load "leader.sock" "home:22" "snorkel.pem" "snorkel.key" "ca.pem" true)
            (ok tt)
            ran)
snorkel_status_example = snorkel_status cli (ok tt) ran
