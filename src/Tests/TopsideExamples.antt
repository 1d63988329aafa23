-- ===== src/Tests/TopsideExamples.antt =====
-- The configuration and the status of topside at concrete inputs.
use aqualung.Common.{ℕ, ◌≡◌, ◌≢◌, ◌↔◌, refl, [], ◌∷◌, Result, ok, err, string_eq}
use aqualung.Common.Utf8.{as_bytes, encode}
use aqualung.Topside.Pem.{
  ConfigError, empty_token, reader, non_empty, load_certs, load_key, add_roots, load_roots,
}
use aqualung.Topside.Config.{
  SocketAddr, Cli, pinned, config_error, out_of_bounds, first_cert, Config, server_tls, load_parts,
  load,
}
use aqualung.Topside.Pinning.{Made, load_faults, load_lets_in}
use aqualung.Topside.Server.{Server, RunError}
use aqualung.Topside.Main.{main, panicked}
use aqualung.Topside.Status.{Served, main_status}
use aqualung.Tests.SamplePki.{pki, server_tls as sample_tls, sockets}
use aqualung.Tests.Samples.{json}

abbrev addr : ℕ → SocketAddr
addr port = record { ip = "127.0.0.1"; port = port }

abbrev cli : Cli
cli = record {
  cert = "server.pem";
  key = "server.key";
  ca = "ca.pem";
  client_cert = "phone.pem";
  token = "hi";
  snorkel = addr 1943;
  phone = addr 1944;
}

abbrev config : Config
config = record { snorkel = addr 1943; phone = addr 1944; tls = 5; token = 104 ∷ 105 ∷ [] }

config_loaded : load cli ≡ ok config
unfolding load load_parts load_roots load_certs load_key reader non_empty add_roots first_cert
    server_tls as_bytes encode
config_loaded = refl

load_lets_in_example :
    (made : Made cli config) × (cli.token ≢ "")
    × (((pinned made.inner made.leaf).verify_client_cert (1 ∷ 2 ∷ []) [] 9 ≡ ok tt)
        ↔ ((made.inner.verify_client_cert (1 ∷ 2 ∷ []) [] 9 ≡ ok tt) × ((1 ∷ 2 ∷ []) ≡ made.leaf)))
load_lets_in_example = load_lets_in cli config (1 ∷ 2 ∷ []) [] 9 config_loaded

load_faults_example :
    (load cli ≢ err out_of_bounds)
    × ((load cli ≡ err (config_error empty_token)) ↔ (cli.token ≡ ""))
load_faults_example = load_faults cli

abbrev good_end : Server → Result (Unit {0}) RunError
good_end server = ok tt

main_status_example :
    ((main cli (ok tt) good_end ≡ 2)
      ↔ ((error : ConfigError) × (load cli ≡ err (config_error error))))
    × ((main cli (ok tt) good_end ≡ 0) ↔ Served (load cli) (ok tt) good_end)
    × (main cli (ok tt) good_end ≢ panicked)
main_status_example = main_status cli (ok tt) good_end
