-- ===== src/Topside/Config.antt =====
-- `Config::load` and `PinnedClientVerifier` of crates/topside/src/config.rs.
use aqualung.Common.{
  ℕ, String, Bool, true, false, Option, none, some, List, [], ◌∷◌, ◌==◌, string_eq, nat_eq, Result,
  ok, err, if◌then◌else◌,
}
use aqualung.Common.Results.{◌>>=◌, ◌>>◌, map_err, ok_or}
use aqualung.Common.Utf8.{as_bytes}
use aqualung.Pki.{Pki}
use aqualung.Topside.Pem.{
  ConfigError, empty_token, client_verifier, server_identity, load_certs, load_key, load_roots,
}

-- `a == b` of two slices of bytes.
unfoldable pub bytes_eq : List ℕ → List ℕ → Bool
bytes_eq [] [] = true
bytes_eq [] (b ∷ bs) = false
bytes_eq (a ∷ as_) [] = false
bytes_eq (a ∷ as_) (b ∷ bs) = if a == b then bytes_eq as_ bs else false

pub record SocketAddr : Type 0 where
  pub ip : String
  pub port : ℕ

pub record Cli : Type 0 where
  pub cert : String
  pub key : String
  pub ca : String
  pub client_cert : String
  pub token : String
  pub snorkel : SocketAddr
  pub phone : SocketAddr

module _ ⦃P : Pki⦄ where
  -- The trait `ClientCertVerifier`, as the methods of one value. `now` is a number of seconds.
  pub record ClientCertVerifier : Type 0 where
    pub root_hint_subjects : List P.Subject
    pub verify_client_cert : P.Cert → List P.Cert → ℕ → Result (Unit {0}) P.TlsError
    pub verify_tls12_signature : List ℕ → P.Cert → P.Signed → Result (Unit {0}) P.TlsError
    pub verify_tls13_signature : List ℕ → P.Cert → P.Signed → Result (Unit {0}) P.TlsError
    pub supported_verify_schemes : List P.Scheme
    pub offer_client_auth : Bool
    pub client_auth_mandatory : Bool
    pub requires_raw_public_keys : Bool

  -- `PinnedClientVerifier`, with its two fields.
  unfoldable pub pinned : ClientCertVerifier → P.Cert → ClientCertVerifier
  pinned inner leaf = record {
    root_hint_subjects = inner.root_hint_subjects;
    verify_client_cert = λ end_entity intermediates now. do
      inner.verify_client_cert end_entity intermediates now
      (if bytes_eq (P.der end_entity) (P.der leaf) then ok tt else err P.application_failure);
    verify_tls12_signature = inner.verify_tls12_signature;
    verify_tls13_signature = inner.verify_tls13_signature;
    supported_verify_schemes = inner.supported_verify_schemes;
    offer_client_auth = inner.offer_client_auth;
    client_auth_mandatory = inner.client_auth_mandatory;
    requires_raw_public_keys = inner.requires_raw_public_keys;
  }

  -- The server side of rustls: the verifier on a store of roots, the configuration with one
  -- certificate, and the two settings that `load` changes.
  pub record ServerTls : Type 1 where
    pub ServerConfig : Type 0
    pub build_verifier : P.Roots → Result ClientCertVerifier P.TlsError
    pub with_single_cert :
        ClientCertVerifier → List P.Cert → P.PrivateKey → Result ServerConfig P.TlsError
    pub no_session_storage : ServerConfig → ServerConfig
    pub send_tls13_tickets : ℕ → ServerConfig → ServerConfig

  -- How `load` may end without a configuration. `out_of_bounds` is the panic of an index.
  pub data Fault : Type 0 where
    config_error : ConfigError → Fault
    out_of_bounds : Fault

  -- `certs[0]`
  unfoldable pub first_cert : List P.Cert → Option P.Cert
  first_cert [] = none
  first_cert (cert ∷ certs) = some cert

module _ ⦃P : Pki⦄ ⦃T : ServerTls⦄ where
  pub record Config : Type 0 where
    pub snorkel : SocketAddr
    pub phone : SocketAddr
    pub tls : T.ServerConfig
    pub token : List ℕ

  -- The configuration that `load` makes of the parts that it has read.
  unfoldable pub server_tls :
      ClientCertVerifier → P.Cert → List P.Cert → P.PrivateKey → Result T.ServerConfig Fault
  unfolding pinned
  server_tls inner leaf server_certs server_key = do
    tls ←
        map_err (λ e. config_error (server_identity (P.error_text e)))
          (T.with_single_cert (pinned inner leaf) server_certs server_key)
    ok (T.send_tls13_tickets 0 (T.no_session_storage tls))

  -- `load` behind the test of the token.
  unfoldable pub load_parts : Cli → Result Config Fault
  unfolding first_cert
  load_parts cli = do
    roots ← map_err config_error (load_roots cli.ca)
    server_certs ← map_err config_error (load_certs cli.cert "--cert")
    server_key ← map_err config_error (load_key cli.key)
    pin_certs ← map_err config_error (load_certs cli.client_cert "--client-cert")
    leaf ← ok_or out_of_bounds (first_cert pin_certs)
    inner ← map_err (λ e. config_error (client_verifier (P.error_text e))) (T.build_verifier roots)
    tls ← server_tls inner leaf server_certs server_key
    ok (record { snorkel = cli.snorkel; phone = cli.phone; tls = tls; token = as_bytes cli.token })

  unfoldable pub load : Cli → Result Config Fault
  load cli = if cli.token == "" then err (config_error empty_token) else load_parts cli
