-- ===== src/Snorkel/Pem.antt =====
-- The PEM files of crates/snorkel/src/config.rs.
use aqualung.Common.{String, List, [], ◌∷◌, Result, ok, err}
use aqualung.Common.Results.{◌>>=◌, map_err, ok_or}
use aqualung.Pki.{Pki}

module _ ⦃P : Pki⦄ where
  -- `ConfigError`, where `#[error]` gives each its text.
  pub data ConfigError : Type 0 where
    empty_socket : ConfigError
    bad_server : String → ConfigError
    bad_port : String → ConfigError
    read_pem : String → String → P.IoError → ConfigError
    no_certificates : String → String → ConfigError
    no_private_key : String → ConfigError
    client_identity : String → ConfigError
    invalid_ca : String → ConfigError

  unfoldable pub reader : String → String → Result P.File ConfigError
  reader path flag = map_err (read_pem flag path) (P.open_file path)

  unfoldable pub non_empty : String → String → List P.Cert → Result (List P.Cert) ConfigError
  non_empty path flag [] = err (no_certificates flag path)
  non_empty path flag (cert ∷ certs) = ok (cert ∷ certs)

  unfoldable pub load_certs : String → String → Result (List P.Cert) ConfigError
  unfolding reader non_empty
  load_certs path flag = do
    file ← reader path flag
    certs ← map_err (read_pem flag path) (P.certs file)
    non_empty path flag certs

  unfoldable pub load_key : String → Result P.PrivateKey ConfigError
  unfolding reader
  load_key path = do
    file ← reader path "--key"
    key ← map_err (read_pem "--key" path) (P.private_key file)
    ok_or (no_private_key path) key

  -- The loop of `load_roots`.
  unfoldable pub add_roots : String → P.Roots → List P.Cert → Result P.Roots ConfigError
  add_roots path roots [] = ok roots
  add_roots path roots (cert ∷ certs) = do
    more ← map_err (λ e. invalid_ca path) (P.add roots cert)
    add_roots path more certs

  unfoldable pub load_roots : String → Result P.Roots ConfigError
  unfolding load_certs add_roots
  load_roots path = do certs ← load_certs path "--ca"; add_roots path P.no_roots certs
