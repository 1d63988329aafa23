-- ===== src/Pki.antt =====
-- The TLS library (rustls), the reader of PEM files (rustls_pemfile) and the files themselves, as
-- both crates use them: a parameter of every module that loads a configuration.
use aqualung.Common.{ℕ, String, Option, List, Result}

pub record Pki : Type 1 where
  pub Cert : Type 0
  pub PrivateKey : Type 0
  pub Roots : Type 0
  pub IoError : Type 0
  -- A failure of rustls, and its text.
  pub TlsError : Type 0
  pub error_text : TlsError → String
  -- `CertificateError::ApplicationVerificationFailure`
  pub application_failure : TlsError
  -- The bytes of a certificate, `as_ref`.
  pub der : Cert → List ℕ
  -- An opened file.
  pub File : Type 0
  pub open_file : String → Result File IoError
  -- `rustls_pemfile::certs(..).collect()` and `rustls_pemfile::private_key(..)`
  pub certs : File → Result (List Cert) IoError
  pub private_key : File → Result (Option PrivateKey) IoError
  -- `RootCertStore::empty` and `add`
  pub no_roots : Roots
  pub add : Roots → Cert → Result Roots TlsError
  -- `DistinguishedName`, `DigitallySignedStruct` and `SignatureScheme`
  pub Subject : Type 0
  pub Signed : Type 0
  pub Scheme : Type 0
