-- ===== src/Topside/Pinning.antt =====
-- What a configuration that was loaded lets in.
use aqualung.Common.{
  ℕ, String, ◌≡◌, ◌≢◌, ◌↔◌, ap, ◌∙◌, true, List, [], ◌∷◌, ◌==◌, string_eq, nat_eq, Result, ok, err,
  ==_iff, arith, if_cases,
}
use aqualung.Common.Results.{map_err, ok_or, >>=-eq-ok, >>=-ne-err, map_err-ne, map_err-eq-ok}
use aqualung.Common.Utf8.{as_bytes}
use aqualung.Pki.{Pki}
use aqualung.Topside.Pem.{
  ConfigError, empty_token, client_verifier, server_identity, reader, non_empty, load_certs,
  load_key, load_roots, add_roots, invalid_ca,
}
use aqualung.Topside.Config.{
  bytes_eq, Cli, ClientCertVerifier, pinned, ServerTls, Fault, config_error, out_of_bounds,
  first_cert, Config, server_tls, load_parts, load,
}

pub bytes_eq_iff : (as_ bs : List ℕ) → (bytes_eq as_ bs ≡ true) ↔ (as_ ≡ bs)
unfolding bytes_eq
bytes_eq_iff [] [] = ground arith
bytes_eq_iff [] (b ∷ bs) = ground arith
bytes_eq_iff (a ∷ as_) [] = ground arith
bytes_eq_iff (a ∷ as_) (b ∷ bs) = ground (arith, ==_iff a b, bytes_eq_iff as_ bs)

module _ ⦃P : Pki⦄ where
  -- The verifier accepts a certificate exactly if the verifier that it stands on accepts it and its
  -- bytes are those of the pinned one.
  pub pinned_iff :
      (inner : ClientCertVerifier) (leaf end_entity : P.Cert) (intermediates : List P.Cert)
      (now : ℕ)
      → ((pinned inner leaf).verify_client_cert end_entity intermediates now ≡ ok tt) ↔ (
          (inner.verify_client_cert end_entity intermediates now ≡ ok tt)
          × (P.der end_entity ≡ P.der leaf))
  unfolding pinned
  pinned_iff inner leaf end_entity intermediates now =
      ground (arith, bytes_eq_iff (P.der end_entity) (P.der leaf))

  -- A file of certificates that was read has one.
  load_certs-some : (path flag : String) → load_certs path flag ≢ ok []
  unfolding load_certs reader non_empty
  load_certs-some path flag = ground arith

  load_certs-ne-empty_token : (path flag : String) → load_certs path flag ≢ err empty_token
  unfolding load_certs reader non_empty
  load_certs-ne-empty_token path flag = ground arith

  load_key-ne-empty_token : (path : String) → load_key path ≢ err empty_token
  unfolding load_key reader
  load_key-ne-empty_token path = ground arith

  add_roots-ne-empty_token :
      (path : String) (roots : P.Roots) (certs : List P.Cert)
      → add_roots path roots certs ≢ err empty_token
  unfolding add_roots
  add_roots-ne-empty_token path roots [] = ground arith
  add_roots-ne-empty_token path roots (cert ∷ certs) =
      >>=-ne-err (map_err (λ e. invalid_ca path) (P.add roots cert)) _ empty_token (ground arith)
        (λ more e. add_roots-ne-empty_token path more certs)

  load_roots-ne-empty_token : (path : String) → load_roots path ≢ err empty_token
  unfolding load_roots
  load_roots-ne-empty_token path =
      >>=-ne-err (load_certs path "--ca") _ empty_token (load_certs-ne-empty_token path "--ca")
        (λ certs e. add_roots-ne-empty_token path P.no_roots certs)

  lifted {ℓ} :
      {A : Type ℓ} (m : Result A ConfigError) (e : ConfigError)
      → m ≢ err e
      → map_err config_error m ≢ err (config_error e)
  lifted m e ne = ground arith

  within {ℓ} : {A : Type ℓ} (m : Result A ConfigError) → map_err config_error m ≢ err out_of_bounds
  within m = ground arith

  leaf_there :
      (path flag : String) (certs : List P.Cert)
      → map_err config_error (load_certs path flag) ≡ ok certs
      → (e : Fault) → ok_or out_of_bounds (first_cert certs) ≢ err e
  unfolding first_cert
  leaf_there path flag [] there e = ground (arith, load_certs-some path flag)
  leaf_there path flag (cert ∷ certs) there e = ground arith

  first_cert-eq-some :
      (certs : List P.Cert) (leaf : P.Cert)
      → ok_or {E = Fault} out_of_bounds (first_cert certs) ≡ ok leaf
      → (others : List P.Cert) × (certs ≡ leaf ∷ others)
  unfolding first_cert
  first_cert-eq-some [] leaf h = cc
  first_cert-eq-some (cert ∷ certs) leaf h = (certs, cc)

module _ ⦃P : Pki⦄ ⦃T : ServerTls⦄ where
  server_tls-ne :
      (inner : ClientCertVerifier) (leaf : P.Cert) (certs : List P.Cert) (key : P.PrivateKey)
      (e : Fault)
      → ((text : String) → config_error (server_identity text) ≢ e)
      → server_tls inner leaf certs key ≢ err e
  unfolding server_tls
  server_tls-ne inner leaf certs key e other =
      >>=-ne-err
        (map_err (λ x. config_error (server_identity (P.error_text x)))
          (T.with_single_cert (pinned inner leaf) certs key))
        _ e
        (map_err-ne _ (T.with_single_cert (pinned inner leaf) certs key) e
          (λ x. other (P.error_text x)))
        (λ tls h. λ q. cc)

  -- A fault that neither the files nor the TLS library give.
  record Foreign (e : Fault) : Type 0 where
    certs : (path flag : String) → map_err config_error (load_certs path flag) ≢ err e
    key : (path : String) → map_err config_error (load_key path) ≢ err e
    roots : (path : String) → map_err config_error (load_roots path) ≢ err e
    identity : (text : String) → config_error (server_identity text) ≢ e
    verifier : (text : String) → config_error (client_verifier text) ≢ e

  load_parts-Foreign : (cli : Cli) (e : Fault) → Foreign e → load_parts cli ≢ err e
  unfolding load_parts
  load_parts-Foreign cli e n = >>=-ne-err _ _ e (n.roots cli.ca) λ roots h.
      >>=-ne-err _ _ e (n.certs cli.cert "--cert") λ server_certs h.
        >>=-ne-err _ _ e (n.key cli.key) λ server_key h.
          >>=-ne-err _ _ e (n.certs cli.client_cert "--client-cert") λ pin_certs pinned_.
            >>=-ne-err _ _ e (leaf_there cli.client_cert "--client-cert" pin_certs pinned_ e)
              λ leaf h.
                >>=-ne-err _ _ e
                  (map_err-ne _ (T.build_verifier roots) e (λ x. n.verifier (P.error_text x)))
                  λ inner h.
                    >>=-ne-err _ _ e (server_tls-ne inner leaf server_certs server_key e n.identity)
                      λ tls h. λ q. cc

  empty_token-Foreign : Foreign (config_error empty_token)
  empty_token-Foreign = record {
    certs = λ path flag.
        lifted (load_certs path flag) empty_token (load_certs-ne-empty_token path flag);
    key = λ path. lifted (load_key path) empty_token (load_key-ne-empty_token path);
    roots = λ path. lifted (load_roots path) empty_token (load_roots-ne-empty_token path);
    identity = λ text h. cc;
    verifier = λ text h. cc;
  }

  out_of_bounds-Foreign : Foreign out_of_bounds
  out_of_bounds-Foreign = record {
    certs = λ path flag. within (load_certs path flag);
    key = λ path. within (load_key path);
    roots = λ path. within (load_roots path);
    identity = λ text h. cc;
    verifier = λ text h. cc;
  }

  -- Loading ends with a configuration or an error of its own, never by the index of the pinned
  -- certificate; the error says that the token is empty exactly if it is.
  pub load_faults :
      (cli : Cli)
      → (load cli ≢ err out_of_bounds)
        × ((load cli ≡ err (config_error empty_token)) ↔ (cli.token ≡ ""))
  unfolding load
  load_faults cli = (
    if_cases (λ r. r ≢ err out_of_bounds) (cli.token == "") (λ h. cc)
        (load_parts-Foreign cli out_of_bounds out_of_bounds-Foreign),
    ground (
      arith,
      ==_iff cli.token "",
      load_parts-Foreign cli (config_error empty_token) empty_token-Foreign,
    ),
  )

  -- What a configuration is made of: the certificates, the key and the pinned certificate from their
  -- files, the verifier on the roots, and the settings.
  pub record Made (cli : Cli) (config : Config) : Type 0 where
    pub inner : ClientCertVerifier
    pub leaf : P.Cert
    pub others : List P.Cert
    pub roots : P.Roots
    pub certs : List P.Cert
    pub key : P.PrivateKey
    pub tls : T.ServerConfig
    pub roots_read : load_roots cli.ca ≡ ok roots
    pub certs_read : load_certs cli.cert "--cert" ≡ ok certs
    pub key_read : load_key cli.key ≡ ok key
    pub pin_read : load_certs cli.client_cert "--client-cert" ≡ ok (leaf ∷ others)
    pub built : T.build_verifier roots ≡ ok inner
    pub served : T.with_single_cert (pinned inner leaf) certs key ≡ ok tls
    pub settled : config.tls ≡ T.send_tls13_tickets 0 (T.no_session_storage tls)
    pub token : config.token ≡ as_bytes cli.token

  load_parts-Made : (cli : Cli) (config : Config) → load_parts cli ≡ ok config → Made cli config
  unfolding load_parts server_tls
  load_parts-Made cli config h =
      let (roots, r, h) = >>=-eq-ok _ _ config h in
      let (certs, c, h) = >>=-eq-ok _ _ config h in
      let (key, k, h) = >>=-eq-ok _ _ config h in
      let (pins, p, h) = >>=-eq-ok _ _ config h in
      let (leaf, l, h) = >>=-eq-ok _ _ config h in
      let (inner, i, h) = >>=-eq-ok _ _ config h in
      let (final, f, h) = >>=-eq-ok _ _ config h in
      let (tls, t, s) = >>=-eq-ok _ _ final f in
      let (others, o) = first_cert-eq-some pins leaf l in
      record {
        inner = inner;
        leaf = leaf;
        others = others;
        roots = roots;
        certs = certs;
        key = key;
        tls = tls;
        roots_read = map_err-eq-ok _ _ roots r;
        certs_read = map_err-eq-ok _ _ certs c;
        key_read = map_err-eq-ok _ _ key k;
        pin_read = map_err-eq-ok _ _ pins p ∙ ap ok o;
        built = map_err-eq-ok _ _ inner i;
        served = map_err-eq-ok _ _ tls t;
        settled = ground (arith, h, s);
        token = ground (arith, h);
      }

  pub load_lets_in :
      (cli : Cli) (config : Config) (end_entity : P.Cert) (intermediates : List P.Cert) (now : ℕ)
      → load cli ≡ ok config
      → (made : Made cli config) × (cli.token ≢ "")
        × (((pinned made.inner made.leaf).verify_client_cert end_entity intermediates now ≡ ok tt)
            ↔ ((made.inner.verify_client_cert end_entity intermediates now ≡ ok tt)
                × (P.der end_entity ≡ P.der made.leaf)))
  unfolding load
  load_lets_in cli config end_entity intermediates now h =
      let made : Made cli config = load_parts-Made cli config (ground arith) in
      (
        made,
        ground (arith, ==_iff cli.token ""),
        pinned_iff made.inner made.leaf end_entity intermediates now,
      )
