-- ===== src/Snorkel/Config.antt =====
-- `Config` and `Endpoint` of crates/snorkel/src/config.rs, with the operations of `str` that they use.
use Prim.Native.Char.{code}
use aqualung.Common.{
  ℕ, ◌+◌, ◌-◌, ◌*◌, ◌^◌, String, Bool, not, Option, none, some, List, ◌==◌, nat_eq, string_eq, leb,
  ltb, ◌&&◌, if◌then◌else◌, Result, ok, err,
}
use aqualung.Common.Results.{◌>>=◌, map_err, ok_or}
use aqualung.Common.Trim.{trim}
use aqualung.Pki.{Pki}
use aqualung.Snorkel.Pem.{
  ConfigError, empty_socket, bad_server, bad_port, client_identity, load_certs, load_key,
  load_roots,
}

-- `DEFAULT_PORT`
abbrev pub default_port : ℕ
default_port = 1943

-- The digits of a number in front of which `n` stands, if nothing else is among them.
unfoldable pub parse_digits : ℕ → String → Option ℕ
parse_digits n String.[] = some n
parse_digits n (String.◌∷◌ c s) =
    let rest = parse_digits (n * 10 + (code c - 48)) s in
    if leb 48 (code c) && leb (code c) 57 then rest else none

unfoldable pub in_u16 : Option ℕ → Option ℕ
in_u16 none = none
in_u16 (some n) = if ltb n (2 ^ 16) then some n else none

unfoldable pub at_least_one_digit : String → Option ℕ
unfolding parse_digits in_u16
at_least_one_digit String.[] = none
at_least_one_digit (String.◌∷◌ c s) = in_u16 (parse_digits 0 (String.◌∷◌ c s))

-- `str::parse::<u16>`: digits, with a `+` in front of them or without.
unfoldable pub parse_u16 : String → Option ℕ
unfolding at_least_one_digit
parse_u16 String.[] = none
parse_u16 (String.◌∷◌ c s) =
    if code c == 43 then at_least_one_digit s else at_least_one_digit (String.◌∷◌ c s)

-- `value.find(c)`, as what stands before the first `c` and what stands behind it.
unfoldable pub split_first : ℕ → String → Option (String × String)
split_first k String.[] = none
split_first k (String.◌∷◌ c s) =
    let rest = split_first k s in
    if code c == k
    then some (String.[], s)
    else elim rest [ none ↦ none | some (before, behind) ↦ some (String.◌∷◌ c before, behind) ]

-- `value.rsplit_once(':')`
unfoldable pub rsplit_once : String → Option (String × String)
rsplit_once String.[] = none
rsplit_once (String.◌∷◌ c s) = elim (rsplit_once s) [
  | some (before, behind) ↦ some (String.◌∷◌ c before, behind)
  | none ↦ if code c == 58 then some (String.[], s) else none
]

-- The text behind its first character, if that is `k`.
unfoldable pub strip : ℕ → String → Option String
strip k String.[] = none
strip k (String.◌∷◌ c s) = if code c == k then some s else none

-- The parsers of the standard library, `str::parse::<SocketAddr>` and `str::parse::<IpAddr>` with the
-- text of the address, and `ServerName::try_from` of rustls.
pub record Names : Type 1 where
  pub ServerName : Type 0
  pub socket_addr : String → Option (String × ℕ)
  pub ip_addr : String → Option String
  pub server_name : String → Option ServerName

module _ ⦃P : Pki⦄ where
  unfoldable pub non_zero : Option ℕ → Option ℕ
  non_zero none = none
  non_zero (some port) = if not (port == 0) then some port else none

  unfoldable pub parse_port : String → String → Result ℕ ConfigError
  unfolding parse_u16 non_zero
  parse_port port original = ok_or (bad_port original) (non_zero (parse_u16 port))

  -- What stands behind the closing bracket.
  unfoldable pub bracket_port : String → String → Result ℕ ConfigError
  unfolding parse_port strip
  bracket_port value rest = if rest == "" then ok default_port else elim (strip 58 rest) [
    | none ↦ err (bad_server value)
    | some port ↦ parse_port port value
  ]

  -- `[host]` and `[host]:port`, behind the opening bracket.
  unfoldable pub in_brackets : String → String → Result (String × ℕ) ConfigError
  unfolding split_first bracket_port
  in_brackets value inside = do
    (host, rest) ← ok_or (bad_server value) (split_first 93 inside)
    port ← bracket_port value rest
    ok (host, port)

  -- `host` and `host:port`
  unfoldable pub named : String → Result (String × ℕ) ConfigError
  unfolding rsplit_once parse_port
  named value = elim (rsplit_once value) [
    | none ↦ ok (value, default_port)
    | some (host, port) ↦
        if host == ""
        then err (bad_server value)
        else (do port ← parse_port port value; ok (host, port))
  ]

module _ ⦃P : Pki⦄ ⦃N : Names⦄ where
  pub record Endpoint : Type 0 where
    pub host : String
    pub port : ℕ
    pub server_name : N.ServerName

  -- The host and the port of a text that is trimmed.
  unfoldable pub host_port : String → Result (String × ℕ) ConfigError
  unfolding strip in_brackets named
  host_port value = elim (N.socket_addr value) [
    | some (ip, port) ↦ ok (ip, port)
    | none ↦ elim (N.ip_addr value) [
      | some ip ↦ ok (ip, default_port)
      | none ↦ elim (strip 91 value) [ some inside ↦ in_brackets value inside | none ↦ named value ]
    ]
  ]

  unfoldable pub parse_trimmed : String → Result Endpoint ConfigError
  unfolding host_port
  parse_trimmed value = do
    (host, port) ← host_port value
    server_name ← ok_or (bad_server value) (N.server_name host)
    ok (record { host = host; port = port; server_name = server_name })

  -- `Endpoint::parse`
  unfoldable pub parse : String → Result Endpoint ConfigError
  unfolding trim parse_trimmed
  parse value =
      if trim value == "" then err (bad_server "server is empty") else parse_trimmed (trim value)

  -- The client side of rustls.
  pub record ClientTls : Type 1 where
    pub ClientConfig : Type 0
    pub with_client_auth_cert :
        P.Roots → List P.Cert → P.PrivateKey → Result ClientConfig P.TlsError

module _ ⦃P : Pki⦄ ⦃N : Names⦄ ⦃T : ClientTls⦄ where
  pub record Config : Type 0 where
    pub socket : String
    pub endpoint : Endpoint
    pub tls : T.ClientConfig
    pub once : Bool

  -- `Config::load` behind the test of the socket.
  unfoldable pub load_parts :
      String → String → String → String → String → Bool → Result Config ConfigError
  unfolding parse load_roots load_certs load_key
  load_parts socket server cert key ca once = do
    endpoint ← parse server
    roots ← load_roots ca
    certs ← load_certs cert "--cert"
    key ← load_key key
    tls ← map_err (λ e. client_identity (P.error_text e)) (T.with_client_auth_cert roots certs key)
    ok (record { socket = socket; endpoint = endpoint; tls = tls; once = once })

  unfoldable pub load :
      String → String → String → String → String → Bool → Result Config ConfigError
  unfolding load_parts
  load socket server cert key ca once =
      if socket == "" then err empty_socket else load_parts socket server cert key ca once
