-- ===== src/Snorkel/Dial.antt =====
-- crates/snorkel/src/endpoint.rs and `Session::establish` of crates/snorkel/src/session.rs.
use Prim.Native.String.{◌++◌ as str_append}
use aqualung.Common.{ℕ, String, ◌≡◌, refl, ◌↔◌, ◌∙◌, ap, Option, none, some, Result, ok, err, arith}
use aqualung.Common.Results.{◌>>=◌, ◌>>◌, map_err, >>=-eq-ok, map_err-eq-ok, ok_inj}
use aqualung.Pki.{Pki}
use aqualung.Snorkel.Config.{Names, Endpoint, ClientTls, Config}

pub record DialError : Type 0 where
  pub at : String
  pub detail : String

-- `Display` of a `DialError`
unfoldable pub display : DialError → String
display error = str_append error.at (str_append ": " error.detail)

module _ ⦃P : Pki⦄ ⦃N : Names⦄ ⦃T : ClientTls⦄ where
  -- The sockets and the TLS library. `none` is the end of a timeout of `CONNECT_TIMEOUT`.
  pub record Network : Type 1 where
    pub Tcp : Type 0
    pub Tls : Type 0
    pub Unix : Type 0
    pub io_text : P.IoError → String
    pub connect : String → ℕ → Option (Result Tcp P.IoError)
    pub set_tcp_keepalive : Tcp → Result (Unit {0}) P.IoError
    pub handshake : T.ClientConfig → N.ServerName → Tcp → Option (Result Tls P.IoError)
    pub unix_connect : String → Result Unix P.IoError

module _ ⦃P : Pki⦄ ⦃N : Names⦄ ⦃T : ClientTls⦄ ⦃W : Network⦄ where
  -- `DialError::io`
  unfoldable pub dial_io : String → P.IoError → DialError
  dial_io at error = record { at = at; detail = W.io_text error }

  -- `timeout(..).await` with the two errors that it is mapped to.
  unfoldable pub in_time :
      {A : Type 0} → String → String → Option (Result A P.IoError) → Result A DialError
  unfolding dial_io
  in_time at late none = err (record { at = at; detail = late })
  in_time at late (some (err error)) = err (dial_io at error)
  in_time at late (some (ok a)) = ok a

  pub record RemoteDialer : Type 0 where
    pub endpoint : Endpoint
    pub tls : T.ClientConfig

  -- `RemoteDialer::new`
  unfoldable pub new_dialer : Config → RemoteDialer
  new_dialer config = record { endpoint = config.endpoint; tls = config.tls }

  unfoldable pub dial : RemoteDialer → Result W.Tls DialError
  unfolding in_time dial_io
  dial dialer = do
    tcp ←
        in_time "TLS server" "connection timed out"
          (W.connect dialer.endpoint.host dialer.endpoint.port)
    map_err (dial_io "TLS server keepalive") (W.set_tcp_keepalive tcp)
    in_time "TLS handshake" "timed out" (W.handshake dialer.tls dialer.endpoint.server_name tcp)

  unfoldable pub connect_local : Config → Result W.Unix DialError
  unfolding dial_io
  connect_local config = map_err (dial_io "unix socket") (W.unix_connect config.socket)

  -- The streams of a `Session`.
  unfoldable pub establish : Config → RemoteDialer → Result (W.Unix × W.Tls) DialError
  unfolding dial connect_local
  establish config dialer = do
    remote ← dial dialer
    local ← connect_local config
    ok (local, remote)

  in_time_iff :
      {A : Type 0} (at late : String) (answer : Option (Result A P.IoError)) (a : A)
      → (in_time at late answer ≡ ok a) ↔ (answer ≡ some (ok a))
  unfolding in_time
  in_time_iff at late none a = ground arith
  in_time_iff at late (some (err error)) a = ground arith
  in_time_iff at late (some (ok b)) a = (λ h. cc, λ h. cc)

  -- The stream to the server, shaken hands for the name of the endpoint, and the one to the socket.
  pub record Reached (config : Config) (dialer : RemoteDialer) (local : W.Unix) (remote : W.Tls)
      : Type 0 where
    pub tcp : W.Tcp
    pub connected : W.connect dialer.endpoint.host dialer.endpoint.port ≡ some (ok tcp)
    pub kept : W.set_tcp_keepalive tcp ≡ ok tt
    pub shaken : W.handshake dialer.tls dialer.endpoint.server_name tcp ≡ some (ok remote)
    pub there : W.unix_connect config.socket ≡ ok local

  establish-Reached :
      (config : Config) (dialer : RemoteDialer) (local : W.Unix) (remote : W.Tls)
      → establish config dialer ≡ ok (local, remote)
      → Reached config dialer local remote
  unfolding establish dial connect_local
  establish-Reached config dialer local remote h =
      let shake : W.Tcp → Result W.Tls DialError = λ tcp.
        in_time "TLS handshake" "timed out"
          (W.handshake dialer.tls dialer.endpoint.server_name tcp) in
      let keep : W.Tcp → Result (Unit {0}) DialError =
        λ tcp. map_err (dial_io "TLS server keepalive") (W.set_tcp_keepalive tcp) in
      let (r, a, h) =
        >>=-eq-ok (dial dialer) (λ remote. connect_local config >>= λ local. ok (local, remote))
          (local, remote) h in
      let (l, b, h) = >>=-eq-ok (connect_local config) (λ local. ok (local, r)) (local, remote) h in
      let (tcp, c, a) =
        >>=-eq-ok
          (in_time "TLS server" "connection timed out"
            (W.connect dialer.endpoint.host dialer.endpoint.port))
          (λ tcp. keep tcp >>= λ u. shake tcp) r a in
      let (u, k, a) = >>=-eq-ok (keep tcp) (λ u. shake tcp) r a in
      let both : (l, r) ≡ (local, remote) = ok_inj h in
      record {
        tcp = tcp;
        connected = (in_time_iff "TLS server" "connection timed out" _ tcp).0 c;
        kept = map_err-eq-ok _ _ tt k;
        shaken =
            (in_time_iff "TLS handshake" "timed out" _ r).0 a
            ∙ ap (λ (p : W.Unix × W.Tls). some (ok p.1)) both;
        there = map_err-eq-ok _ _ l b ∙ ap (λ (p : W.Unix × W.Tls). ok p.0) both;
      }

  -- A session is established exactly if the server is reached in time, its stream is kept alive, the
  -- handshake for the name of the endpoint ends in time, and the socket is reached.
  pub establish_iff :
      (config : Config) (dialer : RemoteDialer) (local : W.Unix) (remote : W.Tls)
      → (establish config dialer ≡ ok (local, remote)) ↔ Reached config dialer local remote
  unfolding establish dial connect_local
  establish_iff config dialer local remote = (
    establish-Reached config dialer local remote,
    λ r. rw (r.connected, r.kept, r.shaken, r.there) refl,
  )
