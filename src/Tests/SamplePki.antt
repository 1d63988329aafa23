-- ===== src/Tests/SamplePki.antt =====
-- Small libraries for the examples: certificates are their bytes, and a path is what the file has.
use aqualung.Common.{
  ℕ, ◌+◌, String, true, false, none, some, List, [], ◌∷◌, ◌==◌, string_eq, ok, err, if◌then◌else◌,
}
use aqualung.Pki.{Pki}
use aqualung.Wire.{pong}
use aqualung.Topside.Config.{ServerTls, SocketAddr}
use aqualung.Topside.Server.{Sockets}
use aqualung.Topside.Net.Bearer.{Http}
use aqualung.Topside.Net.Home.{Codec}
use aqualung.Snorkel.Config.{Names, ClientTls}
use aqualung.Snorkel.Dial.{Network}

instance abbrev pub pki : Pki
pki = record {
  Cert = List ℕ;
  PrivateKey = ℕ;
  Roots = List (List ℕ);
  IoError = String;
  TlsError = String;
  error_text = λ e. e;
  application_failure = "not accepted";
  der = λ cert. cert;
  File = String;
  open_file = λ path. if path == "missing.pem" then err "no such file" else ok path;
  certs = λ file. if file == "phone.pem" then ok ((1 ∷ 2 ∷ []) ∷ []) else ok ((3 ∷ []) ∷ []);
  private_key = λ file. ok (some 5);
  no_roots = [];
  add = λ roots cert. ok (cert ∷ roots);
  Subject = Unit;
  Signed = Unit;
  Scheme = Unit;
}

instance abbrev pub server_tls : ServerTls
server_tls = record {
  ServerConfig = ℕ;
  build_verifier = λ roots. ok (record {
    root_hint_subjects = [];
    verify_client_cert = λ cert others now. ok tt;
    verify_tls12_signature = λ text cert signed. ok tt;
    verify_tls13_signature = λ text cert signed. ok tt;
    supported_verify_schemes = [];
    offer_client_auth = true;
    client_auth_mandatory = true;
    requires_raw_public_keys = false;
  });
  with_single_cert = λ verifier certs key. ok key;
  no_session_storage = λ tls. tls;
  send_tls13_tickets = λ n tls. tls + n;
}

instance abbrev pub sockets : Sockets
sockets = record {
  Listener = SocketAddr;
  bind = λ before addr. ok addr;
  local_addr = λ listener. ok listener;
}

-- A request is its header.
instance abbrev pub http : Http
http = record {
  Request = String;
  HeaderValue = String;
  authorization = λ req. some req;
  to_str = λ value. some value;
}

-- Every payload is a pong, and a message is written as one byte.
instance abbrev pub codec : Codec
codec = record { from_slice = λ bytes. some pong; to_vec = λ msg. some (7 ∷ []) }

instance abbrev pub names : Names
names = record {
  ServerName = String;
  socket_addr = λ s. none;
  ip_addr = λ s. none;
  server_name = λ s. some s;
}

instance abbrev pub client_tls : ClientTls
client_tls = record { ClientConfig = ℕ; with_client_auth_cert = λ roots certs key. ok key }

instance abbrev pub network : Network
network = record {
  Tcp = ℕ;
  Tls = ℕ;
  Unix = String;
  io_text = λ e. e;
  connect = λ host port. some (ok port);
  set_tcp_keepalive = λ tcp. ok tt;
  handshake = λ tls name tcp. some (ok (tcp + 1));
  unix_connect = λ path. ok path;
}
