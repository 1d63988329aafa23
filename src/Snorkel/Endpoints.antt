-- ===== src/Snorkel/Endpoints.antt =====
-- Which endpoints crates/snorkel/src/config.rs takes.
use Prim.Native.Char.{Char, char, code}
use Prim.Native.String.{◌++◌ as str_append}
use text.Mathlib.TextLemmas.{nil-append, cons-append, cons-ne-nil, append-ne-nil_of_right_ne-nil}
use aqualung.Common.{
  ℕ, ◌^◌, ◌≤◌, ◌<◌, ◌≡◌, ◌≢◌, ◌⊎◌, refl, ◌∙◌, sym, String, false, Option, none, some, ◌==◌, nat_eq,
  string_eq, ==_iff, if◌then◌else◌, Result, ok, err, Bool-cases, Option-cases, inl, inr,
  option_cases, option_split, if_cases, arith,
}
use aqualung.Common.Results.{◌>>=◌, ok_or, OnOk, >>=-OnOk, OnOk-ok}
use aqualung.Common.Decimal.{decimal}
use aqualung.Common.Trim.{trim}
use aqualung.Pki.{Pki}
use aqualung.Snorkel.Pem.{ConfigError, bad_server, bad_port}
use aqualung.Snorkel.Config.{
  parse_digits, in_u16, at_least_one_digit, parse_u16, split_first, rsplit_once, strip, Names,
  non_zero, parse_port, bracket_port, in_brackets, named, Endpoint, host_port, parse_trimmed, parse,
}
use aqualung.Snorkel.Ports.{parse_u16-decimal, rsplit_once-decimal}

abbrev pub colon : Char
colon = char 58 tt

rsplit_once-append :
    (host port : String)
    → rsplit_once port ≡ none
    → rsplit_once (str_append host (String.◌∷◌ colon port)) ≡ some (host, port)
unfolding rsplit_once
rsplit_once-append String.[] port h = rw (nil-append, h) refl
rsplit_once-append (String.◌∷◌ c host) port h =
    rw (cons-append, rsplit_once, rsplit_once-append host port h) refl

-- `host:port`
abbrev pub written : String → ℕ → String
written host port = str_append host (String.◌∷◌ colon (decimal port))

not_empty : (s : String) → s ≢ "" → (s == "") ≡ false
not_empty s there = ground (arith, ==_iff s "")

not_zero : (n : ℕ) → 1 ≤ n → (n == 0) ≡ false
not_zero n there = ground arith

written-there : (host : String) (port : ℕ) → (written host port == "") ≡ false
written-there host port =
    not_empty (written host port)
      (append-ne-nil_of_right_ne-nil host (cons-ne-nil colon (decimal port)))

in_u16-bound : (o : Option ℕ) (port : ℕ) → in_u16 o ≡ some port → port < 2 ^ 16
unfolding in_u16
in_u16-bound none port h = cc
in_u16-bound (some n) port h = ground arith

at_least_one_digit-bound :
    (s : String) (port : ℕ) → at_least_one_digit s ≡ some port → port < 2 ^ 16
unfolding at_least_one_digit
at_least_one_digit-bound String.[] port h = cc
at_least_one_digit-bound (String.◌∷◌ c s) port h =
    in_u16-bound (parse_digits 0 (String.◌∷◌ c s)) port h

parse_u16-bound : (s : String) (port : ℕ) → parse_u16 s ≡ some port → port < 2 ^ 16
unfolding parse_u16
parse_u16-bound String.[] port h = cc
parse_u16-bound (String.◌∷◌ c s) port h = elim (Bool-cases (code c == 43)) [
  | inl plus ↦ at_least_one_digit-bound s port (sym (rw plus refl) ∙ h)
  | inr other ↦ at_least_one_digit-bound (String.◌∷◌ c s) port (sym (rw other refl) ∙ h)
]

module _ ⦃P : Pki⦄ where
  parse_port-decimal :
      (n : ℕ) (original : String)
      → n < 2 ^ 16
      → parse_port (decimal n) original ≡ (if n == 0 then err (bad_port original) else ok n)
  unfolding parse_port non_zero
  parse_port-decimal n original small = rw (parse_u16-decimal n small) (ground arith)

  -- A port that is read is one to which a connection can be made.
  abbrev pub IsPort : ℕ → Type 0
  IsPort port = (1 ≤ port) × (port < 2 ^ 16)

  parse_port-IsPort :
      (text original : String) (port : ℕ) → parse_port text original ≡ ok port → IsPort port
  unfolding parse_port non_zero
  parse_port-IsPort text original port h = ground (arith, parse_u16-bound text port)

  bracket_port-IsPort :
      (value rest : String) (port : ℕ) → bracket_port value rest ≡ ok port → IsPort port
  unfolding bracket_port
  bracket_port-IsPort value rest port h = elim (Option-cases (strip 58 rest)) [
    | inl missing ↦ ground arith
    | inr (text, e) ↦ ground (arith, parse_port-IsPort text value port)
  ]

  abbrev IsPortOf : String × ℕ → Type 0
  IsPortOf p = IsPort p.1

  in_brackets-IsPort : (value inside : String) → OnOk IsPortOf (in_brackets value inside)
  unfolding in_brackets
  in_brackets-IsPort value inside =
      >>=-OnOk IsPortOf (ok_or (bad_server value) (split_first 93 inside))
        (λ (parts : String × String). bracket_port value parts.1 >>= λ port. ok (parts.0, port))
        λ parts a.
          >>=-OnOk IsPortOf (bracket_port value parts.1) (λ port. ok (parts.0, port))
            λ port b. bracket_port-IsPort value parts.1 port b

  named-IsPort : (value : String) → OnOk IsPortOf (named value)
  unfolding named
  named-IsPort value = option_cases (OnOk IsPortOf) (rsplit_once value) (omega arith) λ parts.
      if_cases (OnOk IsPortOf) (parts.0 == "") tt (
        >>=-OnOk IsPortOf (parse_port parts.1 value) (λ port. ok (parts.0, port))
          λ port b. parse_port-IsPort parts.1 value port b)

  named-written :
      (host : String) (port : ℕ)
      → IsPort port
      → host ≢ ""
      → named (written host port) ≡ ok (host, port)
  unfolding named
  named-written host port is_port there =
      rw
        (
          named,
          rsplit_once-append host (decimal port) (rsplit_once-decimal port is_port.1),
          not_empty host there,
          parse_port-decimal port (written host port) is_port.1,
          not_zero port is_port.0,
        )
        refl

module _ ⦃P : Pki⦄ ⦃N : Names⦄ where
  -- The port of an endpoint is between 1 and 65535, unless the text is an address of the standard
  -- library's, whose port is as it stands.
  abbrev pub IsPortIn : String → String × ℕ → Type 0
  IsPortIn value p = (N.socket_addr value ≡ some p) ⊎ IsPort p.1

  inr_OnOk :
      (value : String) (m : Result (String × ℕ) ConfigError)
      → OnOk IsPortOf m
      → OnOk (IsPortIn value) m
  inr_OnOk value (ok p) q = inr q
  inr_OnOk value (err e) q = tt

  host_port-IsPortIn : (value : String) → OnOk (IsPortIn value) (host_port value)
  unfolding host_port
  host_port-IsPortIn value =
      option_split (OnOk (IsPortIn value)) (N.socket_addr value)
        (λ no_addr.
          option_cases (OnOk (IsPortIn value)) (N.ip_addr value)
            (option_cases (OnOk (IsPortIn value)) (strip 91 value)
              (inr_OnOk value (named value) (named-IsPort value))
              λ inside. inr_OnOk value (in_brackets value inside) (in_brackets-IsPort value inside))
            λ ip. inr (omega arith))
        λ p e. inl e

  EndpointIn : String → Endpoint → Type 0
  EndpointIn value e = IsPortIn value (e.host, e.port)

  parse_trimmed-IsPortIn : (value : String) → OnOk (EndpointIn value) (parse_trimmed value)
  unfolding parse_trimmed EndpointIn
  parse_trimmed-IsPortIn value =
      let End : String × ℕ → N.ServerName → Result Endpoint ConfigError =
        λ parts name. ok (record { host = parts.0; port = parts.1; server_name = name }) in
      >>=-OnOk (EndpointIn value) (host_port value)
        (λ parts. ok_or (bad_server value) (N.server_name parts.0) >>= λ name. End parts name)
        λ parts a.
          >>=-OnOk (EndpointIn value) (ok_or (bad_server value) (N.server_name parts.0))
            (λ name. End parts name)
            λ name b. OnOk-ok (IsPortIn value) (host_port value) parts (host_port-IsPortIn value) a

  -- An endpoint that is parsed has a port between 1 and 65535, unless the text is an address with a
  -- port, as the standard library reads it: then it is that port, which may be 0.
  pub parse-IsPortIn :
      (value : String) (endpoint : Endpoint)
      → parse value ≡ ok endpoint
      → (N.socket_addr (trim value) ≡ some (endpoint.host, endpoint.port)) ⊎ IsPort endpoint.port
  unfolding parse EndpointIn
  parse-IsPortIn value endpoint h =
      OnOk-ok (EndpointIn (trim value)) (parse value) endpoint
        (if_cases (OnOk (EndpointIn (trim value))) (trim value == "") tt
          (parse_trimmed-IsPortIn (trim value)))
        h

  host_port-named :
      (value : String)
      → N.socket_addr value ≡ none
      → N.ip_addr value ≡ none
      → strip 91 value ≡ none
      → host_port value ≡ named value
  unfolding host_port
  host_port-named value no_addr no_ip no_bracket = rw (host_port, no_addr, no_ip, no_bracket) refl

  parse-eq-ok :
      (value : String) (p : String × ℕ) (name : N.ServerName)
      → trim value ≡ value
      → (value == "") ≡ false
      → host_port value ≡ ok p
      → N.server_name p.0 ≡ some name
      → parse value ≡ ok (record { host = p.0; port = p.1; server_name = name })
  unfolding parse parse_trimmed
  parse-eq-ok value p name trimmed there h known = rw (trimmed, there, parse_trimmed, h, known) refl

  -- A host and a port between 1 and 65535, written with a colon between them, are parsed as they are,
  -- where the text has no blanks around it, is no address of the standard library's and starts with no
  -- bracket, the host is not empty, and rustls takes the host for a name.
  pub parse-host_port :
      (host : String) (port : ℕ) (name : N.ServerName)
      → IsPort port
      → host ≢ ""
      → trim (written host port) ≡ written host port
      → N.socket_addr (written host port) ≡ none
      → N.ip_addr (written host port) ≡ none
      → strip 91 (written host port) ≡ none
      → N.server_name host ≡ some name
      → parse (written host port) ≡ ok (record { host = host; port = port; server_name = name })
  parse-host_port host port name is_port there trimmed no_addr no_ip no_bracket known =
      parse-eq-ok (written host port) (host, port) name trimmed (written-there host port)
        (host_port-named (written host port) no_addr no_ip no_bracket
          ∙ named-written host port is_port there)
        known
