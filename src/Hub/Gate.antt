-- ===== src/Hub/Gate.antt =====
-- Which requests of a phone reach the leader before the phone has initialized.
use text.Mathlib.Text.{starts_with}
use aqualung.Common.{
  ℕ, String, ◌≡◌, refl, ap, true, false, ◌==◌, nat_eq, string_eq, arith, ==_iff, inl, inr,
  Bool-cases, if◌then◌else◌,
}
use aqualung.Json.{Json}
use aqualung.Wire.Rpc.{rpc_error, invalid_request}
use aqualung.Hub.State.{Hub, phone_ready, send_phone}
use aqualung.Hub.FromPhone.{on_phone_request, refuse, forward_request, unwatch_named}

module _ ⦃J : Json⦄ where
  not_named :
      (method name : String)
      → starts_with method "session/" ≡ true
      → starts_with name "session/" ≡ false
      → (method == name) ≡ false
  not_named method name begins other =
      ground
        (arith, ==_iff method name, ap (λ m. starts_with m "session/") ((==_iff method name).0 _))

  pub on_phone_request-not_ready :
      (phone : ℕ) (method : String) (id obj : J.Value) (h : Hub)
      → phone_ready h phone ≡ false
      → starts_with method "session/" ≡ true
      → on_phone_request phone method id obj h ≡ (
          if method == "session/close"
          then forward_request phone id obj (unwatch_named phone obj h)
          else send_phone phone (rpc_error id invalid_request "phone has not initialized") h)
  unfolding on_phone_request refuse
  on_phone_request-not_ready phone method id obj h unready begins =
      let initial = not_named method "initialize" begins refl in
      let auth = not_named method "authenticate" begins refl in
      elim (Bool-cases (method == "session/close")) [
        | inl closing ↦
            let close = (==_iff method "session/close").0 closing in
            let loading : (method == "session/load") ≡ false =
              ap (λ m. m == "session/load") close in
            let resuming : (method == "session/resume") ≡ false =
              ap (λ m. m == "session/resume") close in
            ground (arith, initial, auth, closing, loading, resuming)
        | inr other ↦ ground (arith, initial, auth, other)
      ]
