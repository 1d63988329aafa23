-- ===== src/Hub/Invariant/Departed.antt =====
-- What is left of a phone that has gone.
use aqualung.Common.{
  ℕ, String, ◌≡◌, refl, ◌≢◌, ap, Bool, false, Option, none, some, List, nat_eq, string_eq, arith,
  Option-cases, inl, inr, ==_refl,
}
use aqualung.Common.HashMap.{HashMap, get, get-remove}
use aqualung.Common.HashSet.{contains}
use aqualung.Json.{Json}
use aqualung.Hub.State.{Hub, Phone, reverse_key_eq}
use aqualung.Hub.Watching.{or_default, drop_phone, on_phone_eof}
use aqualung.Hub.Invariant.{Inv}
use aqualung.Hub.Invariant.Agreement.{Agree}
use aqualung.Hub.Invariant.Leaving.{on_phone_eof-Inv}

among : List ℕ → Option ℕ → Bool
unfolding contains
among ps none = false
among ps (some q) = contains q ps

-- A phone that is not connected neither watches nor drives.
absent :
    (phones : HashMap ℕ Phone) (ws : Option (List ℕ)) (d : Option ℕ) (p : ℕ)
    → get p phones ≡ none
    → Agree phones ws d
    → (contains p (or_default ws) ≡ false) × (d ≢ some p)
unfolding or_default contains among
absent phones none none p gone a = (refl, λ e. cc)
absent phones none (some d) p gone a = elim a [ ]
absent phones (some ps) none p gone a = elim a [ ]
absent phones (some ps) (some d) p gone a =
    (ground (arith, a.1 p), λ e. ground (arith, a.1 p, ap (among ps) e))

module _ ⦃J : Json⦄ where
  on_phone_eof-phones : (phone : ℕ) (h : Hub) → get phone (on_phone_eof phone h).phones ≡ none
  unfolding on_phone_eof drop_phone
  on_phone_eof-phones phone h = rw (get-remove, ==_refl phone) refl

  -- A phone that has gone is connected no more, watches no session, drives none, and has no question
  -- left to answer, if the invariant of the tables held before.
  pub on_phone_eof-gone :
      (phone : ℕ) (session : String) (id : J.Value) (h : Hub)
      → Inv h
      → (get phone (on_phone_eof phone h).phones ≡ none)
        × (contains phone (or_default (get session (on_phone_eof phone h).watchers)) ≡ false)
        × (get session (on_phone_eof phone h).driver ≢ some phone)
        × (get (phone, id) (on_phone_eof phone h).reverse ≡ none)
  on_phone_eof-gone phone session id h v =
      let v' = on_phone_eof-Inv phone h v in
      let gone = on_phone_eof-phones phone h in
      let (unwatched, undriven) =
        absent (on_phone_eof phone h).phones (get session (on_phone_eof phone h).watchers)
          (get session (on_phone_eof phone h).driver) phone gone (v'.watched session) in
      (
        gone,
        unwatched,
        undriven,
        elim (Option-cases (get (phone, id) (on_phone_eof phone h).reverse)) [
          | inl none_left ↦ none_left
          | inr (key, asked) ↦ ground (arith, gone, (v'.asked (phone, id) key asked).0)
        ],
      )
