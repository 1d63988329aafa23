-- ===== src/Hub/Watching.antt =====
-- Who watches which session: `watch`, `unwatch` and `on_phone_eof` of crates/topside/src/hub.rs.
use aqualung.Common.{
  ℕ, String, Option, none, some, List, [], ◌∷◌, ◌==◌, nat_eq, string_eq, if◌then◌else◌, Result, ok,
  err,
}
use aqualung.Common.HashMap.{HashMap, get, insert, remove, contains_key, retain}
use aqualung.Common.HashSet.{set_insert, set_remove}
use aqualung.Json.{Json}
use aqualung.Hub.Link.{phone_closed}
use aqualung.Hub.State.{Hub, reverse_key_eq, phone_ready, phone_out}

-- `entry(key).or_default()`
unfoldable pub or_default {ℓ} : {A : Type ℓ} → Option (List A) → List A
or_default none = []
or_default (some xs) = xs

-- `set.iter().next()`
unfoldable pub first {ℓ} : {A : Type ℓ} → List A → Option A
first [] = none
first (x ∷ xs) = some x

-- The set without the phone, or nothing if it is then empty.
unfoldable pub without : ℕ → List ℕ → Option (List ℕ)
without phone set = elim (set_remove phone set) [ [] ↦ none | p ∷ ps ↦ some (p ∷ ps) ]

-- The sessions that the phone drives.
unfoldable pub driven_by : ℕ → HashMap String ℕ → List String
driven_by phone [] = []
driven_by phone ((session, owner) ∷ drivers) =
    let rest = driven_by phone drivers in if owner == phone then session ∷ rest else rest

-- The session's next driver, if there is one.
unfoldable pub pass_on : String → Option ℕ → HashMap String ℕ → HashMap String ℕ
pass_on session none driver = remove session driver
pass_on session (some next) driver = insert session next driver

-- The loop of `on_phone_eof` over the sessions whose driver is gone.
unfoldable pub hand_on : HashMap String (List ℕ) → List String → HashMap String ℕ → HashMap String ℕ
unfolding pass_on first
hand_on watchers [] driver = driver
hand_on watchers (session ∷ rest) driver = hand_on watchers rest (elim (get session watchers) [
  | none ↦ remove session driver
  | some set ↦ pass_on session (first set) driver
])

module _ ⦃J : Json⦄ where
  unfoldable pub watch : ℕ → String → Hub → Result (Unit {0}) (Unit {0}) × Hub
  unfolding phone_ready
  watch phone session h =
      if phone_ready h phone
      then (
        ok tt,
        record h {
          watchers =
              insert session (set_insert phone (or_default (get session h.watchers))) h.watchers;
          driver =
              if contains_key session h.driver then h.driver else insert session phone h.driver;
        },
      )
      else (err tt, h)

  unfoldable pub unwatch : ℕ → String → Hub → Hub
  unwatch phone session h = elim (get session h.watchers) [
    | none ↦ h
    | some set ↦ elim (set_remove phone set) [
      | [] ↦ record h { watchers = remove session h.watchers; driver = remove session h.driver }
      | next ∷ others ↦ record h {
        watchers = insert session (next ∷ others) h.watchers;
        driver = elim (get session h.driver) [
          | none ↦ h.driver
          | some owner ↦ if owner == phone then insert session next h.driver else h.driver
        ];
      }
    ]
  ]

  -- `self.phones.remove(&phone)`: if the phone is there, its channel closes.
  unfoldable pub drop_phone : ℕ → Hub → Hub
  unfolding phone_out
  drop_phone phone h = record h {
    phones = remove phone h.phones;
    sent = elim (get phone h.phones) [
      | none ↦ h.sent
      | some slot ↦ phone_closed (phone_out slot) ∷ h.sent
    ];
  }

  unfoldable pub on_phone_eof : ℕ → Hub → Hub
  on_phone_eof phone h =
      let gone = drop_phone phone h in
      let watchers = retain (λ session set. without phone set) gone.watchers in
      record gone {
        watchers = watchers;
        driver = hand_on watchers (driven_by phone gone.driver) gone.driver;
        reverse = retain (λ key claim. if key.0 == phone then none else some claim) gone.reverse;
      }
