-- ===== src/Hub/Invariant/Watching.antt =====
-- The tables of watchers and drivers under `watch`, `unwatch` and the end of a phone.
use aqualung.Common.{
  ℕ, ◌≡◌, refl, inl, inr, none, some, List, [], ◌∷◌, ◌==◌, nat_eq, string_eq, String, if◌then◌else◌,
  arith, is_some, ==_iff, Bool-cases, Option-cases,
}
use aqualung.Common.HashMap.{
  HashMap, get, insert, get-insert, get-remove, contains_key-get, insert-DistinctKeys,
  remove-DistinctKeys, contains_key,
}
use aqualung.Common.HashSet.{set_remove}
use aqualung.Json.{Json}
use aqualung.Hub.State.{Hub, phone_ready, reverse_key_eq}
use aqualung.Hub.Watching.{watch, unwatch}
use aqualung.Hub.Invariant.{Inv}
use aqualung.Hub.Invariant.Agreement.{Agree-watch, Agree-unwatch, next_driver}

module _ ⦃J : Json⦄ where
  -- The driver that `watch` leaves.
  get_driver :
      (session s : String) (phone : ℕ) (driver : HashMap String ℕ)
      → get s (if contains_key session driver then driver else insert session phone driver) ≡ (
          if session == s
          then (if is_some (get s driver) then get s driver else some phone)
          else get s driver)
  get_driver session s phone driver =
      ground (
        arith,
        contains_key-get session driver,
        get-insert session s phone driver,
        ==_iff session s,
      )

  pub watch-Inv : (phone : ℕ) (session : String) (h : Hub) → Inv h → Inv (watch phone session h).1
  unfolding watch
  watch-Inv phone session h v = elim (Bool-cases (phone_ready h phone)) [
    | inr no_phone ↦ rw (no_phone, watch) v
    | inl is_up ↦
        rw (is_up, watch)
          (record {
            watched = λ s.
                rw (get-insert, get_driver session s phone h.driver)
                  (elim (Bool-cases (session == s)) [
                    | inl here ↦
                        rw (here, (==_iff session s).0 here)
                          (Agree-watch h.phones (get s h.watchers) (get s h.driver) phone is_up
                            (v.watched s))
                    | inr there ↦ rw there (v.watched s)
                  ]);
            distinct = insert-DistinctKeys session _ h.watchers v.distinct;
            fresh = v.fresh;
            asked = v.asked;
          })
  ]

  get_after_unwatch :
      (session s : String) (phone next : ℕ) (driver : HashMap String ℕ)
      → get s (elim (get session driver) [
        | none ↦ driver
        | some owner ↦ if owner == phone then insert session next driver else driver
      ])
        ≡ (if session == s then next_driver phone next (get s driver) else get s driver)
  get_after_unwatch session s phone next driver =
      ground (arith, get-insert session s next driver, ==_iff session s)

  -- `unwatch`, once the watchers of the session are found.
  unwatched :
      (phone : ℕ) (session : String) (set rest : List ℕ) (h : Hub)
      → get session h.watchers ≡ some set
      → set_remove phone set ≡ rest
      → Inv h
      → Inv (unwatch phone session h)
  unfolding unwatch
  unwatched phone session set [] h found e v =
      rw (found, unwatch)
        (rw (e, unwatch)
          (record {
            watched = λ s.
                rw (get-remove, get-remove)
                  (elim (Bool-cases (session == s)) [
                    | inl here ↦ rw here tt
                    | inr there ↦ rw there (v.watched s)
                  ]);
            distinct = remove-DistinctKeys session h.watchers v.distinct;
            fresh = v.fresh;
            asked = v.asked;
          }))
  unwatched phone session set (next ∷ others) h found e v =
      rw (found, unwatch)
        (rw (e, unwatch)
          (record {
            watched = λ s.
                rw (get-insert, get_after_unwatch session s phone next h.driver)
                  (elim (Bool-cases (session == s)) [
                    | inl here ↦
                        let same = (==_iff session s).0 here in
                        rw here (
                          Agree-unwatch h.phones set (get s h.driver) phone next others e
                            (rw ((rw same at found)) at (v.watched s)))
                    | inr there ↦ rw there (v.watched s)
                  ]);
            distinct = insert-DistinctKeys session _ h.watchers v.distinct;
            fresh = v.fresh;
            asked = v.asked;
          }))

  pub unwatch-Inv : (phone : ℕ) (session : String) (h : Hub) → Inv h → Inv (unwatch phone session h)
  unfolding unwatch
  unwatch-Inv phone session h v = elim (Option-cases (get session h.watchers)) [
    | inl missing ↦ rw (missing, unwatch) v
    | inr (set, found) ↦ unwatched phone session set (set_remove phone set) h found refl v
  ]
