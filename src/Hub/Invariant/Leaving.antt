-- ===== src/Hub/Invariant/Leaving.antt =====
-- The hub's tables when a phone goes.
use aqualung.Common.{
  ℕ, ◌≡◌, refl, ap, inl, inr, Bool, true, false, Option, none, some, List, [], ◌∷◌, ◌==◌, nat_eq,
  string_eq, String, if◌then◌else◌, arith, ==_iff, Option-cases, ◌>>=◌,
}
use aqualung.Common.HashMap.{
  HashMap, get, remove, get-insert, get-remove, retain-DistinctKeys, get-retain, get-retain_keys,
  retain,
}
use aqualung.Common.HashSet.{contains, set_remove}
use aqualung.Json.{Json}
use aqualung.Hub.State.{Hub, Phone, reverse_key_eq}
use aqualung.Hub.Watching.{first, without, driven_by, pass_on, hand_on, drop_phone, on_phone_eof}
use aqualung.Hub.Invariant.{Inv}
use aqualung.Hub.Invariant.Agreement.{
  Agree, ready_in, AllReady, last_watcher, contains_left, contains_head, left-Distinct,
}

module _ (watchers : HashMap String (List ℕ)) where
  get-pass_on :
      (session s : String) (next : Option ℕ) (driver : HashMap String ℕ)
      → get s (pass_on session next driver) ≡ (if session == s then next else get s driver)
  unfolding pass_on
  get-pass_on session s none driver = get-remove session s driver
  get-pass_on session s (some next) driver = get-insert session s next driver

  -- Each session of the list goes to the first of its watchers, and no other changes hands.
  get-hand_on :
      (s : String) (sessions : List String) (driver : HashMap String ℕ)
      → get s (hand_on watchers sessions driver)
        ≡ (if contains s sessions then (get s watchers >>= first) else get s driver)
  unfolding hand_on contains
  get-hand_on s [] driver = refl
  get-hand_on s (t ∷ rest) driver = elim (Option-cases (get t watchers)) [
    | inl missing ↦
        rw (missing, get-hand_on s rest (remove t driver), get-remove) (ground (arith, ==_iff t s))
    | inr (set, found) ↦
        rw (found, get-hand_on s rest (pass_on t (first set) driver), get-pass_on)
          (ground (arith, ==_iff t s))
  ]

driven_by_owner :
    (s : String) (phone : ℕ) (driver : HashMap String ℕ)
    → get s driver ≡ some phone
    → contains s (driven_by phone driver) ≡ true
unfolding driven_by get contains
driven_by_owner s phone [] e = cc
driven_by_owner s phone ((t, owner) ∷ driver) e =
    ground (arith, ==_iff t s, ==_iff owner phone, driven_by_owner s phone driver)

driven_by-none :
    (s : String) (phone : ℕ) (driver : HashMap String ℕ)
    → get s driver ≡ none
    → contains s (driven_by phone driver) ≡ false
unfolding driven_by get contains
driven_by-none s phone [] e = refl
driven_by-none s phone ((t, owner) ∷ driver) e =
    ground (arith, ==_iff t s, driven_by-none s phone driver)

ready_left :
    (phones : HashMap ℕ Phone) (phone p : ℕ)
    → (phone == p) ≡ false
    → ready_in phones p ≡ true
    → ready_in (remove phone phones) p ≡ true
ready_left phones phone p other r = ground (arith, get-remove phone p phones)

without-some :
    (phone next : ℕ) (ps others : List ℕ)
    → set_remove phone ps ≡ next ∷ others
    → without phone ps ≡ some (next ∷ others)
unfolding without
without-some phone next ps others e = rw (e, without)

without-none : (phone : ℕ) (ps : List ℕ) → set_remove phone ps ≡ [] → without phone ps ≡ none
unfolding without
without-none phone ps e = rw (e, without)

-- Those who are left are ready.
AllReady-left :
    (phones : HashMap ℕ Phone) (phone next : ℕ) (ps others : List ℕ)
    → set_remove phone ps ≡ next ∷ others
    → AllReady phones ps
    → AllReady (remove phone phones) (next ∷ others)
AllReady-left phones phone next ps others e all p c =
    ground (arith, contains_left phone p next ps others e, all p, ready_left phones phone p)

-- What the end of a phone leaves of a session: `passed` says that the phone drove it.
Agree-left :
    (phones : HashMap ℕ Phone) (phone d : ℕ) (ps rest : List ℕ) (passed : Bool)
    → set_remove phone ps ≡ rest
    → (d ≡ phone → passed ≡ true)
    → Agree phones (some ps) (some d)
    → Agree
        (remove phone phones)
        (without phone ps)
        (if passed then (without phone ps >>= first) else some d)
unfolding first
Agree-left phones phone d ps [] passed e drove a =
    rw (without-none phone ps e, drove (last_watcher phones ps d phone e a)) tt
Agree-left phones phone d ps (next ∷ others) true e drove a =
    rw (without-some phone next ps others e) (
      contains_head next others,
      AllReady-left phones phone next ps others e a.1,
      left-Distinct phone next ps others e a.2,
    )
Agree-left phones phone d ps (next ∷ others) false e drove a =
    rw (without-some phone next ps others e) (
      ground (arith, contains_left phone d next ps others e, ==_iff phone d),
      AllReady-left phones phone next ps others e a.1,
      left-Distinct phone next ps others e a.2,
    )

Agree-eof :
    (phones : HashMap ℕ Phone) (phone : ℕ) (ws : Option (List ℕ)) (d : Option ℕ) (passed : Bool)
    → (d ≡ some phone → passed ≡ true)
    → (d ≡ none → passed ≡ false)
    → Agree phones ws d
    → Agree
        (remove phone phones)
        (ws >>= without phone)
        (if passed then (ws >>= without phone >>= first) else d)
Agree-eof phones phone none none passed drove free a = rw (free refl) tt
Agree-eof phones phone none (some d) passed drove free a = elim a [ ]
Agree-eof phones phone (some ps) none passed drove free a = elim a [ ]
Agree-eof phones phone (some ps) (some d) passed drove free a =
    Agree-left phones phone d ps (set_remove phone ps) passed refl (λ e. drove (ap some e)) a

module _ ⦃J : Json⦄ where
  -- A phone that goes leaves no session behind without a driver, and no claim that it could answer.
  pub on_phone_eof-Inv : (phone : ℕ) (h : Hub) → Inv h → Inv (on_phone_eof phone h)
  unfolding on_phone_eof drop_phone
  on_phone_eof-Inv phone h v = record {
    watched = λ s.
        rw
          (
            get-hand_on (retain (λ session set. without phone set) h.watchers) s
                (driven_by phone h.driver) h.driver,
            get-retain (λ session set. without phone set) s h.watchers v.distinct,
          )
          (Agree-eof h.phones phone (get s h.watchers) (get s h.driver) _
            (driven_by_owner s phone h.driver) (driven_by-none s phone h.driver) (v.watched s));
    distinct = retain-DistinctKeys (λ session set. without phone set) h.watchers v.distinct;
    fresh = λ p lt. ground (arith, get-remove phone p h.phones, v.fresh p);
    asked = λ k c e. ground (
      arith,
      get-retain_keys (λ (key : ℕ × J.Value). key.0 == phone) k h.reverse,
      get-remove phone k.0 h.phones,
      v.asked k c,
      ==_iff k.0 phone,
      ==_iff phone k.0,
    );
  }
