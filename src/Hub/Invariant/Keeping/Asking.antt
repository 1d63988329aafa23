-- ===== src/Hub/Invariant/Keeping/Asking.antt =====
-- The invariant where phones are asked, initialize and answer.
use aqualung.Common.{
  ℕ, ◌≡◌, refl, inl, inr, true, Option, none, some, List, [], ◌∷◌, nat_eq, string_eq, String, arith,
  is_some, ==_iff, Bool-cases, Option-cases, option_cases, if_cases, ◌>>=◌,
}
use aqualung.Common.HashMap.{HashMap, get, insert, remove, get-insert, get-remove}
use aqualung.Common.HashSet.{contains}
use aqualung.Json.{Json}
use aqualung.Hub.State.{
  Hub, Phone, take_claim, Claim, open_claim, taken, is_ready, reverse_key_eq, alloc_req,
  alloc_reverse_id, send_phone, phone_out,
}
use aqualung.Hub.Watching.{or_default}
use aqualung.Hub.FromHome.{to_list}
use aqualung.Hub.FromHome.Frames.{targets, ask_phones, ask, on_reverse_request}
use aqualung.Hub.FromPhone.{answer_initialize, answer_claim, on_phone_reply}
use aqualung.Hub.Untouched.{send_phone-Untouched}
use aqualung.Hub.Untouched.Candidates.{forward_notification-Untouched}
use aqualung.Hub.Invariant.{Inv}
use aqualung.Hub.Invariant.Agreement.{Agree, ready_in, Agree-mono}
use aqualung.Wire.Rpc.{is_interaction, session_id_in}
use aqualung.Hub.Loads.{next_id}
use aqualung.Common.Decimal.{decimal}
use Prim.Native.String.{◌++◌ as str_append}
use aqualung.Hub.Link.{Effect, is_away}
use aqualung.Hub.Invariant.Keeping.{Keeps, Keeps-refl, Keeps-trans, Keeps-Untouched}

module _ ⦃J : Json⦄ where
  -- A phone that is asked is connected.
  ready_connected :
      (phones : HashMap ℕ Phone) (p : ℕ) → ready_in phones p ≡ true → is_some (get p phones) ≡ true
  ready_connected phones p r = ground arith

  agreed_connected :
      (phones : HashMap ℕ Phone) (ws : Option (List ℕ)) (d : Option ℕ) (p : ℕ)
      → Agree phones ws d
      → (contains p (or_default ws) ≡ true → is_some (get p phones) ≡ true)
        × (contains p (to_list d) ≡ true → is_some (get p phones) ≡ true)
  unfolding or_default contains
  agreed_connected phones none none p a = (λ c. cc, λ c. cc)
  agreed_connected phones none (some d) p a = elim a [ ]
  agreed_connected phones (some ps) none p a = elim a [ ]
  agreed_connected phones (some ps) (some d) p a = (
    λ c. ready_connected phones p (a.1 p c),
    λ c. ready_connected phones p (a.1 p (ground (arith, ==_iff d p))),
  )

  pub targets-connected :
      (method session : String) (h : Hub) (p : ℕ)
      → Inv h
      → contains p (targets method session h) ≡ true
      → is_some (get p h.phones) ≡ true
  unfolding targets
  targets-connected method session h p v c =
      let agreed =
        agreed_connected h.phones (get session h.watchers) (get session h.driver) p
          (v.watched session) in
      elim (Bool-cases (is_interaction method)) [
        | inl yes' ↦ agreed.0 (rw yes' at c)
        | inr no' ↦ agreed.1 (rw no' at c)
      ]

  -- One more phone is asked under a claim that is there.
  asked_one :
      (phone key : ℕ) (id : J.Value) (seq : ℕ) (h : Hub)
      → is_some (get phone h.phones) ≡ true
      → is_some (get key h.claims) ≡ true
      → Inv h
      → Inv (record h { reverse_seq = seq; reverse = insert (phone, id) key h.reverse })
  asked_one phone key id seq h there opened v = record {
    watched = v.watched;
    distinct = v.distinct;
    fresh = v.fresh;
    asked = λ k c e.
        ground (arith, get-insert (phone, id) k key h.reverse, ==_iff (phone, id) k, v.asked k c);
  }

  pub ask_phones-Keeps :
      (phones : List ℕ) (key : ℕ) (obj : J.Value) (h : Hub)
      → ((p : ℕ) → contains p phones ≡ true → is_some (get p h.phones) ≡ true)
      → is_some (get key h.claims) ≡ true
      → Keeps h (ask_phones phones key obj h)
  unfolding ask_phones alloc_reverse_id contains
  ask_phones-Keeps [] key obj h there opened = Keeps-refl h
  ask_phones-Keeps (phone ∷ rest) key obj h there opened =
      let id = J.string (str_append "aq:" (decimal (next_id h.reverse_seq))) in
      let text = J.to_string (J.set_field obj "id" id) in
      let h1 : Hub = record h {
        reverse_seq = next_id h.reverse_seq;
        reverse = insert (phone, id) key h.reverse;
      } in
      let u = send_phone-Untouched phone text h1 in
      Keeps-trans
        (record {
          inv =
              asked_one phone key id (next_id h.reverse_seq) h
                (there phone (ground (arith, ==_iff phone phone))) opened;
          next_phone = λ v. refl;
          next_gen = λ v. refl;
        })
        (Keeps-trans (Keeps-Untouched u) (
          ask_phones-Keeps rest key obj (send_phone phone text h1)
            (λ p c. rw u.phones (there p (ground arith))) (rw u.claims opened)))

  -- A claim is put in, or put in anew.
  claim_one :
      (key : ℕ) (claim : Claim) (n : ℕ) (h : Hub)
      → Inv h
      → Inv (record h { next_req = n; claims = insert key claim h.claims })
  claim_one key claim n h v = record {
    watched = v.watched;
    distinct = v.distinct;
    fresh = v.fresh;
    asked = λ k c e. ground (arith, get-insert key c claim h.claims, v.asked k c);
  }

  ask-Keeps :
      (phones : List ℕ) (id obj : J.Value) (h : Hub)
      → (Inv h → (p : ℕ) → contains p phones ≡ true → is_some (get p h.phones) ≡ true)
      → Keeps h (ask phones id obj h)
  unfolding ask alloc_req
  ask-Keeps [] id obj h there = Keeps-refl h
  ask-Keeps (phone ∷ rest) id obj h there =
      let key = next_id h.next_req in
      let h1 : Hub = record h { next_req = key; claims = insert key (open_claim id) h.claims } in
      let opened : is_some (get key h1.claims) ≡ true =
        rw get-insert (ground (arith, ==_iff key key)) in
      let asked = λ (v : Inv h). ask_phones-Keeps (phone ∷ rest) key obj h1 (there v) opened in
      record {
        inv = λ v. (asked v).inv (claim_one key (open_claim id) key h v);
        next_phone = λ v. (asked v).next_phone (claim_one key (open_claim id) key h v);
        next_gen = λ v. (asked v).next_gen (claim_one key (open_claim id) key h v);
      }

  pub on_reverse_request-Keeps : (obj : J.Value) (h : Hub) → Keeps h (on_reverse_request obj h)
  unfolding on_reverse_request
  on_reverse_request-Keeps obj h =
      option_cases (Keeps h) (do value ← J.field obj "method"; J.as_str value) (Keeps-refl h)
        λ method. option_cases (Keeps h) (J.field obj "id") (Keeps-refl h) λ home_id.
          option_cases (Keeps h) (session_id_in obj) (Keeps-refl h) λ session.
            ask-Keeps (targets method session h) home_id obj h
              (λ v p. targets-connected method session h p v)

  -- The phone that initializes stays where it is.
  readied :
      (phone out : ℕ) (slot : Phone) (h : Hub) (sent : List Effect)
      → get phone h.phones ≡ some slot
      → Inv h
      → Inv (record h {
        phones = insert phone (Phone.ready out) (remove phone h.phones);
        sent = sent;
      })
  unfolding is_ready
  readied phone out slot h sent there v = record {
    watched = λ s.
        Agree-mono h.phones _ (get s h.watchers) (get s h.driver)
          (λ p r. ground (
            arith,
            get-insert phone p (Phone.ready out) (remove phone h.phones),
            get-remove phone p h.phones,
          ))
          (v.watched s);
    distinct = v.distinct;
    fresh = λ p lt. ground (
      arith,
      get-insert phone p (Phone.ready out) (remove phone h.phones),
      get-remove phone p h.phones,
      v.fresh p lt,
    );
    asked = λ k c e. ground (
      arith,
      get-insert phone k.0 (Phone.ready out) (remove phone h.phones),
      get-remove phone k.0 h.phones,
      v.asked k c,
    );
  }

  pub answer_initialize-Keeps :
      (phone : ℕ) (id : J.Value) (h : Hub) → Keeps h (answer_initialize phone id h)
  unfolding answer_initialize
  answer_initialize-Keeps phone id h = elim (Option-cases (get phone h.phones)) [
    | inl gone ↦ rw (gone, answer_initialize) (Keeps-refl h)
    | inr (slot, there) ↦
        rw (there, answer_initialize)
          (if_cases (Keeps h) (is_away h.home)
            (record {
              inv = readied phone (phone_out slot) slot h _ there;
              next_phone = λ v. refl;
              next_gen = λ v. refl;
            })
            (record {
              inv = readied phone (phone_out slot) slot h _ there;
              next_phone = λ v. refl;
              next_gen = λ v. refl;
            }))
  ]

  answer_claim-Keeps :
      (key : ℕ) (obj : J.Value) (claim : Claim) (h : Hub) → Keeps h (answer_claim key obj claim h)
  unfolding answer_claim take_claim
  answer_claim-Keeps key obj (open_claim id) h =
      Keeps-trans
        (record {
          inv = claim_one key taken h.next_req h;
          next_phone = λ v. refl;
          next_gen = λ v. refl;
        })
        (Keeps-Untouched (forward_notification-Untouched (J.set_field obj "id" id) _))
  answer_claim-Keeps key obj taken h = record {
    inv = claim_one key taken h.next_req h;
    next_phone = λ v. refl;
    next_gen = λ v. refl;
  }

  replied :
      (phone : ℕ) (origin : J.Value) (h : Hub)
      → Keeps h (record h { reverse = remove (phone, origin) h.reverse })
  replied phone origin h = record {
    inv = λ v. record {
      watched = v.watched;
      distinct = v.distinct;
      fresh = v.fresh;
      asked = λ k c e. ground (arith, get-remove (phone, origin) k h.reverse, v.asked k c);
    };
    next_phone = λ v. refl;
    next_gen = λ v. refl;
  }

  pub on_phone_reply-Keeps :
      (phone : ℕ) (origin obj : J.Value) (h : Hub) → Keeps h (on_phone_reply phone origin obj h)
  unfolding on_phone_reply
  on_phone_reply-Keeps phone origin obj h =
      option_cases (Keeps h) (get (phone, origin) h.reverse) (Keeps-refl h) λ key.
        option_cases (Keeps h) (get key h.claims) (replied phone origin h)
          λ claim. Keeps-trans (replied phone origin h) (answer_claim-Keeps key obj claim _)
