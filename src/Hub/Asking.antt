-- ===== src/Hub/Asking.antt =====
-- Requests of the leader to the phones: who is asked, and whose answer counts.
use Prim.Native.String.{◌++◌ as str_append}
use mathlib.Core.List.{append_assoc}
use aqualung.Common.{
  ◌++◌, ap, sym, Option-cases, ℕ, String, ◌≡◌, refl, ◌∙◌, true, none, some, List, [], ◌∷◌, ◌==◌,
  nat_eq, string_eq, arith, ==_iff, ◌>>=◌, ==_refl, ◌⊎◌, inl, inr, Bool-cases,
}
use aqualung.Common.HashMap.{get, insert, remove, get-insert, get-remove}
use aqualung.Common.HashSet.{contains}
use aqualung.Json.{Json}
use aqualung.Common.Decimal.{decimal}
use aqualung.Wire.{LeaderClient}
use aqualung.Hub.Loads.{next_id}
use aqualung.Hub.Link.{to_leader, to_phone, Effect}
use aqualung.Hub.State.{
  Hub, Phone, phone_out, open_claim, taken, take_claim, mux_out, send_phone, alloc_req,
  alloc_reverse_id, reverse_key_eq, emit, reverse_key_beq,
}
use aqualung.Hub.FromHome.Frames.{ask_phones, ask, targets, on_reverse_request}
use aqualung.Wire.Rpc.{session_id_in}
use aqualung.Hub.FromPhone.{forward_notification, answer_claim, on_phone_reply}
use aqualung.Hub.Untouched.{send_phone-Untouched}

module _ ⦃J : Json⦄ where
  open J use {Value, set_field, to_string}

  forward_lem :
      (obj : Value) (out : ℕ) (h : Hub)
      → mux_out h ≡ some out
      → forward_notification obj h ≡ emit (to_leader out (LeaderClient.acp (to_string obj))) h
  unfolding forward_notification
  forward_lem obj out h open_ = rw (open_, forward_notification) refl

  -- The first answer to a claim.
  reply_open :
      (phone : ℕ) (origin obj home_id : Value) (key out : ℕ) (h : Hub)
      → get (phone, origin) h.reverse ≡ some key
      → get key h.claims ≡ some (open_claim home_id)
      → mux_out h ≡ some out
      → on_phone_reply phone origin obj h ≡ record h {
        reverse = remove (phone, origin) h.reverse;
        claims = insert key taken h.claims;
        sent = to_leader out (LeaderClient.acp (to_string (set_field obj "id" home_id))) ∷ h.sent;
      }
  unfolding on_phone_reply answer_claim take_claim mux_out
  reply_open phone origin obj home_id key out h asked there open_ =
      rw (asked, on_phone_reply, there) (forward_lem (set_field obj "id" home_id) out _ open_)

  reply_taken-sent :
      (phone : ℕ) (origin obj : Value) (key : ℕ) (h : Hub)
      → get key h.claims ≡ some taken
      → (get (phone, origin) h.reverse ≡ none) ⊎ (get (phone, origin) h.reverse ≡ some key)
      → (on_phone_reply phone origin obj h).sent ≡ h.sent
  unfolding on_phone_reply answer_claim take_claim
  reply_taken-sent phone origin obj key h there (inl gone) = rw (gone, on_phone_reply) refl
  reply_taken-sent phone origin obj key h there (inr asked) = rw (asked, on_phone_reply, there) refl

  -- Another phone's request is still there, if it was not the same.
  unless_gone :
      (p q key : ℕ) (a b : Value) (h : Hub)
      → get (q, b) h.reverse ≡ some key
      → (get (q, b) (remove (p, a) h.reverse) ≡ none)
        ⊎ (get (q, b) (remove (p, a) h.reverse) ≡ some key)
  unless_gone p q key a b h asked =
      rw get-remove (elim (Bool-cases (reverse_key_beq (p, a) (q, b))) [
        | inl same ↦ rw same (inl refl)
        | inr other ↦ rw other (inr asked)
      ])

  -- Two answers to one request of the leader, by any phones that were asked it: the leader gets the
  -- first, under the id of its request, and not the second.
  pub on_phone_reply-on_phone_reply :
      (p q key out : ℕ) (a b first second home_id : Value) (h : Hub)
      → get (p, a) h.reverse ≡ some key
      → get (q, b) h.reverse ≡ some key
      → get key h.claims ≡ some (open_claim home_id)
      → mux_out h ≡ some out
      → (on_phone_reply q b second (on_phone_reply p a first h)).sent
        ≡ to_leader out (LeaderClient.acp (to_string (set_field first "id" home_id))) ∷ h.sent
  on_phone_reply-on_phone_reply p q key out a b first second home_id h asked asked' there open_ =
      rw (reply_open p a first home_id key out h asked there open_) (
        reply_taken-sent q b second key _ (rw (get-insert, ==_refl key) refl)
          (unless_gone p q key a b h asked'))

  send_phone-reverse :
      (phone : ℕ) (text : String) (h : Hub) → (send_phone phone text h).reverse ≡ h.reverse
  send_phone-reverse phone text h = (send_phone-Untouched phone text h).reverse

  -- A phone that was asked under the claim stays asked under it while others are asked.
  ask_phones-asked :
      (phones : List ℕ) (key : ℕ) (obj : Value) (k : ℕ × Value) (h : Hub)
      → get k h.reverse ≡ some key
      → get k (ask_phones phones key obj h).reverse ≡ some key
  unfolding ask_phones alloc_reverse_id
  ask_phones-asked [] key obj k h e = e
  ask_phones-asked (phone ∷ rest) key obj k h e =
      let id = J.string (str_append "aq:" (decimal (next_id h.reverse_seq))) in
      ask_phones-asked rest key obj k _
        (rw send_phone-reverse (ground (arith, get-insert (phone, id) k key h.reverse)))

  -- From `h` to `w` the phone on the channel `out` was sent the request under an id of its own, under
  -- which its answer is expected for the claim.
  pub record Asked (p key out : ℕ) (obj : Value) (h w : Hub) : Type 0 where
    pub id : Value
    pub expected : get (p, id) w.reverse ≡ some key
    pub later : List Effect
    pub earlier : List Effect
    pub told :
        w.sent ≡ later ++ (to_phone out (to_string (set_field obj "id" id)) ∷ (earlier ++ h.sent))

  send_phone-sent :
      (phone : ℕ) (text : String) (h : Hub)
      → (news : List Effect) × ((send_phone phone text h).sent ≡ news ++ h.sent)
  unfolding send_phone
  send_phone-sent phone text h = elim (Option-cases (get phone h.phones)) [
    | inl gone ↦ ([], rw (gone, send_phone) refl)
    | inr (slot, there) ↦ (to_phone (phone_out slot) text ∷ [], rw (there, send_phone) refl)
  ]

  send_phone-told :
      (phone : ℕ) (slot : Phone) (text : String) (h : Hub)
      → get phone h.phones ≡ some slot
      → (send_phone phone text h).sent ≡ to_phone (phone_out slot) text ∷ h.sent
  unfolding send_phone
  send_phone-told phone slot text h there = rw (there, send_phone) refl

  -- What was asked behind one step more.
  Asked-behind :
      (p key out : ℕ) (obj : Value) (h h' w : Hub) (news : List Effect)
      → h'.sent ≡ news ++ h.sent
      → Asked p key out obj h' w
      → Asked p key out obj h w
  Asked-behind p key out obj h h' w news f r =
      let text = to_phone out (to_string (set_field obj "id" r.id)) in
      record {
        id = r.id;
        expected = r.expected;
        later = r.later;
        earlier = r.earlier ++ news;
        told =
            r.told
            ∙ ap (λ sent. r.later ++ (text ∷ (r.earlier ++ sent))) f
            ∙ ap (λ sent. r.later ++ (text ∷ sent)) (sym (append_assoc r.earlier news h.sent));
      }

  ask_phones-sent :
      (phones : List ℕ) (key : ℕ) (obj : Value) (h : Hub)
      → (news : List Effect) × ((ask_phones phones key obj h).sent ≡ news ++ h.sent)
  unfolding ask_phones alloc_reverse_id
  ask_phones-sent [] key obj h = ([], refl)
  ask_phones-sent (phone ∷ rest) key obj h =
      let (more, e) = ask_phones-sent rest key obj _ in
      let (news, f) = send_phone-sent phone _ _ in
      (more ++ news, e ∙ ap (λ sent. more ++ sent) f ∙ sym (append_assoc more news h.sent))

  ask_phones-all :
      (phones : List ℕ) (key p : ℕ) (slot : Phone) (obj : Value) (h : Hub)
      → contains p phones ≡ true
      → get p h.phones ≡ some slot
      → Asked p key (phone_out slot) obj h (ask_phones phones key obj h)
  unfolding ask_phones alloc_reverse_id contains
  ask_phones-all [] key p slot obj h c there = cc
  ask_phones-all (phone ∷ rest) key p slot obj h c there =
      let id = J.string (str_append "aq:" (decimal (next_id h.reverse_seq))) in
      let text = to_string (set_field obj "id" id) in
      let mid : Hub = record (alloc_reverse_id h).1 {
        reverse = insert (phone, id) key h.reverse;
      } in
      elim (Bool-cases (phone == p)) [
        | inl own ↦
            let (more, e) = ask_phones-sent rest key obj (send_phone phone text mid) in
            record {
              id = id;
              expected =
                  ask_phones-asked rest key obj (p, id) (send_phone phone text mid)
                    (rw send_phone-reverse (
                      ground (
                        arith,
                        get-insert (phone, id) (p, id) key h.reverse,
                        ==_iff phone p,
                        ==_iff ⦃e = reverse_key_eq⦄ (phone, id) (p, id),
                      )));
              later = more;
              earlier = [];
              told =
                  e
                  ∙ ap (λ sent. more ++ sent)
                      (send_phone-told phone slot text mid
                        (ap (λ q. get q h.phones) ((==_iff phone p).0 own) ∙ there));
            }
        | inr other ↦
            let (news, f) = send_phone-sent phone text mid in
            Asked-behind p key (phone_out slot) obj h (send_phone phone text mid) _ news f (
              ask_phones-all rest key p slot obj (send_phone phone text mid) (ground arith)
                (ap (λ phones. get p phones) (send_phone-Untouched phone text mid).phones ∙ there))
      ]

  ask_phones-claims :
      (phones : List ℕ) (key : ℕ) (obj : Value) (h : Hub)
      → (ask_phones phones key obj h).claims ≡ h.claims
  unfolding ask_phones alloc_reverse_id
  ask_phones-claims [] key obj h = refl
  ask_phones-claims (phone ∷ rest) key obj h =
      ask_phones-claims rest key obj _ ∙ (send_phone-Untouched phone _ _).claims

  ask-Asked :
      (phones : List ℕ) (home_id obj : Value) (p : ℕ) (slot : Phone) (h : Hub)
      → contains p phones ≡ true
      → get p h.phones ≡ some slot
      → Asked p (next_id h.next_req) (phone_out slot) obj h (ask phones home_id obj h)
        × (get (next_id h.next_req) (ask phones home_id obj h).claims ≡ some (open_claim home_id))
  unfolding ask alloc_req contains
  ask-Asked [] home_id obj p slot h c there = cc
  ask-Asked (phone ∷ rest) home_id obj p slot h c there = (
    (let (claim_key, mid) = alloc_req h in
        Asked-behind p _ (phone_out slot) obj h _ _ [] refl (
          ask_phones-all (phone ∷ rest) (next_id h.next_req) p slot obj
            (record mid { claims = insert claim_key (open_claim home_id) mid.claims }) c there)),
    rw (ask_phones-claims, get-insert, ==_refl (next_id h.next_req)) refl,
  )

  pub on_reverse_request-Asked :
      (obj home_id : Value) (method session : String) (p : ℕ) (slot : Phone) (h : Hub)
      → (do value ← J.field obj "method"; J.as_str value) ≡ some method
      → J.field obj "id" ≡ some home_id
      → session_id_in obj ≡ some session
      → contains p (targets method session h) ≡ true
      → get p h.phones ≡ some slot
      → Asked p (next_id h.next_req) (phone_out slot) obj h (on_reverse_request obj h)
        × (get (next_id h.next_req) (on_reverse_request obj h).claims ≡ some (open_claim home_id))
  unfolding on_reverse_request
  on_reverse_request-Asked obj home_id method session p slot h named asked on_session c there =
      rw (named, on_reverse_request, asked, on_session)
        (ask-Asked (targets method session h) home_id obj p slot h c there)
