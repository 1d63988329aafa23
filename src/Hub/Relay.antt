-- ===== src/Hub/Relay.antt =====
-- A phone's request goes to the leader under the hub's own id, and the answer comes back under the
-- phone's.
use aqualung.Common.{false}
use aqualung.Common.{
  ℕ, String, ◌≡◌, refl, ap, ◌∙◌, none, some, ◌∷◌, nat_eq, string_eq, arith, ◌>>=◌, pos, ==_refl,
}
use aqualung.Common.HashMap.{get, insert, remove, get-insert, get-remove}
use aqualung.Json.{Json}
use aqualung.Wire.{LeaderClient}
use aqualung.Hub.Loads.{next_id}
use aqualung.Hub.Link.{to_leader, to_phone, mux}
use aqualung.Hub.State.{
  Hub, Phone, Wait, forwarded, phone_out, mux_out, role, send_phone, alloc_req,
}
use aqualung.Hub.Watching.{watch}
use aqualung.Hub.FromHome.{is_mux}
use aqualung.Hub.FromHome.Frames.{watch_reply, settle, on_home_result}
use aqualung.Hub.FromPhone.{forward_request}

module _ ⦃J : Json⦄ where
  open J use {Value, field, set_field, as_u64, to_string, number}

  -- The request that a phone sent, as it goes to the leader.
  abbrev pub forwarded_text : ℕ → Value → String
  forwarded_text id obj = to_string (set_field obj "id" (number (pos id)))

  forward_request_lem :
      (phone : ℕ) (origin obj : Value) (out : ℕ) (h : Hub)
      → mux_out h ≡ some out
      → forward_request phone origin obj h ≡ record h {
        next_req = next_id h.next_req;
        outstanding = insert (next_id h.next_req) (forwarded phone origin) h.outstanding;
        sent = to_leader out (LeaderClient.acp (forwarded_text (next_id h.next_req) obj)) ∷ h.sent;
      }
  unfolding forward_request alloc_req
  forward_request_lem phone origin obj out h e = rw (e, forward_request) refl

  watch_reply-sent : (phone : ℕ) (obj : Value) (h : Hub) → (watch_reply phone obj h).sent ≡ h.sent
  unfolding watch_reply watch
  watch_reply-sent phone obj h = ground arith

  watch_reply-phones :
      (phone : ℕ) (obj : Value) (h : Hub) → (watch_reply phone obj h).phones ≡ h.phones
  unfolding watch_reply watch
  watch_reply-phones phone obj h = ground arith

  watch_reply-outstanding :
      (phone : ℕ) (obj : Value) (h : Hub) → (watch_reply phone obj h).outstanding ≡ h.outstanding
  unfolding watch_reply watch
  watch_reply-outstanding phone obj h = ground arith

  send_phone_lem :
      (phone : ℕ) (slot : Phone) (text : String) (h : Hub)
      → get phone h.phones ≡ some slot
      → (send_phone phone text h).sent ≡ to_phone (phone_out slot) text ∷ h.sent
  unfolding send_phone
  send_phone_lem phone slot text h e = rw (e, send_phone) refl

  send_phone-outstanding :
      (phone : ℕ) (text : String) (h : Hub) → (send_phone phone text h).outstanding ≡ h.outstanding
  unfolding send_phone
  send_phone-outstanding phone text h = ground arith

  on_home_result_lem :
      (gen id : ℕ) (wait : Wait) (reply : Value) (h : Hub)
      → (do value ← field reply "id"; as_u64 value) ≡ some id
      → get id h.outstanding ≡ some wait
      → on_home_result gen reply h
        ≡ settle gen id reply wait (record h { outstanding = remove id h.outstanding })
  unfolding on_home_result
  on_home_result_lem gen id wait reply h named waits = rw (named, on_home_result, waits) refl

  settle_lem :
      (gen id phone : ℕ) (origin reply : Value) (h : Hub)
      → role h gen ≡ mux
      → settle gen id reply (forwarded phone origin) h
        ≡ send_phone phone (to_string (set_field reply "id" origin)) (watch_reply phone reply h)
  unfolding settle
  settle_lem gen id phone origin reply h served = rw served refl

  -- An answer from the leader to a request that a phone is waiting for.
  on_home_result-forwarded :
      (gen id phone : ℕ) (slot : Phone) (origin reply : Value) (h : Hub)
      → role h gen ≡ mux
      → (do value ← field reply "id"; as_u64 value) ≡ some id
      → get id h.outstanding ≡ some (forwarded phone origin)
      → get phone h.phones ≡ some slot
      → ((on_home_result gen reply h).sent
          ≡ to_phone (phone_out slot) (to_string (set_field reply "id" origin)) ∷ h.sent)
        × ((on_home_result gen reply h).outstanding ≡ remove id h.outstanding)
  unfolding role
  on_home_result-forwarded gen id phone slot origin reply h served named waits there =
      let taken : Hub = record h { outstanding = remove id h.outstanding } in
      let watched = watch_reply phone reply taken in
      rw
        (
          on_home_result_lem gen id (forwarded phone origin) reply h named waits,
          settle_lem gen id phone origin reply taken served,
        )
        (
          send_phone_lem phone slot (to_string (set_field reply "id" origin)) watched
                (ap (get phone) (watch_reply-phones phone reply taken) ∙ there)
              ∙ ap
                  (λ sent.
                    to_phone (phone_out slot) (to_string (set_field reply "id" origin)) ∷ sent)
                  (watch_reply-sent phone reply taken),
          send_phone-outstanding phone (to_string (set_field reply "id" origin)) watched
              ∙ watch_reply-outstanding phone reply taken,
        )

  on_home_result_lost :
      (gen id : ℕ) (reply : Value) (h : Hub)
      → (do value ← field reply "id"; as_u64 value) ≡ some id
      → get id h.outstanding ≡ none
      → on_home_result gen reply h ≡ h
  unfolding on_home_result
  on_home_result_lost gen id reply h named gone = rw (named, on_home_result, gone) refl

  -- A request of a connected phone that the hub forwards while a home connection is served, and the
  -- leader's answer to it on that connection: the leader gets the request under the hub's id, the
  -- phone gets the answer under the id that it chose, nothing else is sent, and a second answer
  -- under that id changes nothing.
  pub forward_request-on_home_result :
      (phone gen out : ℕ) (slot : Phone) (origin obj reply : Value) (h : Hub)
      → role h gen ≡ mux
      → mux_out h ≡ some out
      → get phone h.phones ≡ some slot
      → (do value ← field reply "id"; as_u64 value) ≡ some (next_id h.next_req)
      → ((on_home_result gen reply (forward_request phone origin obj h)).sent
          ≡ to_phone (phone_out slot) (to_string (set_field reply "id" origin))
            ∷ to_leader out (LeaderClient.acp (forwarded_text (next_id h.next_req) obj))
            ∷ h.sent)
        × (on_home_result gen reply (on_home_result gen reply (forward_request phone origin obj h))
            ≡ on_home_result gen reply (forward_request phone origin obj h))
  unfolding role
  forward_request-on_home_result phone gen out slot origin obj reply h served open_ there named =
      let id = next_id h.next_req in
      let asked : Hub = record h {
        next_req = id;
        outstanding = insert id (forwarded phone origin) h.outstanding;
        sent = to_leader out (LeaderClient.acp (forwarded_text id obj)) ∷ h.sent;
      } in
      let (sent, left) =
        on_home_result-forwarded gen id phone slot origin reply asked served named
          (rw (get-insert, ==_refl id) refl) there in
      rw (forward_request_lem phone origin obj out h open_) (
        sent,
        on_home_result_lost gen id reply (on_home_result gen reply asked) named
            (rw (left, get-remove, ==_refl id) refl),
      )

  settle_unserved :
      (gen id phone : ℕ) (origin reply : Value) (h : Hub)
      → is_mux (role h gen) ≡ false
      → settle gen id reply (forwarded phone origin) h ≡ h
  unfolding settle
  settle_unserved gen id phone origin reply h unserved = rw unserved refl

  -- A result from a home connection that is not the one served, under the id of a request that a
  -- phone waits for: nothing is sent, but the wait is gone, so that any later answer under that id,
  -- the served connection's too, changes nothing.
  pub on_home_result-lost :
      (gen later id phone : ℕ) (origin reply answer : Value) (h : Hub)
      → is_mux (role h gen) ≡ false
      → (do value ← field reply "id"; as_u64 value) ≡ some id
      → (do value ← field answer "id"; as_u64 value) ≡ some id
      → get id h.outstanding ≡ some (forwarded phone origin)
      → ((on_home_result gen reply h).sent ≡ h.sent)
        × (on_home_result later answer (on_home_result gen reply h) ≡ on_home_result gen reply h)
  unfolding role
  on_home_result-lost gen later id phone origin reply answer h unserved named again waits =
      let taken : Hub = record h { outstanding = remove id h.outstanding } in
      rw
        (
          on_home_result_lem gen id (forwarded phone origin) reply h named waits,
          settle_unserved gen id phone origin reply taken unserved,
        )
        (refl, on_home_result_lost later id answer taken again (rw (get-remove, ==_refl id) refl))
