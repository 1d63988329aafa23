-- ===== src/Hub/Invariant/Keeping.antt =====
-- The handlers that keep the invariant and give out no phone id.
pub mod Asking
use aqualung.Common.{
  ℕ, ◌≡◌, refl, ◌∙◌, inl, inr, true, Option, none, some, List, [], ◌∷◌, nat_eq, string_eq, String,
  arith, is_some, ==_iff, Bool-cases, Option-cases, option_cases, if_cases, ◌>>=◌,
}
use aqualung.Common.HashMap.{HashMap, get, insert, remove, get-insert, get-remove}
use aqualung.Common.HashSet.{contains}
use aqualung.Json.{Json}
use aqualung.Hub.State.{
  Hub, Phone, take_claim, Claim, open_claim, taken, is_ready, reverse_key_eq, alloc_req,
  alloc_reverse_id, send_phone, phone_out,
}
use aqualung.Hub.Watching.{or_default, watch, unwatch}
use aqualung.Hub.FromHome.{to_list}
use aqualung.Hub.FromHome.Frames.{watch_reply, targets, ask_phones, ask, on_reverse_request}
use aqualung.Hub.FromPhone.{
  answer_initialize, answer_claim, on_phone_reply, watch_named, unwatch_named,
}
use aqualung.Hub.Untouched.{Untouched, send_phone-Untouched}
use aqualung.Hub.Untouched.Candidates.{forward_notification-Untouched}
use aqualung.Hub.Invariant.{Inv}
use aqualung.Hub.Invariant.Agreement.{Agree, ready_in, Agree-mono}
use aqualung.Hub.Invariant.Watching.{watch-Inv, unwatch-Inv}
use aqualung.Wire.Rpc.{is_interaction, session_id_in}
use aqualung.Hub.Loads.{next_id}
use aqualung.Common.Decimal.{decimal}
use Prim.Native.String.{◌++◌ as str_append}
use aqualung.Hub.Link.{Effect, is_away}

module _ ⦃J : Json⦄ where
  pub record Keeps (h h' : Hub) : Type 0 where
    pub inv : Inv h → Inv h'
    pub next_phone : Inv h → h'.next_phone ≡ h.next_phone
    pub next_gen : Inv h → h'.next_gen ≡ h.next_gen

  pub Keeps-refl : (h : Hub) → Keeps h h
  Keeps-refl h = record { inv = λ v. v; next_phone = λ v. refl; next_gen = λ v. refl }

  pub Keeps-trans : {h h' h'' : Hub} → Keeps h h' → Keeps h' h'' → Keeps h h''
  Keeps-trans a b = record {
    inv = λ v. b.inv (a.inv v);
    next_phone = λ v. b.next_phone (a.inv v) ∙ a.next_phone v;
    next_gen = λ v. b.next_gen (a.inv v) ∙ a.next_gen v;
  }

  pub Keeps-Untouched : {h h' : Hub} → Untouched h h' → Keeps h h'
  Keeps-Untouched u = record {
    inv = λ v. record {
      watched = λ s. rw (u.phones, u.watchers, u.driver) (v.watched s);
      distinct = rw u.watchers v.distinct;
      fresh = λ p lt. rw u.phones (v.fresh p (rw u.next_phone at lt));
      asked = λ k c e. rw (u.phones, u.claims) (v.asked k c (rw u.reverse at e));
    };
    next_phone = λ v. u.next_phone;
    next_gen = λ v. u.next_gen;
  }

  watch-next_gen :
      (phone : ℕ) (session : String) (h : Hub) → (watch phone session h).1.next_gen ≡ h.next_gen
  unfolding watch
  watch-next_gen phone session h = ground arith

  watch-next_phone :
      (phone : ℕ) (session : String) (h : Hub) → (watch phone session h).1.next_phone ≡ h.next_phone
  unfolding watch
  watch-next_phone phone session h = ground arith

  pub watch-Keeps : (phone : ℕ) (session : String) (h : Hub) → Keeps h (watch phone session h).1
  watch-Keeps phone session h = record {
    inv = watch-Inv phone session h;
    next_phone = λ v. watch-next_phone phone session h;
    next_gen = λ v. watch-next_gen phone session h;
  }

  unwatch-next_gen :
      (phone : ℕ) (session : String) (h : Hub) → (unwatch phone session h).next_gen ≡ h.next_gen
  unfolding unwatch
  unwatch-next_gen phone session h = ground arith

  unwatch-next_phone :
      (phone : ℕ) (session : String) (h : Hub) → (unwatch phone session h).next_phone ≡ h.next_phone
  unfolding unwatch
  unwatch-next_phone phone session h = ground arith

  pub unwatch-Keeps : (phone : ℕ) (session : String) (h : Hub) → Keeps h (unwatch phone session h)
  unwatch-Keeps phone session h = record {
    inv = unwatch-Inv phone session h;
    next_phone = λ v. unwatch-next_phone phone session h;
    next_gen = λ v. unwatch-next_gen phone session h;
  }

  pub watch_reply-Keeps : (phone : ℕ) (obj : J.Value) (h : Hub) → Keeps h (watch_reply phone obj h)
  unfolding watch_reply
  watch_reply-Keeps phone obj h =
      option_cases (Keeps h) _ (Keeps-refl h) λ session. watch-Keeps phone session h

  pub watch_named-Keeps : (phone : ℕ) (obj : J.Value) (h : Hub) → Keeps h (watch_named phone obj h)
  unfolding watch_named
  watch_named-Keeps phone obj h =
      option_cases (Keeps h) _ (Keeps-refl h) λ session. watch-Keeps phone session h

  pub unwatch_named-Keeps :
      (phone : ℕ) (obj : J.Value) (h : Hub) → Keeps h (unwatch_named phone obj h)
  unfolding unwatch_named
  unwatch_named-Keeps phone obj h =
      option_cases (Keeps h) _ (Keeps-refl h) λ session. unwatch-Keeps phone session h

  pub send_phone-Keeps : (phone : ℕ) (text : String) (h : Hub) → Keeps h (send_phone phone text h)
  send_phone-Keeps phone text h = Keeps-Untouched (send_phone-Untouched phone text h)
