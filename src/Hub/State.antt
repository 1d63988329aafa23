-- ===== src/Hub/State.antt =====
-- The state of crates/topside/src/hub.rs, `Hub`, and the operations that its handlers share.
use Prim.Native.String.{◌++◌ as str_append}
use aqualung.Common.{
  ℕ, String, Bool, true, false, Option, none, some, List, [], ◌∷◌, Eq, ◌==◌, nat_eq, string_eq, ◌↔◌,
  ◌≡◌, ap, ◌&&◌, arith, if◌then◌else◌,
}
use aqualung.Common.Decimal.{decimal}
use aqualung.Common.HashMap.{HashMap, get}
use aqualung.Json.{Json}
use aqualung.Wire.Rpc.{host_is_away, host_away_note, rpc_error}
use aqualung.Hub.Loads.{next_id}
use aqualung.Hub.Link.{
  Effect, to_phone, Link, drop_link, Home, away, bringing_up, sole, dual, Role, mux, candidate,
  unknown, link_of,
}

-- Milliseconds: `REGISTER_WAIT` and `READY_WAIT`.
abbrev pub register_wait : ℕ
register_wait = 10000

abbrev pub ready_wait : ℕ
ready_wait = 120000

pub data Phone : Type 0 where
  connected : ℕ → Phone
  ready : ℕ → Phone

-- `Phone::out`
unfoldable pub phone_out : Phone → ℕ
phone_out (connected out) = out
phone_out (ready out) = out

unfoldable pub is_ready : Phone → Bool
is_ready (connected _) = false
is_ready (ready _) = true

-- The clauses of `Hub::role`.
unfoldable pub role_in : Home → ℕ → Role
unfolding link_of
role_in away home_gen = unknown
role_in (bringing_up incoming) home_gen =
    if (link_of incoming).home_gen == home_gen then candidate else unknown
role_in (sole live) home_gen = if live.link.home_gen == home_gen then mux else unknown
role_in (dual rep) home_gen =
    if rep.incumbent.link.home_gen == home_gen
    then mux
    else if (link_of rep.incoming).home_gen == home_gen
    then candidate
    else unknown

-- The clauses of `Hub::mux_link`.
unfoldable pub mux_link_in : Home → Option Link
mux_link_in away = none
mux_link_in (bringing_up _) = none
mux_link_in (sole live) = some live.link
mux_link_in (dual rep) = some rep.incumbent.link

-- The loop of `broadcast_away`.
unfoldable pub tell_ready : String → HashMap ℕ Phone → List Effect → List Effect
tell_ready note [] sent = sent
tell_ready note ((_, connected _) ∷ phones) sent = tell_ready note phones sent
tell_ready note ((_, ready out) ∷ phones) sent = tell_ready note phones (to_phone out note ∷ sent)

module _ ⦃J : Json⦄ where
  open J use {Value, string, value_eq}

  -- The key of `reverse`: a phone and the id of a request at that phone.
  abbrev pub reverse_key_beq : ℕ × Value → ℕ × Value → Bool
  reverse_key_beq a b = (a.0 == b.0) && value_eq.beq a.1 b.1

  pub data Wait : Type 0 where
    forwarded : ℕ → Value → Wait
    hub_initialize : Wait
    hub_load : Wait

  pub data Claim : Type 0 where
    open_claim : Value → Claim
    taken : Claim

  -- `Claim::take`: the claim afterwards, and the id that it held.
  unfoldable pub take_claim : Claim → Claim × Option Value
  take_claim (open_claim home_id) = (taken, some home_id)
  take_claim taken = (taken, none)

  -- `sent` holds what the hub has sent so far, the newest first.
  pub record Hub : Type 0 where
    pub home : Home
    pub phones : HashMap ℕ Phone
    pub watchers : HashMap String (List ℕ)
    pub driver : HashMap String ℕ
    pub outstanding : HashMap ℕ Wait
    pub reverse : HashMap (ℕ × Value) ℕ
    pub claims : HashMap ℕ Claim
    pub next_phone : ℕ
    pub next_req : ℕ
    pub next_gen : ℕ
    pub reverse_seq : ℕ
    pub refused_version : Option ℕ
    pub sent : List Effect

  -- `Hub::new`
  unfoldable pub new_hub : Hub
  new_hub = record {
    home = away;
    phones = [];
    watchers = [];
    driver = [];
    outstanding = [];
    reverse = [];
    claims = [];
    next_phone = 0;
    next_req = 0;
    next_gen = 0;
    reverse_seq = 0;
    refused_version = none;
    sent = [];
  }

  abbrev pub emit : Effect → Hub → Hub
  emit effect h = record h { sent = effect ∷ h.sent }

  -- Drops a connection.
  abbrev pub dropping : Link → Hub → Hub
  dropping link h = record h { sent = drop_link link h.sent }

  unfoldable pub role : Hub → ℕ → Role
  unfolding role_in
  role h home_gen = role_in h.home home_gen

  -- `Hub::mux_out`: the channel of `Hub::mux_link`.
  unfoldable pub mux_out : Hub → Option ℕ
  unfolding mux_link_in
  mux_out h = elim (mux_link_in h.home) [ none ↦ none | some link ↦ some link.out ]

  unfoldable pub phone_ready : Hub → ℕ → Bool
  unfolding is_ready
  phone_ready h phone = elim (get phone h.phones) [ none ↦ false | some slot ↦ is_ready slot ]

  unfoldable pub send_phone : ℕ → String → Hub → Hub
  unfolding phone_out
  send_phone phone text h = elim (get phone h.phones) [
    | none ↦ h
    | some slot ↦ emit (to_phone (phone_out slot) text) h
  ]

  unfoldable pub broadcast_away : Bool → Hub → Hub
  unfolding tell_ready
  broadcast_away gone h = record h { sent = tell_ready (host_away_note gone) h.phones h.sent }

  unfoldable pub away_error : Hub → Value → String
  away_error h id = rpc_error id host_is_away (elim h.refused_version [
    | some version ↦
        str_append "host is away (unsupported leader protocol version "
          (str_append (decimal version) ")")
    | none ↦ "host is away"
  ])

  -- The id, and the hub with its counter moved.
  unfoldable pub alloc_req : Hub → ℕ × Hub
  unfolding next_id
  alloc_req h = let id = next_id h.next_req in (id, record h { next_req = id })

  unfoldable pub alloc_reverse_id : Hub → Value × Hub
  unfolding next_id
  alloc_reverse_id h =
      let seq = next_id h.reverse_seq in
      (string (str_append "aq:" (decimal seq)), record h { reverse_seq = seq })

-- Two keys are equal where their parts are.
pub reverse_key_iff : ⦃J : Json⦄ → (a b : ℕ × J.Value) → (reverse_key_beq a b ≡ true) ↔ (a ≡ b)
reverse_key_iff ⦃J⦄ (p, v) (q, w) = (
  λ h. ground (arith, (J.value_eq.beq_iff v w).0),
  λ h. ground (
    arith,
    (J.value_eq.beq_iff v w).1 (ap (λ (k : ℕ × J.Value). k.1) h),
    ap (λ (k : ℕ × J.Value). k.0) h,
  ),
)

instance abbrev pub reverse_key_eq : ⦃J : Json⦄ → Eq (ℕ × J.Value)
reverse_key_eq ⦃J⦄ = record { beq = reverse_key_beq; beq_iff = reverse_key_iff }
