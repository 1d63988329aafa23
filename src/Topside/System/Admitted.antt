-- ===== src/Topside/System/Admitted.antt =====
-- Who is connected to the hub of crates/topside, at any moment and in whatever order its tasks go on.
use native.Mathlib.Decide.{dec_lt}
use aqualung.Common.{
  nat_eq, ℕ, ◌+◌, ◌<◌, ◌^◌, ◌≡◌, refl, ap, ◌∙◌, sym, true, Option, none, some, List, arith, ok,
  some_inj,
}
use aqualung.Common.Lists.{total}
use aqualung.Common.HashMap.{get}
use aqualung.Json.{Json}
use aqualung.Pki.{Pki}
use aqualung.Auth.{AreBytes}
use aqualung.Hub.State.{Phone, phone_out}
use aqualung.Hub.Run.{ToHub}
use aqualung.Hub.Quiet.{held, signalled}
use aqualung.Hub.Halting.Runs.{brings}
use aqualung.Hub.Invariant.Runs.{hellos}
use aqualung.Hub.Callers.{channel, channel-get}
use aqualung.Hub.Invariant.{Inv}
use aqualung.Hub.Serving.{view}
use aqualung.Hub.Serving.Generations.{Ordered, homes}
use aqualung.Topside.Config.{ClientCertVerifier, pinned}
use aqualung.Topside.Pinning.{pinned_iff}
use aqualung.Topside.Net.Bearer.{Http, header_of}
use aqualung.Topside.Net.Admission.{Bearing, callback_iff}
use aqualung.Topside.Net.Home.{Codec}
use aqualung.Topside.System.{
  LetsIn, PhoneTask, no_phone, phone_waits, phone_loops, phone_ended, System, Reach,
}
use aqualung.Topside.System.Calls.{leaves, there, Call}
use aqualung.Topside.System.Sound.{cert_of, request_of, Sound}
use aqualung.Topside.System.Reached.{Reach-Sound}

-- A connection that the hub may hold as the phone `p`: it waits for its number, or its loop has this
-- number, or it has ended and the word of it is on its way.
abbrev pub Tied : {Request : Type 0} → ℕ → List ToHub → PhoneTask Request → Type 0
Tied p queue no_phone = ⊥
Tied p queue (phone_waits req) = Unit {0}
Tied p queue (phone_loops req phone taken c) = phone ≡ p
Tied p queue (phone_ended req phone) = (phone ≡ p) × (0 < total (leaves p) queue)

module _ ⦃J : Json⦄ ⦃P : Pki⦄ ⦃H : Http⦄ ⦃S : Codec⦄ where
  -- A connection that the hub holds under a number has a task.
  held_there :
      (verifier : ClientCertVerifier) (token : List ℕ) (s : System) (p i : ℕ)
      → Sound verifier token s
      → channel p s.hub.phones ≡ some i
      → i < s.callers
  held_there verifier token s p i k e =
      let given = (k.calls i).own p e in
      let one = (k.calls i).once in
      let task : 0 < there (s.phone_tasks i) = ground (arith, given, one) in
      elim (dec_lt i s.callers) [
        | yes below ↦ below
        | no above ↦ absurd (ground (arith, task, ap there (k.fresh i (omega arith))))
      ]

  -- A connection that was let in has shown the pinned certificate, if one is demanded.
  shown :
      (inner : ClientCertVerifier) (leaf : P.Cert) (task : Option (Option P.Cert))
      → inner.offer_client_auth ≡ true
      → inner.client_auth_mandatory ≡ true
      → (cert : Option P.Cert) × (task ≡ some cert)
        × (chain : List P.Cert) × (now : ℕ) × LetsIn (pinned inner leaf) cert chain now
      → (cert : P.Cert) × (task ≡ some (some cert))
        × (P.der cert ≡ P.der leaf)
        × (chain : List P.Cert) × (now : ℕ) × (inner.verify_client_cert cert chain now ≡ ok tt)
  unfolding pinned
  shown inner leaf task offered mandatory (none, named, chain, now, fine) =
      absurd (ground (arith, offered, mandatory, fine))
  shown inner leaf task offered mandatory (some cert, named, chain, now, fine) =
      let (accepted, same) = (pinned_iff inner leaf cert chain now).0 fine.1 in
      (cert, named, same, chain, now, accepted)

  -- With an inner verifier that asks for a certificate and demands one, while the hub runs, with fewer
  -- than 2 ^ 64 - 1 home connections and 2 ^ 64 phones so far, in
  -- whatever order all tasks went on: each home connection whose halt channel the hub holds has shown
  -- a certificate that the inner verifier accepted and that has the bytes of the pinned one, and each
  -- phone in the hub's table stands for a connection whose request showed the token, byte for byte.
  pub Reach-admitted :
      (inner : ClientCertVerifier) (leaf : P.Cert) (token : List ℕ) (s : System)
      → AreBytes token
      → inner.offer_client_auth ≡ true
      → inner.client_auth_mandatory ≡ true
      → Reach (pinned inner leaf) token s
      → s.running ≡ true
      → s.callers < 2 ^ 64
      → s.homes + 1 < 2 ^ 64
      → ((c : ℕ)
          → 0 < held c s.hub.home
          → (cert : P.Cert) × (cert_of (s.home_tasks c) ≡ some (some cert))
            × (P.der cert ≡ P.der leaf)
            × (chain : List P.Cert) × (now : ℕ) × (inner.verify_client_cert cert chain now ≡ ok tt))
        × ((p : ℕ) (slot : Phone)
            → get p s.hub.phones ≡ some slot
            → (req : H.Request) × (request_of (s.phone_tasks (phone_out slot)) ≡ some req)
              × Bearing (header_of req) token)
  Reach-admitted inner leaf token s bytes offered mandatory reached run few many =
      let k = Reach-Sound (pinned inner leaf) token s reached run few many in
      (
        λ c holds.
            shown inner leaf (cert_of (s.home_tasks c)) offered mandatory
              (k.certs c (ground (arith, k.counted.account c, holds))),
        λ p slot e.
            let i = phone_out slot in
            let (req, named, fine) =
              k.asked i (
                held_there (pinned inner leaf) token s p i k (channel-get p slot s.hub.phones e)) in
            (req, named, (callback_iff token req bytes).0.0 fine),
      )

  -- While the hub runs, with fewer than 2 ^ 64 - 1 home connections and 2 ^ 64 phones so far, in
  -- whatever order all tasks went on: each phone in the hub's table stands for a connection of its own,
  -- which waits for its number, or whose loop has the phone's number, or which has ended, with the
  -- message of the phone's end on its way to the hub.
  pub Reach-Tied :
      (verifier : ClientCertVerifier) (token : List ℕ) (s : System)
      → Reach verifier token s
      → s.running ≡ true
      → s.callers < 2 ^ 64
      → s.homes + 1 < 2 ^ 64
      → (p : ℕ) (slot : Phone) → get p s.hub.phones ≡ some slot
      → Tied p s.queue (s.phone_tasks (phone_out slot))
        × ((q : ℕ) (other : Phone)
            → get q s.hub.phones ≡ some other
            → phone_out other ≡ phone_out slot
            → q ≡ p)
  Reach-Tied verifier token s reached run few many p slot e =
      let k = Reach-Sound verifier token s reached run few many in
      let i = phone_out slot in
      let call = k.calls i in
      let at_ = channel-get p slot s.hub.phones e in
      (
        tied s p i (s.phone_tasks i) call at_,
        λ q other f same.
            some_inj (
              sym (call.own q (channel-get q other s.hub.phones f ∙ ap some same))
              ∙ call.own p at_),
      )
    where
      tied :
          (s : System) (p i : ℕ) (task : PhoneTask H.Request)
          → Call i s.hub s.queue task
          → channel p s.hub.phones ≡ some i
          → Tied p s.queue task
      tied s p i no_phone call at_ = ground (arith, call.once, call.own p at_)
      tied s p i (phone_waits req) call at_ = tt
      tied s p i (phone_loops req phone taken c) call at_ =
          some_inj (sym (call.number phone refl) ∙ call.own p at_)
      tied s p i (phone_ended req phone) call at_ =
          (some_inj (sym (call.number phone refl) ∙ call.own p at_), call.left refl p at_)

  -- While the hub runs, with fewer than 2 ^ 64 - 1 home connections and 2 ^ 64 phones so far, in
  -- whatever order all tasks went on: the invariant of the hub's tables holds, the connection that is
  -- coming up is newer than the one served, the hub's counters are the numbers of connections whose
  -- first message is not on its way any more, and each home connection's halt channel is held, or has
  -- been signalled, or is on its way, exactly once.
  pub Reach-Counted :
      (verifier : ClientCertVerifier) (token : List ℕ) (s : System)
      → Reach verifier token s
      → s.running ≡ true
      → s.callers < 2 ^ 64
      → s.homes + 1 < 2 ^ 64
      → Inv s.hub
        × Ordered s.hub.next_gen (view s.hub.home)
        × (s.hub.next_phone + total hellos s.queue ≡ s.callers)
        × (s.hub.next_gen + total homes s.queue ≡ s.homes)
        × ((c : ℕ)
            → c < s.homes
            → held c s.hub.home + signalled c s.hub.sent + total (brings c) s.queue ≡ 1)
  Reach-Counted verifier token s reached run few many =
      let k = (Reach-Sound verifier token s reached run few many).counted in
      (k.tables, k.ordered, k.callers, k.gens, λ c below. ground (arith, k.account c))
