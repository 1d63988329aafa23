-- ===== src/Topside/System/Sound.antt =====
-- What the tasks, the messages on their way and the hub of crates/topside have in common, and that a
-- task's turn keeps it.
use aqualung.Common.{
  ℕ, ◌<◌, ◌≤◌, ◌≡◌, ◌≢◌, ap, refl, ◌∙◌, sym, inl, inr, true, Option, none, some, List, [], ◌++◌,
  ◌==◌, nat_eq, ==_iff, arith, ok, Bool-cases, some_inj,
}
use aqualung.Common.Lists.{total}
use aqualung.Common.HashMap.{get}
use aqualung.Json.{Json}
use aqualung.Pki.{Pki}
use aqualung.Hub.State.{new_hub}
use aqualung.Hub.Callers.{channel, given}
use aqualung.Topside.Config.{ClientCertVerifier}
use aqualung.Topside.Net.Bearer.{Http, callback}
use aqualung.Topside.Net.Home
use aqualung.Topside.Net.Home.{Codec}
use aqualung.Topside.Net.Phone
use aqualung.Topside.Net.Telling
use aqualung.Topside.Net.Telling.{step-Turn, registration-Turn}
use aqualung.Topside.Net.Texting
use aqualung.Topside.System.{
  LetsIn, HomeTask, no_home, home_waits, home_loops, home_ended, PhoneTask, no_phone, phone_waits,
  phone_loops, phone_ended, after_home, after_phone, update, System, idle, home_goes, phone_goes,
}
use aqualung.Topside.System.Turns.{AllKnown}
use aqualung.Topside.System.Counted.{Counted, Counted-idle, Counted-told}
use aqualung.Topside.System.Calls.{
  leaves, AllPaired, AllPaired-append, AllKnown-AllPaired, number_of, there, is_ended, Call,
  Call-behind, Call-told, total_told,
}

-- The certificate of a home connection, and the request of a phone.
abbrev pub cert_of : {Cert : Type 0} → HomeTask Cert → Option Cert
cert_of no_home = none
cert_of (home_waits cert) = some cert
cert_of (home_loops cert _ _ _) = some cert
cert_of (home_ended cert) = some cert

abbrev pub request_of : {Request : Type 0} → PhoneTask Request → Option Request
request_of no_phone = none
request_of (phone_waits req) = some req
request_of (phone_loops req _ _ _) = some req
request_of (phone_ended req _) = some req

cert_of-after :
    {Cert : Type 0} (cert : Cert) (home_gen taken : ℕ) (next : Option Home.Conn)
    → cert_of (after_home cert home_gen taken next) ≡ some cert
unfolding after_home
cert_of-after cert home_gen taken none = refl
cert_of-after cert home_gen taken (some c) = refl

request_of-after :
    {Request : Type 0} (req : Request) (phone taken : ℕ) (next : Option Phone.Conn)
    → request_of (after_phone req phone taken next) ≡ some req
unfolding after_phone
request_of-after req phone taken none = refl
request_of-after req phone taken (some c) = refl

-- What holds at every place holds behind an update that keeps it.
pub update_cases :
    {A : Type 0} (Q : ℕ → A → Type 0) (f : ℕ → A) (i : ℕ) (a : A) (j : ℕ)
    → (i ≡ j → Q j a)
    → (i ≢ j → Q j (f j))
    → Q j (update f i a j)
unfolding update
update_cases Q f i a j new old = elim (Bool-cases (i == j)) [
  | inl same ↦ rw same (new ((==_iff i j).0 same))
  | inr other ↦ rw other (old (λ e. ground (arith, (==_iff i j).1 e)))
]

Call-new_hub :
    ⦃J : Json⦄ {Request : Type 0} (i : ℕ) → Call {Request = Request} i new_hub [] no_phone
unfolding new_hub channel get
Call-new_hub i = record {
  once = refl;
  own = λ q e. cc;
  number = λ p e. cc;
  still_open = λ q e. refl;
  unclosed = λ e. refl;
  left = λ over q e. cc;
}

module _ ⦃J : Json⦄ ⦃P : Pki⦄ ⦃H : Http⦄ ⦃S : Codec⦄ (verifier : ClientCertVerifier)
    (token : List ℕ) where
  -- The verifier let the connection in, and the callback the request.
  abbrev pub Verified : HomeTask (Option P.Cert) → Type 0
  Verified task =
      (cert : Option P.Cert) × (cert_of task ≡ some cert)
      × (chain : List P.Cert) × (now : ℕ) × LetsIn verifier cert chain now

  abbrev pub LetIn : PhoneTask H.Request → Type 0
  LetIn task = (req : H.Request) × (request_of task ≡ some req) × (callback token req ≡ ok tt)

  pub record Sound (s : System) : Type 0 where
    pub counted : Counted s.hub s.queue s.homes s.callers
    pub paired : AllPaired s.queue
    pub fresh : (i : ℕ) → s.callers ≤ i → s.phone_tasks i ≡ no_phone
    pub certs : (i : ℕ) → i < s.homes → Verified (s.home_tasks i)
    pub asked : (i : ℕ) → i < s.callers → LetIn (s.phone_tasks i)
    pub calls : (i : ℕ) → Call i s.hub s.queue (s.phone_tasks i)

  pub idle-Sound : Sound idle
  unfolding idle
  idle-Sound = record {
    counted = Counted-idle;
    paired = tt;
    fresh = λ i below. refl;
    certs = λ i below. absurd (omega arith);
    asked = λ i below. absurd (omega arith);
    calls = λ i. Call-new_hub i;
  }

  -- A home connection takes a turn.
  pub home_goes-Sound :
      (s : System) (i home_gen taken : ℕ) (cert : Option P.Cert)
      (turn : List Home.Output × Option Home.Conn)
      → cert_of (s.home_tasks i) ≡ some cert
      → AllKnown (Telling.messages turn.0)
      → Sound s
      → Sound (home_goes s i cert home_gen taken turn)
  home_goes-Sound s i home_gen taken cert (outs, next) was known k =
      let msgs = Telling.messages outs in
      record {
        counted = Counted-told msgs s.queue s.homes s.callers s.hub known k.counted;
        paired = AllPaired-append s.queue msgs k.paired (AllKnown-AllPaired msgs known);
        fresh = k.fresh;
        certs = λ j below.
            update_cases (λ j task. Verified task) s.home_tasks i
              (after_home cert home_gen taken next) j
              (λ same.
                let (c, named, chain, now, fine) = k.certs j below in
                (
                  c,
                  cert_of-after cert home_gen taken next
                      ∙ sym was
                      ∙ ap cert_of (ap s.home_tasks same)
                      ∙ named,
                  chain,
                  now,
                  fine,
                ))
              (λ other. k.certs j below);
        asked = k.asked;
        calls = λ j. Call-told j (s.phone_tasks j) s.queue msgs s.hub known (k.calls j);
      }

  number_of-after :
      (req : H.Request) (phone taken p : ℕ) (next : Option Phone.Conn)
      → number_of (after_phone req phone taken next) ≡ some p
      → phone ≡ p
  unfolding after_phone
  number_of-after req phone taken p none e = some_inj e
  number_of-after req phone taken p (some c) e = some_inj e

  there-after :
      (req : H.Request) (phone taken : ℕ) (next : Option Phone.Conn)
      → there (after_phone req phone taken next) ≡ 1
  unfolding after_phone
  there-after req phone taken none = refl
  there-after req phone taken (some c) = refl

  is_ended-after :
      (req : H.Request) (phone taken : ℕ) (next : Option Phone.Conn)
      → is_ended (after_phone req phone taken next) ≡ true
      → next ≡ none
  unfolding after_phone
  is_ended-after req phone taken none e = refl
  is_ended-after req phone taken (some c) e = cc

  -- A phone takes a turn. If it is its last, the word of its end is told, or the hub has dropped it.
  pub phone_goes-Sound :
      (s : System) (i phone taken : ℕ) (req : H.Request)
      (turn : List Phone.Output × Option Phone.Conn)
      → request_of (s.phone_tasks i) ≡ some req
      → there (s.phone_tasks i) ≡ 1
      → given i s.hub.sent ≡ some phone
      → AllKnown (Texting.messages turn.0)
      → (turn.1 ≡ none
          → (q : ℕ) → channel q s.hub.phones ≡ some i
          → 0 < total (leaves q) (Texting.messages turn.0))
      → Sound s
      → Sound (phone_goes s i req phone taken turn)
  phone_goes-Sound s i phone taken req (outs, next) was one named known last k =
      let msgs = Texting.messages outs in
      let task = after_phone req phone taken next in
      let call : Call i s.hub (s.queue ++ msgs) task =
        Call-behind i (s.phone_tasks i) task s.queue msgs s.hub
          (total_told i msgs known one (there-after req phone taken next))
          (λ p e. named ∙ ap some (number_of-after req phone taken p next e))
          (λ over q e. inr (last (is_ended-after req phone taken next over) q e)) (k.calls i) in
      record {
        counted = Counted-told msgs s.queue s.homes s.callers s.hub known k.counted;
        paired = AllPaired-append s.queue msgs k.paired (AllKnown-AllPaired msgs known);
        fresh = λ j below.
            update_cases (λ j t. t ≡ no_phone) s.phone_tasks i task j
              (λ same.
                let empty : there (s.phone_tasks i) ≡ 0 =
                  ap there (ap s.phone_tasks same ∙ k.fresh j below) in
                absurd (omega (arith, one, empty)))
              (λ other. k.fresh j below);
        certs = k.certs;
        asked = λ j below.
            update_cases (λ j t. LetIn t) s.phone_tasks i task j
              (λ same.
                let (r, asked, fine) = k.asked j below in
                (
                  r,
                  request_of-after req phone taken next
                      ∙ sym was
                      ∙ ap request_of (ap s.phone_tasks same)
                      ∙ asked,
                  fine,
                ))
              (λ other. k.asked j below);
        calls = λ j.
            update_cases (λ j t. Call j s.hub (s.queue ++ msgs) t) s.phone_tasks i task j
              (λ same. rw same at call)
              (λ other. Call-told j (s.phone_tasks j) s.queue msgs s.hub known (k.calls j));
      }
