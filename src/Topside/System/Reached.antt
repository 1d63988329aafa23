-- ===== src/Topside/System/Reached.antt =====
-- What holds of the whole of crates/topside while the hub runs, in whatever order its tasks go on.
use aqualung.Common.{
  Option, ℕ, ◌+◌, ◌<◌, ◌^◌, ◌≡◌, ap, refl, sym, inl, true, none, some, List, [], ◌∷◌, ◌++◌, arith,
  ok, ◌≢◌, ==_iff, nat_eq, false, inr, ◌≤◌,
}
use mathlib.Core.Path.{subst}
use aqualung.Common.Lists.{total}
use aqualung.Json.{Json}
use aqualung.Pki.{Pki}
use aqualung.Hub.Slots.{current_deadline}
use aqualung.Hub.Run.{ToHub, accepted, phone_hello, shutdown_hub, handle}
use aqualung.Hub.Callers.{closed_at}
use aqualung.Topside.Config.{ClientCertVerifier}
use aqualung.Topside.Net.Bearer.{Http, callback}
use aqualung.Topside.Net.Home
use aqualung.Topside.Net.Home.{Codec}
use aqualung.Topside.Net.Phone
use aqualung.Topside.Net.Telling.{step-Turn, registration-Turn}
use aqualung.Topside.Net.Texting
use aqualung.Topside.System.{
  home_waits, no_phone, phone_waits, phone_loops, update, System, PhoneMeets, home_view, phone_view,
  LetsIn, Step, home_arrives, phone_arrives, hub_takes, hub_wakes, serve_stops, hub_ends,
  home_taken, phone_taken, phone_goes, home_binds, home_turns, phone_binds, phone_turns, Reach,
  at_start, later,
}
use aqualung.Topside.System.Turns.{Turn-AllKnown, phone_step-AllKnown, phone_step-ending}
use aqualung.Topside.System.Counted.{
  Counted, Counted-handle, Counted-wake, Counted-stop, Counted-home, Counted-phone,
}
use aqualung.Topside.System.Calls.{
  leaves, number_of, there, AllPaired, AllPaired-append, Call, Call-behind,
}
use aqualung.Topside.System.Calls.Handled.{Call-handle, Call-wake}
use aqualung.Topside.System.Sound.{
  cert_of, request_of, update_cases, Verified, LetIn, Sound, idle-Sound, home_goes-Sound,
  phone_goes-Sound,
}

module _ ⦃J : Json⦄ ⦃P : Pki⦄ ⦃H : Http⦄ ⦃S : Codec⦄ (verifier : ClientCertVerifier)
    (token : List ℕ) where
  home_arrives-Sound :
      (s : System) (cert : Option P.Cert) (chain : List P.Cert) (now : ℕ)
      → LetsIn verifier cert chain now
      → Sound verifier token s
      → Sound verifier token (record s {
        queue = s.queue ++ accepted s.homes s.homes s.homes ∷ [];
        homes = s.homes + 1;
        home_tasks = update s.home_tasks s.homes (home_waits cert);
      })
  home_arrives-Sound s cert chain now fine k =
      let new : List ToHub = accepted s.homes s.homes s.homes ∷ [] in
      record {
        counted = Counted-home s.queue s.homes s.callers s.hub k.counted;
        paired = AllPaired-append s.queue new k.paired (tt, tt);
        fresh = k.fresh;
        certs = λ j below.
            update_cases (λ j t. Verified verifier token t) s.home_tasks s.homes (home_waits cert) j
              (λ same. (cert, refl, chain, now, fine)) (λ other. k.certs j (omega arith));
        asked = k.asked;
        calls = λ j.
            Call-behind j (s.phone_tasks j) (s.phone_tasks j) s.queue new s.hub (omega arith)
              (k.calls j).number (λ over q e. inl over) (k.calls j);
      }

  phone_arrives-Sound :
      (s : System) (req : H.Request)
      → callback token req ≡ ok tt
      → Sound verifier token s
      → Sound verifier token (record s {
        queue = s.queue ++ phone_hello s.callers s.callers ∷ [];
        callers = s.callers + 1;
        phone_tasks = update s.phone_tasks s.callers (phone_waits req);
      })
  phone_arrives-Sound s req fine k =
      let i = s.callers in
      let new : List ToHub = phone_hello i i ∷ [] in
      let begins : Call i s.hub (s.queue ++ new) (phone_waits req) =
        Call-behind i (s.phone_tasks i) (phone_waits req) s.queue new s.hub
          (rw (k.fresh i (omega arith)) (ground arith)) (λ p e. cc) (λ over q e. cc) (k.calls i) in
      record {
        counted = Counted-phone s.queue s.homes i s.hub k.counted;
        paired = AllPaired-append s.queue new k.paired (refl, tt);
        fresh = λ j below.
            update_cases (λ j t. t ≡ no_phone) s.phone_tasks i (phone_waits req) j
              (λ same. absurd (omega arith)) (λ other. k.fresh j (omega arith));
        certs = k.certs;
        asked = λ j below.
            update_cases (λ j t. LetIn verifier token t) s.phone_tasks i (phone_waits req) j
              (λ same. (req, refl, fine)) (λ other. k.asked j (omega arith));
        calls = λ j.
            update_cases (λ j t. Call j s.hub (s.queue ++ new) t) s.phone_tasks i (phone_waits req)
              j (λ same. subst (λ n. Call n s.hub (s.queue ++ new) (phone_waits req)) same begins)
              (λ other.
                Call-behind j (s.phone_tasks j) (s.phone_tasks j) s.queue new s.hub
                  (ground (arith, ==_iff i j)) (k.calls j).number (λ over q e. inl over)
                  (k.calls j));
      }

  hub_takes-Sound :
      (s : System) (now : ℕ) (msg : ToHub) (rest : List ToHub)
      → s.queue ≡ msg ∷ rest
      → msg ≢ shutdown_hub
      → s.callers < 2 ^ 64
      → s.homes + 1 < 2 ^ 64
      → Sound verifier token s
      → Sound verifier token (record s { hub = handle now msg s.hub; queue = rest })
  hub_takes-Sound s now msg rest first going few many k =
      let paired : AllPaired (msg ∷ rest) = subst AllPaired first k.paired in
      record {
        counted =
            Counted-handle now msg rest s.homes s.callers s.hub going few many
              (subst (λ q. Counted s.hub q s.homes s.callers) first k.counted);
        paired = paired.1;
        fresh = k.fresh;
        certs = k.certs;
        asked = k.asked;
        calls = λ j.
            Call-handle j (s.phone_tasks j) now msg rest s.hub going paired.0
              (subst (λ q. Call j s.hub q (s.phone_tasks j)) first (k.calls j));
      }

  phone_turns-Sound :
      (s : System) (i phone taken taken' : ℕ) (req : H.Request) (c : Phone.Conn)
      (event : Phone.Event)
      → s.running ≡ true
      → s.phone_tasks i ≡ phone_loops req phone taken c
      → PhoneMeets s i taken event
      → Sound verifier token s
      → Sound verifier token
          (phone_goes s i req phone taken' (Phone.step phone (phone_view s c) event))
  phone_turns-Sound s i phone taken taken' req c event run at_ meets k =
      let view = phone_view s c in
      let named = (k.calls i).number phone (ap number_of at_) in
      phone_goes-Sound verifier token s i phone taken' req (Phone.step phone view event)
        (ap request_of at_) (ap there at_) named (phone_step-AllKnown phone view event)
        (λ over q e. elim (phone_step-ending phone view event run over) [
          | inl told ↦
              subst (λ msgs. 0 < total (leaves q) msgs) (sym told)
                (ground (arith, named, (k.calls i).own q e, ==_iff phone q))
          | inr dropped ↦
              absurd (closing s i taken q event meets dropped ((k.calls i).still_open q e))
        ])
        k
    where
      closing :
          (s : System) (i taken q : ℕ) (event : Phone.Event)
          → PhoneMeets s i taken event
          → event ≡ Phone.outgoing none
          → closed_at i s.hub.sent ≡ false
          → ⊥
      closing s i taken q event meets e f =
          let (_, shut) = subst (PhoneMeets s i taken) e meets in cc

  Step-Sound :
      (s t : System)
      → Step verifier token s t
      → t.running ≡ true
      → t.callers < 2 ^ 64
      → t.homes + 1 < 2 ^ 64
      → Sound verifier token s
      → Sound verifier token t
  unfolding Texting.messages
  Step-Sound s _ (home_arrives cert chain now run fine) r few many k =
      home_arrives-Sound s cert chain now fine k
  Step-Sound s _ (phone_arrives req run fine) r few many k = phone_arrives-Sound s req fine k
  Step-Sound s _ (hub_takes now msg rest run first going) r few many k =
      hub_takes-Sound s now msg rest first going few many k
  Step-Sound s _ (hub_wakes now run) r few many k = record {
    counted = Counted-wake now s.queue s.homes s.callers s.hub k.counted;
    paired = k.paired;
    fresh = k.fresh;
    certs = k.certs;
    asked = k.asked;
    calls =
        λ j. Call-wake j (s.phone_tasks j) now (current_deadline s.hub) s.queue s.hub (k.calls j);
  }
  Step-Sound s _ (serve_stops once run) r few many k = record {
    counted = Counted-stop s.queue s.homes s.callers s.hub k.counted;
    paired = AllPaired-append s.queue (shutdown_hub ∷ []) k.paired (tt, tt);
    fresh = k.fresh;
    certs = k.certs;
    asked = k.asked;
    calls = λ j.
        Call-behind j (s.phone_tasks j) (s.phone_tasks j) s.queue (shutdown_hub ∷ []) s.hub
          (omega arith) (k.calls j).number (λ over q e. inl over) (k.calls j);
  }
  Step-Sound s _ (hub_ends rest run first) r few many k = cc
  Step-Sound s _ (home_binds i gen cert c at_ bound) r few many k =
      home_goes-Sound verifier token s i gen 0 cert (Home.registration gen (home_view s c))
        (ap cert_of at_) (Turn-AllKnown gen _ (registration-Turn gen (home_view s c))) k
  Step-Sound s _ (home_turns i gen taken cert c event at_ meets) r few many k =
      home_goes-Sound verifier token s i gen (home_taken taken event) cert
        (Home.step gen (home_view s c) event) (ap cert_of at_)
        (Turn-AllKnown gen _ (step-Turn gen (home_view s c) event)) k
  Step-Sound s _ (phone_binds i phone req c at_ bound) r few many k =
      phone_goes-Sound verifier token s i phone 0 req ([], some c) (ap request_of at_)
        (ap there at_) bound tt (λ e. cc) k
  Step-Sound s _ (phone_turns i phone taken req c event at_ meets) r few many k =
      phone_turns-Sound s i phone taken (phone_taken taken event) req c event r at_ meets k

  -- The counters only grow, and a hub that runs has always run.
  Step-grows :
      (s t : System)
      → Step verifier token s t
      → (s.callers ≤ t.callers) × (s.homes ≤ t.homes) × (t.running ≡ true → s.running ≡ true)
  Step-grows s _ (home_arrives cert chain now run fine) = (omega arith, omega arith, λ r. run)
  Step-grows s _ (phone_arrives req run fine) = (omega arith, omega arith, λ r. run)
  Step-grows s _ (hub_takes now msg rest run first going) = (omega arith, omega arith, λ r. r)
  Step-grows s _ (hub_wakes now run) = (omega arith, omega arith, λ r. r)
  Step-grows s _ (serve_stops once run) = (omega arith, omega arith, λ r. r)
  Step-grows s _ (hub_ends rest run first) = (omega arith, omega arith, λ r. run)
  Step-grows s _ (home_binds i gen cert c at_ bound) = (omega arith, omega arith, λ r. r)
  Step-grows s _ (home_turns i gen taken cert c event at_ meets) =
      (omega arith, omega arith, λ r. r)
  Step-grows s _ (phone_binds i phone req c at_ bound) = (omega arith, omega arith, λ r. r)
  Step-grows s _ (phone_turns i phone taken req c event at_ meets) =
      (omega arith, omega arith, λ r. r)

  pub Reach-Sound :
      (s : System)
      → Reach verifier token s
      → s.running ≡ true
      → s.callers < 2 ^ 64
      → s.homes + 1 < 2 ^ 64
      → Sound verifier token s
  Reach-Sound _ at_start r few many = idle-Sound verifier token
  Reach-Sound t (later {s} reached step) r few many =
      let (callers, homes, running) = Step-grows s t step in
      Step-Sound s t step r few many (Reach-Sound s reached (running r) (omega arith) (omega arith))
