-- ===== src/Snorkel/Totals/Runs.antt =====
-- What the report of snorkel's `run` counts, over a whole run of the link.
use mathlib.Core.Path.{subst}
use aqualung.Common.{
  ℕ, ◌+◌, ◌≡◌, refl, sym, ap, ◌∙◌, Bool, true, false, Option, none, some, List, [], ◌∷◌,
  if◌then◌else◌, arith,
}
use aqualung.Pki.{Pki}
use aqualung.Snorkel.Session.{Outcome}
use aqualung.Snorkel.Reporting.{run_session-Reported}
use aqualung.Snorkel.Config.{Names, ClientTls, Config}
use aqualung.Snorkel.Link.{
  Jitter, Link, down, up, stopped, FailureRun, Report, no_report, ended, step,
}
use aqualung.Snorkel.Run.{Scene, stops, meets_down, session_of, meet, run_link, run}
use aqualung.Snorkel.Totals.{
  Fits, open_sessions, count, sent_to_server, sent_to_socket, Opened, step-Opened,
  after_session-shut, other, served, Tally, waiting-Tally,
}

module _ ⦃P : Pki⦄ ⦃N : Names⦄ ⦃T : ClientTls⦄ (jitter : Jitter) where
  -- A link that was down, and what is counted from its next step on.
  Opened-Tally :
      (scene : Scene) (scenes : List Scene) (not_before : ℕ) (fails : FailureRun) (report : Report)
      (next : Link × Report) (after : Report)
      → Opened report next
      → Tally scenes next.0 next.1 after
      → Tally (scene ∷ scenes) (down not_before fails) report after
  unfolding open_sessions
  Opened-Tally scene scenes not_before fails report next after o t = record {
    outcomes = t.outcomes;
    sessions = other t.sessions;
    opened = open_sessions next.0 + t.opened;
    cut = t.cut;
    cut_once = t.cut_once;
    matched = omega (arith, t.matched);
    counted = omega (arith, t.counted, o.sessions);
    to_server = omega (arith, t.to_server, o.to_server);
    to_socket = omega (arith, t.to_socket, o.to_socket);
  }

  -- A session that ended, and what is counted behind it.
  ended-Tally :
      (scene : Scene) (scenes : List Scene) (once : Bool) (outcome : Outcome) (report : Report)
      (after : Report)
      → session_of scene ≡ some outcome
      → (let next : Link × Report =
            step jitter once (ended scene.now scene.draw outcome) (up, report) in
          Tally scenes next.0 next.1 after)
      → Tally (scene ∷ scenes) up report after
  unfolding step open_sessions count sent_to_server sent_to_socket session_of
  ended-Tally scene scenes once outcome report after e t = record {
    outcomes = outcome ∷ t.outcomes;
    sessions =
        served
          (run_session-Reported scene.from_local scene.from_remote scene.lasted scene.answers
            outcome e)
          t.sessions;
    opened = t.opened;
    cut = t.cut;
    cut_once = t.cut_once;
    matched = omega (arith, t.matched, after_session-shut jitter once scene.now scene.draw outcome);
    counted = t.counted;
    to_server = omega (arith, t.to_server);
    to_socket = omega (arith, t.to_socket);
  }

  Opened-Fits :
      (report : Report) (next : Link × Report) → Fits report → Opened report next → Fits next.1
  Opened-Fits report next (a, b, c) o =
      (omega (arith, o.sessions), omega (arith, b, o.to_server), omega (arith, c, o.to_socket))

  -- What one step of a link that is up comes to.
  meet-up :
      (config : Config) (scene : Scene) (report : Report) (shut : Bool) (o : Option Outcome)
      → stops scene ≡ shut
      → session_of scene ≡ o
      → meet jitter config scene (up, report) ≡ (
          if shut then some (stopped, report) else (elim o [
            | none ↦ none
            | some outcome ↦
                some (step jitter config.once (ended scene.now scene.draw outcome) (up, report))
          ]))
  unfolding meet step
  meet-up config scene report shut o s e =
      let turn : Bool → Option Outcome → Option (Link × Report) = λ b o.
        if b then some (stopped, report) else (elim o [
          | none ↦ none
          | some outcome ↦
              some (step jitter config.once (ended scene.now scene.draw outcome) (up, report))
        ]) in
      ap (λ b. turn b (session_of scene)) s ∙ ap (turn shut) e

  run_link-up :
      (config : Config) (scene : Scene) (scenes : List Scene) (report : Report)
      (turn : Option (Link × Report))
      → meet jitter config scene (up, report) ≡ turn
      → run_link jitter config (scene ∷ scenes) (up, report)
        ≡ elim turn [ none ↦ (up, report) | some next ↦ run_link jitter config scenes next ]
  unfolding run_link
  run_link-up config scene scenes report turn e =
      ap
        (λ turn. elim turn [ none ↦ (up, report) | some next ↦ run_link jitter config scenes next ])
        e

  run_link-stopped :
      (config : Config) (scenes : List Scene) (report : Report)
      → run_link jitter config scenes (stopped, report) ≡ (stopped, report)
  unfolding run_link
  run_link-stopped config [] report = refl
  run_link-stopped config (scene ∷ scenes) report = refl

  -- A link that is up, where what is counted from any later state on is known.
  run_link-up-Tally :
      (config : Config) (scene : Scene) (scenes : List Scene) (report : Report) (shut : Bool)
      (o : Option Outcome)
      → stops scene ≡ shut
      → session_of scene ≡ o
      → Fits report
      → ((link : Link) (later : Report)
          → Fits later
          → Tally scenes link later (run_link jitter config scenes (link, later)).1)
      → Tally (scene ∷ scenes) up report (run_link jitter config (scene ∷ scenes) (up, report)).1
  unfolding step
  run_link-up-Tally config scene scenes report true o s e f later =
      subst (λ (state : Link × Report). Tally (scene ∷ scenes) up report state.1)
        (sym (
          run_link-up config scene scenes report _ (meet-up config scene report true o s e)
          ∙ run_link-stopped config scenes report))
        (waiting-Tally (scene ∷ scenes) up report f)
  run_link-up-Tally config scene scenes report false none s e f later =
      subst (λ (state : Link × Report). Tally (scene ∷ scenes) up report state.1)
        (sym
          (run_link-up config scene scenes report _ (meet-up config scene report false none s e)))
        (waiting-Tally (scene ∷ scenes) up report f)
  run_link-up-Tally config scene scenes report false (some outcome) s e (a, b, c) later =
      subst (λ (state : Link × Report). Tally (scene ∷ scenes) up report state.1)
        (sym (
          run_link-up config scene scenes report _
            (meet-up config scene report false (some outcome) s e)))
        (ended-Tally scene scenes config.once outcome report _ e
          (later _ _ (a, omega arith, omega arith)))

  run_link-Tally :
      (config : Config) (scenes : List Scene) (link : Link) (report : Report)
      → Fits report
      → Tally scenes link report (run_link jitter config scenes (link, report)).1
  unfolding run_link
  run_link-Tally config [] link report f = waiting-Tally [] link report f
  run_link-Tally config (scene ∷ scenes) stopped report f =
      waiting-Tally (scene ∷ scenes) stopped report f
  run_link-Tally config (scene ∷ scenes) (down not_before fails) report f =
      let next : Link × Report =
        step jitter config.once (meets_down config scene) (down not_before fails, report) in
      let o : Opened report next =
        step-Opened jitter config.once (meets_down config scene) not_before fails report f in
      Opened-Tally scene scenes not_before fails report next _ o
        (run_link-Tally config scenes next.0 next.1 (Opened-Fits report next f o))
  run_link-Tally config (scene ∷ scenes) up report f =
      run_link-up-Tally config scene scenes report (stops scene) (session_of scene) refl refl f
        (run_link-Tally config scenes)

  -- What snorkel's `run` reports, whatever the link meets: some of the steps are sessions that
  -- ended, each with an outcome that accounts for the bytes that it copied; the report counts these
  -- sessions and at most one more, which had not ended, and its two counts of bytes are the sums
  -- over the sessions that ended alone. All counts are modulo 2 ^ 64.
  pub run-Tally :
      (config : Config) (now : ℕ) (scenes : List Scene)
      → Tally scenes (down now (record { attempts = 0 })) no_report (run jitter config now scenes).1
  unfolding run no_report
  run-Tally config now scenes =
      run_link-Tally config scenes (down now (record { attempts = 0 })) no_report
        (omega arith, omega arith, omega arith)
