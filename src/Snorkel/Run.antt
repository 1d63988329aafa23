-- ===== src/Snorkel/Run.antt =====
-- `run` of crates/snorkel/src/link.rs: the link with its dials and its sessions.
use aqualung.Common.{ℕ, Bool, Option, none, some, List, [], ◌∷◌, if◌then◌else◌, Result, ok, err}
use aqualung.Pki.{Pki}
use aqualung.Snorkel.Shutdown.{Change, wait}
use aqualung.Snorkel.Session.{Side, Outcome}
use aqualung.Snorkel.Copy
use aqualung.Snorkel.Copy.{run_session}
use aqualung.Snorkel.Config.{Names, ClientTls, Config}
use aqualung.Snorkel.Dial.{Network, DialError, new_dialer, establish}
use aqualung.Snorkel.Link.{
  Jitter, Link, down, up, stopped, Report, no_report, Answer, shut_down, socket_absent, established,
  refused, ended, step,
}

module _ ⦃P : Pki⦄ ⦃N : Names⦄ ⦃T : ClientTls⦄ where
  -- What is around one step: the shutdown when it begins, and what comes of it while the step waits,
  -- the time and the number of the jitter at its end, whether the socket's file exists, the network, and what the two
  -- sides of a session have to give and answer.
  pub record Scene : Type 1 where
    pub value : Bool
    pub changes : List Change
    pub now : ℕ
    pub draw : ℕ
    pub exists : Bool
    pub network : Network
    pub from_local : List ℕ
    pub from_remote : List ℕ
    pub lasted : ℕ
    pub answers : List (Side × Copy.Answer)

  -- Whether the step ends by the shutdown, where it looks and where it waits.
  unfoldable pub stops : Scene → Bool
  unfolding wait
  stops scene = wait scene.value scene.changes

  -- `Session::establish`, as the link takes it.
  unfoldable pub dialled : {A : Type 0} → Scene → Result A DialError → Answer
  dialled scene (ok session) = established
  dialled scene (err error) = refused scene.now scene.draw

  -- What a link that is down meets.
  unfoldable pub meets_down : Config → Scene → Answer
  unfolding stops dialled establish new_dialer
  meets_down config scene =
      if stops scene
      then shut_down
      else if scene.exists
      then dialled scene
          (establish ⦃W = scene.network⦄ config (new_dialer ⦃W = scene.network⦄ config))
      else socket_absent scene.now scene.draw

  -- The session of a link that is up.
  unfoldable pub session_of : Scene → Option Outcome
  unfolding run_session
  session_of scene = run_session scene.from_local scene.from_remote scene.lasted scene.answers

  module _ (jitter : Jitter) where
    -- One step, if it returns: it waits for good on a session that does not end.
    unfoldable pub meet : Config → Scene → Link × Report → Option (Link × Report)
    unfolding stops step meets_down session_of
    meet config scene (down not_before fails, report) =
        some (step jitter config.once (meets_down config scene) (down not_before fails, report))
    meet config scene (up, report) =
        if stops scene
        then some (step jitter config.once shut_down (up, report))
        else (elim (session_of scene) [
          | none ↦ none
          | some outcome ↦
              some (step jitter config.once (ended scene.now scene.draw outcome) (up, report))
        ])
    meet config scene (stopped, report) = some (stopped, report)

    -- The loop of `run`, which ends when the link has stopped.
    unfoldable pub run_link : Config → List Scene → Link × Report → Link × Report
    unfolding meet
    run_link config [] state = state
    run_link config (scene ∷ scenes) (stopped, report) = (stopped, report)
    run_link config (scene ∷ scenes) (down not_before fails, report) =
        elim (meet config scene (down not_before fails, report)) [
          | none ↦ (down not_before fails, report)
          | some next ↦ run_link config scenes next
        ]
    run_link config (scene ∷ scenes) (up, report) = elim (meet config scene (up, report)) [
      | none ↦ (up, report)
      | some next ↦ run_link config scenes next
    ]

    -- `run`, from the time at which it is called.
    unfoldable pub run : Config → ℕ → List Scene → Link × Report
    unfolding run_link no_report
    run config now scenes = run_link config scenes (down now (record { attempts = 0 }), no_report)
