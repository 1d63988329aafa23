-- ===== src/Snorkel/Session.antt =====
-- crates/snorkel/src/session.rs: how a session ends. The copying itself is the sockets'.
use aqualung.Common.{ℕ, String, Bool, ◌||◌, not, Option, ◌==◌, nat_eq, leb}

pub data Side : Type 0 where
  local remote : Side

-- `lasted` is in milliseconds.
pub record Outcome : Type 0 where
  pub ended_by : Side
  pub error : Option String
  pub to_remote : ℕ
  pub to_local : ℕ
  pub lasted : ℕ

unfoldable pub productive : Outcome → Bool
productive outcome =
    not (outcome.to_remote == 0) || not (outcome.to_local == 0) || leb 10000 outcome.lasted
