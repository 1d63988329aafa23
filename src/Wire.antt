-- ===== src/Wire.antt =====
-- crates/topside/src/wire.rs: the leader's messages, their frames and the JSON-RPC texts.
pub mod Rpc
pub mod Frame
use aqualung.Common.{ℕ, String, Bool, false}

abbrev pub leader_protocol_version : ℕ
leader_protocol_version = 1

pub record ClientCapabilities : Type 0 where
  pub terminal : Bool
  pub fs_read : Bool
  pub fs_write : Bool

pub data LeaderClient : Type 0 where
  register : String → String → ClientCapabilities → LeaderClient
  acp : String → LeaderClient
  ping : LeaderClient

unfoldable pub register_client : LeaderClient
register_client =
    register "aqualung-topside" "stdio"
      (record { terminal = false; fs_read = false; fs_write = false })

pub data LeaderServer : Type 0 where
  registered : Bool → ℕ → LeaderServer
  leader_ready : LeaderServer
  acp : String → LeaderServer
  pong : LeaderServer
  error : String → LeaderServer
  unknown : LeaderServer
