-- ===== src/Protocol.antt =====
-- crates/pmd/src/protocol.rs: the messages between daemons, the control socket's requests and
-- responses, and the cookie HMAC. Framing is in Protocol/Frame.antt.
pub mod Frame
pub mod Cookie
use pmd.Prelude.{ℕ, String, Bool, Option, List}
use pmd.Prelude.Maps.{Map}
use pmd.Platform.{Platform}

-- PROTOCOL_VERSION
abbrev pub protocol_version : ℕ
protocol_version = 1

pub data MembershipEvent : Type 0 where
  node_joined node_left : MembershipEvent

-- Bytes are numbers; `nonce` is a `[u8; 32]`.
pub data Message (P : Platform) : Type 0 where
  -- node_id, listen_addr, nonce, cookie_hmac, version, protocol_version
  handshake : String → P.Addr → List ℕ → List ℕ → String → ℕ → Message P
  -- node_id, listen_addr, nonce, cookie_hmac, vv, version, protocol_version
  handshake_ack : String → P.Addr → List ℕ → List ℕ → P.Vv → String → ℕ → Message P
  -- delta_bytes, sender_vv
  membership_sync : List ℕ → P.Vv → Message P
  -- event, node_id, addr
  notification : MembershipEvent → String → String → Message P
  heartbeat : Message P
  heartbeat_ack : Message P

pub data ControlRequest : Type 0 where
  status nodes shutdown subscribe : ControlRequest
  join leave unregister lookup : String → ControlRequest
  register : String → ℕ → Map String → ControlRequest

pub record ServiceEntry : Type 0 where
  pub name : String
  pub node_id : String
  pub host : String
  pub port : ℕ
  pub metadata : Map String

pub record NodeInfoResponse (P : Platform) : Type 0 where
  pub node_id : String
  pub addr : String
  pub joined_at : ℕ
  pub metadata : Map String
  pub services : List ServiceEntry
  pub phi : Option P.Float
  pub last_seen_at : Option ℕ
  pub is_local : Bool

pub data ControlResponse (P : Platform) : Type 0 where
  ok : ControlResponse P
  error : String → ControlResponse P
  -- node_id, listen_addr, peer_count, node_count
  status : String → String → ℕ → ℕ → ControlResponse P
  nodes : List (NodeInfoResponse P) → ControlResponse P
  services : List ServiceEntry → ControlResponse P
  event : MembershipEvent → String → String → ControlResponse P
