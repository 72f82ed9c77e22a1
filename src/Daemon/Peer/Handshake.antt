-- ===== src/Daemon/Peer/Handshake.antt =====
-- The two handshakes of crates/pmd/src/daemon/peer.rs, from the first message that is read to the
-- answer on it, and the errors of a session.
use pmd.Prelude.{ℕ, String, Option, none, some, List, nat_eq, ◌^^◌, if◌then◌else◌}
use pmd.Prelude.Decimal.{show_ℕ}
use pmd.Platform.{Platform}
use pmd.Config.{Config}
use pmd.Protocol.{Message, handshake, handshake_ack, protocol_version}
use pmd.Protocol.Cookie.{verify_cookie_hmac}
use pmd.Protocol.Frame

pub data Error : Type 0 where
  closed_early invalid_hmac unexpected_message bad_listen_addr write_failed bad_delta : Error
  version_mismatch : ℕ → Error
  bad_frame : Frame.Error → Error

pub data Result {ℓ} (A : Type ℓ) : Type ℓ where
  ok : A → Result A
  err : Error → Result A

infixl 5 ◌>>=◌
abbrev pub ◌>>=◌ {ℓ κ} : {A : Type ℓ} {B : Type κ} → Result A → (A → Result B) → Result B
ok a >>= f = f a
err e >>= f = err e

-- What `read_frame(..).await?.ok_or_else(..)?` makes of a read.
abbrev pub first_message {ℓ} : {A : Type ℓ} → Frame.Result (Option A) → Result A
first_message (Frame.Result.ok (some msg)) = ok msg
first_message (Frame.Result.ok none) = err closed_early
first_message (Frame.Result.err e) = err (bad_frame e)

module _ (P : Platform) where
  open P use {Addr, Vv, addr_parse, crypto}

  -- The `match` on the first message of an inbound session: (node_id, listen_addr).
  unfoldable pub check_handshake : List ℕ → Message P → Result (String × Addr)
  check_handshake cookie (handshake node_id listen_addr nonce cookie_hmac version pv) =
      if nat_eq pv protocol_version
      then (if verify_cookie_hmac crypto cookie nonce cookie_hmac
          then ok (node_id, listen_addr)
          else err invalid_hmac)
      else err (version_mismatch pv)
  check_handshake cookie _ = err unexpected_message

  -- The `match` on the reply to an outbound handshake: (node_id, listen_addr, vv).
  unfoldable pub check_handshake_ack : List ℕ → Message P → Result (String × Addr × Vv)
  check_handshake_ack cookie (handshake_ack node_id listen_addr nonce cookie_hmac vv version pv) =
      if nat_eq pv protocol_version
      then (if verify_cookie_hmac crypto cookie nonce cookie_hmac
          then ok (node_id, listen_addr, vv)
          else err invalid_hmac)
      else err (version_mismatch pv)
  check_handshake_ack cookie _ = err unexpected_message

  -- `format!("{}:{}", config.bind, config.port).parse()?`
  unfoldable pub own_listen_addr : Config P → Result Addr
  own_listen_addr config = elim (addr_parse (config.bind ^^ (":" ^^ show_ℕ config.port))) [
    | none ↦ err bad_listen_addr
    | some a ↦ ok a
  ]
