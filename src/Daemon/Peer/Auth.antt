-- ===== src/Daemon/Peer/Auth.antt =====
-- Which first messages the two handshakes of crates/pmd/src/daemon/peer.rs accept.
use pmd.Prelude.{ℕ, String, ◌≡◌, List, ◌↔◌, arith}
use pmd.Platform.{Platform}
use pmd.Protocol.{Message, handshake, handshake_ack, protocol_version}
use pmd.Protocol.Cookie.{compute_cookie_hmac, verify_cookie_hmac_iff}
use pmd.Daemon.Peer.{ok, check_handshake, check_handshake_ack}

module _ (P : Platform) (cookie : List ℕ) where
  open P use {Addr, Vv, crypto}

  -- A handshake is accepted, as coming from the peer that it names, exactly when it has this
  -- protocol version and carries the tag of its own nonce under the cookie.
  pub check_handshake_iff :
      (id : String) (a : Addr) (nonce mac : List ℕ) (version : String) (pv : ℕ)
      → (check_handshake P cookie (handshake id a nonce mac version pv) ≡ ok (id, a))
        ↔ ((pv ≡ protocol_version) × (compute_cookie_hmac crypto cookie nonce ≡ mac))
  unfolding check_handshake
  check_handshake_iff id a nonce mac version pv =
      ground (arith, verify_cookie_hmac_iff crypto cookie nonce mac)

  -- Whatever is accepted as a handshake is one, with this protocol version and the tag of its nonce.
  pub check_handshake_sound :
      (msg : Message P) (id : String) (a : Addr)
      → check_handshake P cookie msg ≡ ok (id, a)
      → (nonce : List ℕ) × (version : String) × (msg
          ≡ handshake id a nonce (compute_cookie_hmac crypto cookie nonce) version protocol_version)
  unfolding check_handshake
  check_handshake_sound (handshake i b nonce mac version pv) id a h =
      (nonce, version, ground (arith, verify_cookie_hmac_iff crypto cookie nonce mac))
  check_handshake_sound _ id a h = absurd (ground arith)

  -- The tag proves nothing about the session: the nonce and the tag of any accepted handshake, sent
  -- back in a reply that names any node, any address and any version vector, are accepted too.
  pub check_handshake_ack-replay :
      (id id' : String) (a a' : Addr) (nonce mac : List ℕ) (version version' : String) (pv : ℕ)
      (vv : Vv)
      → check_handshake P cookie (handshake id a nonce mac version pv) ≡ ok (id, a)
      → check_handshake_ack P cookie (handshake_ack id' a' nonce mac vv version' pv)
        ≡ ok (id', a', vv)
  unfolding check_handshake check_handshake_ack
  check_handshake_ack-replay id id' a a' nonce mac version version' pv vv h = ground arith
