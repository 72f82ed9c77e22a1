-- ===== src/Daemon/Peer/Leak.antt =====
-- A write that fails right behind the registration, in crates/pmd/src/daemon/peer.rs.
use text.Mathlib.TextPositions.{eq_refl}
use pmd.Prelude.{ℕ, String, ◌≡◌, ◌∙◌, true, false, Option, some, List, arith}
use pmd.Prelude.Maps.{lookup, contains_key, lookup-insert}
use pmd.Platform.{Platform}
use pmd.Config.{Config}
use pmd.Protocol.{Message}
use pmd.Protocol.Frame
use pmd.Daemon.{DaemonState}
use pmd.Daemon.Peer.{
  ok, err, write_failed, ◌>>=◌, first_message, check_handshake, own_listen_addr, new_handle,
  register_peer, stop, Surroundings, serve_inbound, run_inbound,
}

module _ (P : Platform) (config : Config P) (cookie nonce : List ℕ) (version : String) where
  open P use {Addr, vv_new}

  pub lookup-register_peer :
      (id : String) (a : Addr) (st : DaemonState P)
      → lookup id (register_peer P config id a vv_new st).peers
        ≡ some (new_handle P config id a vv_new)
  unfolding register_peer
  lookup-register_peer id a st =
      ground (arith, lookup-insert id id (new_handle P config id a vv_new) st.peers, eq_refl id)

  -- An inbound session whose handshake is accepted, of a node that has a handle when the
  -- session comes to register it, ends at once, without an error, without a word to the other
  -- side, and without any effect.
  run_inbound-duplicate :
      (hello : Frame.Result (Option (Message P))) (env : Surroundings P) (st : DaemonState P)
      (id : String) (a : Addr)
      → (first_message hello >>= check_handshake P cookie) ≡ ok (id, a)
      → contains_key id (env.before_register st).peers ≡ true
      → run_inbound P config cookie nonce version hello env st
        ≡ stop P (ok tt) (env.before_register st)
  unfolding run_inbound
  run_inbound-duplicate hello env st id a accepted there =
      rw (accepted, run_inbound) (rw (there, serve_inbound))

  unwritten_end :
      (hello : Frame.Result (Option (Message P))) (env : Surroundings P) (st : DaemonState P)
      (id : String) (a listen : Addr)
      → (first_message hello >>= check_handshake P cookie) ≡ ok (id, a)
      → contains_key id (env.before_register st).peers ≡ false
      → own_listen_addr P config ≡ ok listen
      → env.greeting_written ≡ false
      → run_inbound P config cookie nonce version hello env st
        ≡ stop P (err write_failed) (register_peer P config id a vv_new (env.before_register st))
  unfolding run_inbound
  unwritten_end hello env st id a listen accepted fresh bound unwritten =
      rw (accepted, run_inbound) (rw (fresh, serve_inbound) (rw bound (rw unwritten)))

  -- If the reply to an accepted handshake cannot be written, the session ends with an error and
  -- leaves the peer registered, though nothing serves it: in the state that it leaves, every later
  -- inbound session of that node is rejected as a duplicate, as long as the other tasks do not
  -- change the state before it registers.
  pub run_inbound-leak :
      (hello hello' : Frame.Result (Option (Message P))) (env env' : Surroundings P)
      (st : DaemonState P) (id : String) (a a' listen : Addr)
      → (first_message hello >>= check_handshake P cookie) ≡ ok (id, a)
      → contains_key id (env.before_register st).peers ≡ false
      → own_listen_addr P config ≡ ok listen
      → env.greeting_written ≡ false
      → (first_message hello' >>= check_handshake P cookie) ≡ ok (id, a')
      → ((s : DaemonState P) → env'.before_register s ≡ s)
      → (left : DaemonState P) × (run_inbound P config cookie nonce version hello env st
          ≡ stop P (err write_failed) left)
        × (contains_key id left.peers ≡ true)
        × (run_inbound P config cookie nonce version hello' env' left ≡ stop P (ok tt) left)
  run_inbound-leak hello hello' env env' st id a a' listen accepted fresh bound unwritten accepted'
        quiet =
      let left = register_peer P config id a vv_new (env.before_register st) in
      let there : contains_key id left.peers ≡ true =
        ground (arith, lookup-register_peer id a (env.before_register st)) in
      (
        left,
        unwritten_end hello env st id a listen accepted fresh bound unwritten,
        there,
        run_inbound-duplicate hello' env' left id a' accepted' (rw quiet there) ∙ rw quiet,
      )
