-- ===== src/Daemon/Server.antt =====
-- crates/pmd/src/daemon/server.rs: the accept loop of the TLS server. A connection stands for the session
-- that its task runs, a change of the state; none is a TLS handshake that fails. The control socket's loop
-- stands in Daemon/Control/Socket.antt.
pub mod Accept
use pmd.Prelude.{Bool, true, false, Option, none, some, List, [], ◌∷◌}

-- What the `select!` gives: the shutdown, a connection, or an accept error.
pub data Event {ℓ} (Session : Type ℓ) : Type ℓ where
  cancelled : Event Session
  accepted : Option Session → Event Session
  accept_error : Event Session

-- How the loop has ended, if it has.
pub data Exit : Type 0 where
  waiting stopped failed : Exit

module _ {ℓ} {Session : Type ℓ} where
  abbrev pub spawned : Option Session → List Session → List Session
  spawned none sessions = sessions
  spawned (some session) sessions = session ∷ sessions

  -- The sessions that are spawned, in their order, and the loop's end.
  unfoldable pub run_server : List (Event Session) → List Session × Exit
  run_server [] = ([], waiting)
  run_server (cancelled ∷ rest) = ([], stopped)
  run_server (accepted tls_stream ∷ rest) =
      let (sessions, exit) = run_server rest in (spawned tls_stream sessions, exit)
  run_server (accept_error ∷ rest) = ([], failed)
