-- ===== src/Daemon/Server/Accept.antt =====
-- What an accept error does: crates/pmd/src/daemon/server.rs and the control socket of
-- crates/pmd/src/daemon/control.rs.
use pmd.Prelude.{◌≡◌, refl, ap, Option, List, [], ◌∷◌, ◌++◌}
use pmd.Platform.{Platform}
use pmd.Daemon.{DaemonState}
use pmd.Daemon.Control.Socket.{
  LineCodec, Accepted, client, accept_error, run_control_socket, handle_control_client,
}
use pmd.Daemon.Server.{Event, accepted, failed, run_server, spawned}

module _ {ℓ} {Session : Type ℓ} where
  -- The sessions of connections.
  abbrev pub sessions_of : List (Option Session) → List Session
  sessions_of [] = []
  sessions_of (c ∷ cs) = spawned c (sessions_of cs)

  abbrev pub arrivals : List (Option Session) → List (Event Session)
  arrivals [] = []
  arrivals (c ∷ cs) = accepted c ∷ arrivals cs

  run_server-failed :
      (before : List (Option Session)) (rest : List (Event Session))
      → run_server (arrivals before ++ Event.accept_error ∷ rest) ≡ (sessions_of before, failed)
  unfolding run_server
  run_server-failed [] rest = refl
  run_server-failed (c ∷ before) rest =
      ap (λ r. (spawned c r.0, r.1)) (run_server-failed before rest)

module _ (P : Platform) (codec : LineCodec P) where
  run_control_socket-error :
      (before after : List (Accepted P)) (st : DaemonState P)
      → run_control_socket P codec (before ++ accept_error ∷ after) st
        ≡ run_control_socket P codec (before ++ after) st
  unfolding run_control_socket
  run_control_socket-error [] after st = refl
  run_control_socket-error (client others now c ∷ before) after st =
      let served = handle_control_client P codec now c (others st) in
      ap (λ r. (r.0, served.outgoing ∷ r.1)) (run_control_socket-error before after served.state)
  run_control_socket-error (accept_error ∷ before) after st =
      run_control_socket-error before after st

  -- The first accept error ends the TLS server: the connections before it have their sessions, whatever
  -- comes behind it has none. The control socket goes on: with or without an accept error, wherever it
  -- comes, it gives the same state and the same answers.
  pub run_server-accept_error {ℓ} :
      {Session : Type ℓ} (connections : List (Option Session)) (rest : List (Event Session))
      (before after : List (Accepted P)) (st : DaemonState P)
      → (run_server (arrivals connections ++ Event.accept_error ∷ rest)
          ≡ (sessions_of connections, failed))
        × (run_control_socket P codec (before ++ accept_error ∷ after) st
            ≡ run_control_socket P codec (before ++ after) st)
  run_server-accept_error connections rest before after st =
      (run_server-failed connections rest, run_control_socket-error before after st)
