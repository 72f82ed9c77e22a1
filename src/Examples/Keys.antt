-- ===== src/Examples/Keys.antt =====
-- The TLS configurations of a first start.
use pmd.Prelude.{ℕ, String, Bool, false, some, List, [], ◌∷◌}
use pmd.Daemon.Tls.{RustlsTypes, ServerCertVerifier, Rustls}
use pmd.Examples.Starts.{pem}

abbrev types : RustlsTypes
types = record {
  Certificate = List ℕ;
  ServerName = String;
  Signature = List ℕ;
  Scheme = ℕ;
  ring_schemes = 1027 ∷ [];
}

-- A configuration says whether clients are asked for a certificate, and has the own one.
abbrev rustls : Rustls types pem
rustls = record {
  ServerConfig = Bool × List ℕ × List ℕ;
  ClientConfig = ServerCertVerifier types × List ℕ × List ℕ;
  WantsVerifier = Unit;
  WantsServerCert = Bool;
  server_builder = tt;
  with_no_client_auth = λ _. false;
  with_single_cert = λ asks certs key. some (asks, certs, key);
  DangerousBuilder = Unit;
  WantsClientCert = ServerCertVerifier types;
  dangerous = tt;
  with_custom_certificate_verifier = λ _ v. v;
  with_client_auth_cert = λ v certs key. some (v, certs, key);
}

abbrev server : Bool × List ℕ × List ℕ
server = (false, 1 ∷ [], 2 ∷ [])
